-- ===== src/SkipList/Unsplice.antt =====
-- include/storage/skiplist.h: the loops of remove.
use my_raft_kvdb.Base.{
  ℕ, zero, suc, ◌+◌, ◌<◌, ◌≤◌, ◌≡◌, refl, ◌∙◌, true, false, ◌&&◌, Option, none, some, [], ◌∷◌, leb,
  leb→le, ◌==◌, if◌then◌else◌, arith, inl, inr, Bool-cases,
}
use my_raft_kvdb.SkipList.{Ptr, Node, Heap, Update, unsplice, lower_level}
use my_raft_kvdb.SkipList.Cells.{Cells, next, AllReach}
use my_raft_kvdb.SkipList.Splice.{
  Reaches, get_forward-Reaches, set_forward-Reaches, with_forward, kept_Reaches,
}

-- The pointers after the node is taken out of the levels i to `top`.
abbrev pub unspliced : Heap → Ptr → (ℕ → Ptr) → ℕ → ℕ → Ptr → ℕ → Option Ptr
unspliced h target u i top q j =
    if leb i j && leb j top && q == u j then h.forward target j else h.forward q j

eqb_refl : (p : Ptr) → (p == p) ≡ true
eqb_refl p = ground arith

unsplice_here :
    (count i : ℕ) (target : Ptr) (update : Update) (u : Ptr) (h : Heap)
    → update i ≡ some u
    → Reaches h u i
    → h.forward u i ≡ some target
    → Reaches h target i
    → unsplice (suc count) i target update h
      ≡ unsplice count (suc i) target update (with_forward u i (h.forward target i) h)
unfolding unsplice
unsplice_here count i target update u h e r f t = rw e (
    rw (get_forward-Reaches h u i r) (
      rw f (
        rw (eqb_refl target) (
          rw (get_forward-Reaches h target i t)
            (rw (set_forward-Reaches h u i (h.forward target i) r) refl)))))

unsplice_stop :
    (count i : ℕ) (target : Ptr) (update : Update) (u : Ptr) (h : Heap)
    → update i ≡ some u
    → Reaches h u i
    → (elim (h.forward u i) [ none ↦ false | some q ↦ q == target ]) ≡ false
    → unsplice (suc count) i target update h ≡ some h
unfolding unsplice
unsplice_stop count i target update u h e r f =
    rw e (rw (get_forward-Reaches h u i r) (ground arith))

-- The loop ends behind the last level of the node, where its predecessor passes it by.
pub unsplice_lem :
    (count i top : ℕ) (target : Ptr) (update : Update) (u : ℕ → Ptr) (h : Heap)
    → i ≤ suc top
    → suc top ≤ i + count
    → ((j : ℕ) → j < i + count → update j ≡ some (u j))
    → ((j : ℕ) → j < i + count → Reaches h (u j) j)
    → ((j : ℕ) → i ≤ j → j ≤ top → h.forward (u j) j ≡ some target)
    → (suc top < i + count
        → (elim (h.forward (u (suc top)) (suc top)) [ none ↦ false | some q ↦ q == target ])
          ≡ false)
    → ((j : ℕ) → j ≤ top → Reaches h target j)
    → (h' : Heap) × (unsplice count i target update h ≡ some h')
      × (h'.node ≡ h.node)
      × ((q : Ptr) (j : ℕ) → h'.forward q j ≡ unspliced h target u i top q j)
unfolding unsplice
unsplice_lem zero i top target update u h l m e r f g t = (h, refl, refl, λ q j. ground arith)
unsplice_lem (suc count) i top target update u h l m e r f g t = elim (Bool-cases (leb i top)) [
  | inr past ↦
      let i_eq : i ≡ suc top = ground arith in
      (
        h,
        unsplice_stop count i target update (u i) h (e i (omega arith)) (r i (omega arith))
            (rw i_eq (g (omega arith))),
        refl,
        λ q j. ground arith,
      )
  | inl in_reach ↦
      let i_le = leb→le i top in_reach in
      let h1 = with_forward (u i) i (h.forward target i) h in
      let (h', s, n, k) =
        unsplice_lem count (suc i) top target update u h1 (omega arith) (omega arith)
          (λ j p. e j (omega arith)) (λ j p. kept_Reaches h h1 (u j) j refl (r j (omega arith)))
          (λ j p p'. let old = f j (omega arith) p' in ground arith)
          (λ p. let old = g (omega arith) in ground arith)
          (λ j p. kept_Reaches h h1 target j refl (t j p)) in
      (
        h',
        unsplice_here count i target update (u i) h (e i (omega arith)) (r i (omega arith))
              (f i (omega arith) i_le) (t i i_le)
            ∙ s,
        n,
        λ q j. k q j ∙ ground arith,
      )
]

AllReach-lower :
    (level : ℕ) (cs : Cells)
    → AllReach (suc level) cs
    → next (suc level) cs ≡ none
    → AllReach level cs
AllReach-lower level [] a e = tt
AllReach-lower level (c ∷ cs) a e = elim (Bool-cases (leb (suc level) c.top)) [
  | inl t ↦ ground arith
  | inr t ↦ (ground arith, AllReach-lower level cs a.1 (ground arith))
]

lower_step :
    (level : ℕ) (header : Ptr) (h : Heap) (o : Option Ptr)
    → Reaches h header (suc level)
    → h.forward header (suc level) ≡ o
    → lower_level (suc level) header h
      ≡ elim o [ none ↦ lower_level level header h | some _ ↦ some (suc level) ]
unfolding lower_level
lower_step level header h o r f = rw (get_forward-Reaches h header (suc level) r) (rw f refl)

-- How the loop that lowers the level ends: at a level that no element is above.
pub record Lowered (level : ℕ) (header : Ptr) (h : Heap) (cs : Cells) : Type 0 where
  pub lowered : ℕ
  pub runs : lower_level level header h ≡ some lowered
  pub lower : lowered ≤ level
  pub reach : AllReach lowered cs

lowered_of :
    (level : ℕ) (header : Ptr) (h : Heap) (cs : Cells) (o : Option Ptr)
    → next (suc level) cs ≡ o
    → lower_level (suc level) header h
      ≡ elim o [ none ↦ lower_level level header h | some _ ↦ some (suc level) ]
    → AllReach (suc level) cs
    → (AllReach level cs → Lowered level header h cs)
    → Lowered (suc level) header h cs
lowered_of level header h cs none e step a rest =
    let r = rest (AllReach-lower level cs a e) in
    record {
      lowered = r.lowered;
      runs = step ∙ r.runs;
      lower = omega (arith, r.lower);
      reach = r.reach;
    }
lowered_of level header h cs (some p) e step a rest = record {
  lowered = suc level;
  runs = step;
  lower = omega arith;
  reach = a;
}

pub lower_level_lem :
    (level : ℕ) (header : Ptr) (h : Heap) (n : Node) (cs : Cells)
    → h.node header ≡ some n
    → level ≤ n.top
    → ((j : ℕ) → j ≤ level → h.forward header j ≡ next j cs)
    → AllReach level cs
    → Lowered level header h cs
unfolding lower_level
lower_level_lem zero header h n cs e l f a = record {
  lowered = 0;
  runs = refl;
  lower = omega arith;
  reach = a;
}
lower_level_lem (suc level) header h n cs e l f a =
    lowered_of level header h cs (next (suc level) cs) refl
      (lower_step level header h (next (suc level) cs) (record { node = n; holds = e; reach = l })
        (f (suc level) (omega arith)))
      a (lower_level_lem level header h n cs e (omega arith) (λ j m. f j (omega arith)))
