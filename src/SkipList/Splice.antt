-- ===== src/SkipList/Splice.antt =====
-- include/storage/skiplist.h: what the loops of insert do to the predecessors and to the pointers.
use my_raft_kvdb.Base.{
  ℕ, zero, suc, ◌+◌, ◌-◌, ◌<◌, ◌≤◌, ◌≡◌, refl, ◌∙◌, Bool, true, false, ◌&&◌, Option, some, List, [],
  ◌∷◌, ltb, leb, lt→ltb, le→leb, ◌==◌, if◌then◌else◌, arith, inl, inr, Bool-cases,
}
use my_raft_kvdb.SkipList.{
  Ptr, Node, Heap, Update, max_level, random_level, raise_levels, set_update, get_forward,
  set_forward, splice,
}

-- A drawn level is a level of the header, and an index of the vector `update`.
pub random_level_bound :
    (level : ℕ) (coins : List Bool) → level < max_level → (random_level level coins).0 < max_level
unfolding random_level
random_level_bound level [] l = l
random_level_bound level (false ∷ coins) l = l
random_level_bound level (true ∷ coins) l = elim (Bool-cases (ltb level (max_level - 1))) [
  | inl t ↦ rw t (random_level_bound (suc level) coins (ground arith))
  | inr t ↦ rw t l
]

abbrev pub in_range : ℕ → ℕ → ℕ → Bool
in_range i count j = leb i j && ltb j (i + count)

pub raise_levels_lem :
    (count i : ℕ) (header : Ptr) (update : Update)
    → i + count ≤ max_level
    → (update' : Update) × (raise_levels count i header update ≡ some update')
      × ((j : ℕ) → update' j ≡ (if in_range i count j then some header else update j))
unfolding raise_levels set_update
raise_levels_lem zero i header update l = (update, refl, λ j. ground arith)
raise_levels_lem (suc count) i header update l =
    let (update', e, f) =
      raise_levels_lem count (suc i) header (λ j. if j == i then some header else update j)
        (omega arith) in
    (update', rw (lt→ltb i max_level (omega arith)) e, λ j. ground (arith, f j))

-- A node with a level.
pub record Reaches (h : Heap) (p : Ptr) (level : ℕ) : Type 0 where
  pub node : Node
  pub holds : h.node p ≡ some node
  pub reach : level ≤ node.top

pub get_forward-Reaches :
    (h : Heap) (p : Ptr) (level : ℕ)
    → Reaches h p level
    → get_forward p level h ≡ some (h.forward p level)
unfolding get_forward
get_forward-Reaches h p level r = rw (r.holds, le→leb level r.node.top r.reach) refl

abbrev pub with_forward : Ptr → ℕ → Option Ptr → Heap → Heap
with_forward p level q h = record h {
  forward = λ r l. if r == p && l == level then q else h.forward r l;
}

pub set_forward-Reaches :
    (h : Heap) (p : Ptr) (level : ℕ) (q : Option Ptr)
    → Reaches h p level
    → set_forward p level q h ≡ some (with_forward p level q h)
unfolding set_forward
set_forward-Reaches h p level q r = rw (r.holds, le→leb level r.node.top r.reach) refl

pub kept_Reaches :
    (h h' : Heap) (p : Ptr) (level : ℕ) → h'.node ≡ h.node → Reaches h p level → Reaches h' p level
kept_Reaches h h' p level e r = record { node = r.node; holds = rw e r.holds; reach = r.reach }

-- The pointers after the new node is put behind `u j` on each level j of a range.
abbrev pub spliced : Heap → Ptr → (ℕ → Ptr) → ℕ → ℕ → Ptr → ℕ → Option Ptr
spliced h new u i count q j =
    if in_range i count j
    then if q == new then h.forward (u j) j else if q == u j then some new else h.forward q j
    else h.forward q j

splice_step :
    (h : Heap) (new : Ptr) (u : ℕ → Ptr) (i : ℕ) (count : ℕ) (q : Ptr) (j : ℕ)
    → (u i == new) ≡ false
    → let h2 = with_forward (u i) i (some new) (with_forward new i (h.forward (u i) i) h) in
      spliced h2 new u (suc i) count q j ≡ spliced h new u i (suc count) q j
splice_step h new u i count q j a = ground arith

pub splice_lem :
    (count i : ℕ) (new : Ptr) (update : Update) (u : ℕ → Ptr) (h : Heap)
    → ((j : ℕ) → j < i + count → update j ≡ some (u j))
    → ((j : ℕ) → j < i + count → Reaches h (u j) j)
    → ((j : ℕ) → j < i + count → Reaches h new j)
    → ((j : ℕ) → j < i + count → (u j == new) ≡ false)
    → (h' : Heap) × (splice count i new update h ≡ some h')
      × (h'.node ≡ h.node)
      × ((q : Ptr) (j : ℕ) → h'.forward q j ≡ spliced h new u i count q j)
unfolding splice
splice_lem zero i new update u h e r rn a = (h, refl, refl, λ q j. ground arith)
splice_lem (suc count) i new update u h e r rn a =
    let l : i < i + suc count = omega arith in
    let h1 = with_forward new i (h.forward (u i) i) h in
    let h2 = with_forward (u i) i (some new) h1 in
    let (h', s, n, f) =
      splice_lem count (suc i) new update u h2 (λ j m. e j (omega arith))
        (λ j m. kept_Reaches h h2 (u j) j refl (r j (omega arith)))
        (λ j m. kept_Reaches h h2 new j refl (rn j (omega arith))) (λ j m. a j (omega arith)) in
    (
      h',
      rw (e i l) (
          rw (get_forward-Reaches h (u i) i (r i l)) (
            rw (set_forward-Reaches h new i (h.forward (u i) i) (rn i l)) (
              rw
                (set_forward-Reaches h1 (u i) i (some new) (kept_Reaches h h1 (u i) i refl (r i l)))
                s))),
      n,
      λ q j. f q j ∙ splice_step h new u i count q j (a i l),
    )
