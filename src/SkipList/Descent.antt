-- ===== src/SkipList/Descent.antt =====
-- include/storage/skiplist.h: the outer loop of search, insert and remove, from level to level.
use my_raft_kvdb.Base.{
  ℕ, zero, suc, ◌<◌, ◌≤◌, ◌≡◌, refl, ap, subst, ◌∙◌, none, some, [], ◌∷◌, ◌++◌, length, leb, lt→ltb,
  leb→le, le→leb, ◌==◌, if◌then◌else◌, arith, inl, inr, Bool-cases,
}
use my_raft_kvdb.SkipList.{Ptr, Heap, Update, max_level, walk, descend, descend_update, set_update}
use my_raft_kvdb.SkipList.Cells.{
  Cell, Cells, node_of, next, last_at, Linked, cons, AllBelow, NoneBelow,
}
use my_raft_kvdb.SkipList.Walk.{Place, walk-last_at}
use my_raft_kvdb.Text.{Bytes}

module _ (h : Heap) (key : Bytes) (bs : Cells) (rest_none : NoneBelow key bs) where
  -- Where the loop of a level ends: none of the elements behind that are below the key reaches the
  -- level, and for the lower levels the targets are as they were.
  record Arrival (bound level : ℕ) (p : Ptr) (target : ℕ → Ptr) : Type 0 where
    ys : Cells
    place : Place h key bs rest_none level p ys
    last : (j : ℕ) → j ≤ level → last_at j p ys ≡ target j
    passed : next level ys ≡ none
    shorter : length ys ≤ bound

  Place-of :
      (level : ℕ) (c : Cell) (ys : Cells)
      → level ≤ c.top
      → Linked h ((c ∷ ys) ++ bs)
      → AllBelow key ys
      → Place h key bs rest_none level c.ptr ys
  Place-of level c ys l (cons holds k) b = record {
    node = node_of c;
    holds = holds.node;
    reach = l;
    forward = λ j m. holds.forward j (omega arith);
    linked = k;
    below = b;
  }

  arrival :
      (bound level : ℕ) (p : Ptr) (ys : Cells) (target : ℕ → Ptr) (ds : Cells)
      → Place h key bs rest_none level p ys
      → next level ys ≡ next level ds
      → ((j : ℕ) → j ≤ level → last_at j p ys ≡ target j)
      → ((j : ℕ) → j ≤ level → (r : Ptr) × (last_at j r ds ≡ target j))
      → Linked h (ds ++ bs)
      → AllBelow key ds
      → length ys ≤ bound
      → length ds ≤ bound
      → Arrival bound level (last_at level p ds) target
  arrival bound level p ys target [] place same last from k b s t = record {
    ys = ys;
    place = place;
    last = last;
    passed = same;
    shorter = s;
  }
  arrival bound level p ys target (d ∷ ds) place same last from k b s t =
      elim (Bool-cases (leb level d.top)) [
        | inl reaches ↦
            let l = leb→le level d.top reaches in
            let onward : (j : ℕ) → j ≤ level → last_at j d.ptr ds ≡ target j =
              λ j m. (rw (le→leb j d.top (omega arith)) at ((from j m).1)) in
            rw reaches (
              arrival bound level d.ptr ds target ds (Place-of level d ds l k b.1) refl onward
                (λ j m. (d.ptr, onward j m)) (linked_tail k) b.1 (omega arith) (omega arith))
        | inr short ↦ rw short (
            arrival bound level p ys target ds place (same ∙ rw short refl) last
              (λ j m. (if leb j d.top then d.ptr else (from j m).0, (from j m).1)) (linked_tail k)
              b.1 s (omega arith))
      ]
    where
      linked_tail : {c : Cell} {cs : Cells} → Linked h (c ∷ cs) → Linked h cs
      linked_tail (cons _ l) = l

  -- The loop of one level.
  walk-Arrival :
      (fuel level : ℕ) (p : Ptr) (ys : Cells)
      → Place h key bs rest_none level p ys
      → length ys < fuel
      → (walk fuel key level p h ≡ some (last_at level p ys))
        × Arrival (length ys) level (last_at level p ys) (λ j. last_at j p ys)
  walk-Arrival fuel level p ys place s = (
    walk-last_at h key bs rest_none fuel level p place.node ys place.holds place.reach
        (place.forward level (omega arith)) place.linked place.below s,
    arrival (length ys) level p ys (λ j. last_at j p ys) ys place refl (λ j m. refl)
        (λ j m. (p, refl)) place.linked place.below (omega arith) (omega arith),
  )

  -- How the loop over the levels 0 to `level` ends, started behind the elements `ys`: at the last of
  -- them, with the last of them that reaches it kept for each level.
  pub record Descent (fuel level : ℕ) (p : Ptr) (ys : Cells) (update : Update) : Type 0 where
    pub place : Place h key bs rest_none 0 (last_at 0 p ys) []
    pub plain : descend fuel key (suc level) p h ≡ some (last_at 0 p ys)
    pub update' : Update
    pub kept : descend_update fuel key (suc level) p update h ≡ some (last_at 0 p ys, update')
    pub low : (j : ℕ) → j ≤ level → update' j ≡ some (last_at j p ys)
    pub high : (j : ℕ) → level < j → update' j ≡ update j

  nil_of_passed : (ys : Cells) → next 0 ys ≡ none → ys ≡ []
  nil_of_passed [] e = refl
  nil_of_passed (c ∷ ys) e = ground arith

  descend_step :
      (fuel level : ℕ) (p q : Ptr)
      → walk fuel key level p h ≡ some q
      → descend fuel key (suc level) p h ≡ descend fuel key level q h
  unfolding descend
  descend_step fuel level p q e = rw e refl

  abbrev updated : Update → ℕ → Ptr → Update
  updated update i q j = if j == i then some q else update j

  descend_update_step :
      (fuel level : ℕ) (p q : Ptr) (update : Update)
      → walk fuel key level p h ≡ some q
      → level < max_level
      → descend_update fuel key (suc level) p update h
        ≡ descend_update fuel key level q (updated update level q) h
  unfolding descend_update set_update
  descend_update_step fuel level p q update e l = rw e (rw (lt→ltb level max_level l) refl)

  weaken :
      (level : ℕ) (p : Ptr) (ys : Cells)
      → Place h key bs rest_none (suc level) p ys
      → Place h key bs rest_none level p ys
  weaken level p ys place = record {
    node = place.node;
    holds = place.holds;
    reach = omega (arith, place.reach);
    forward = λ j m. place.forward j (omega arith);
    linked = place.linked;
    below = place.below;
  }

  not_at : (i : ℕ) (q : Ptr) (update : Update) (j : ℕ) → i < j → updated update i q j ≡ update j
  not_at i q update j m = ground arith

  low_step :
      (level : ℕ) (p : Ptr) (ys : Cells) (p1 : Ptr) (ys1 : Cells) (update update' : Update)
      → ((j : ℕ) → j ≤ level → update' j ≡ some (last_at j p1 ys1))
      → ((j : ℕ) → level < j → update' j ≡ updated update (suc level) p1 j)
      → p1 ≡ last_at (suc level) p ys
      → ((j : ℕ) → j ≤ suc level → last_at j p1 ys1 ≡ last_at j p ys)
      → (j : ℕ) → j ≤ suc level
      → update' j ≡ some (last_at j p ys)
  low_step level p ys p1 ys1 update update' low high e last j m = elim (Bool-cases (leb j level)) [
    | inl t ↦ low j (leb→le j level t) ∙ ap some (last j m)
    | inr t ↦
        let at_top : j ≡ suc level = ground arith in high j (omega arith) ∙ rw at_top (ground arith)
  ]

  -- The loop over all levels.
  pub descent :
      (fuel level : ℕ) (p : Ptr) (ys : Cells) (update : Update)
      → Place h key bs rest_none level p ys
      → length ys < fuel
      → level < max_level
      → Descent fuel level p ys update
  unfolding descend descend_update
  descent fuel zero p ys update place s l =
      let (w, a) = walk-Arrival fuel 0 p ys place s in
      record {
        place =
            subst (Place h key bs rest_none 0 (last_at 0 p ys)) (nil_of_passed a.ys a.passed)
              a.place;
        plain = descend_step fuel 0 p _ w;
        update' = updated update 0 (last_at 0 p ys);
        kept = descend_update_step fuel 0 p _ update w l;
        low = λ j m. ground arith;
        high = λ j m. ground arith;
      }
  descent fuel (suc level) p ys update place s l =
      let (w, a) = walk-Arrival fuel (suc level) p ys place s in
      let p1 = last_at (suc level) p ys in
      let d =
        descent fuel level p1 a.ys (updated update (suc level) p1) (weaken level p1 a.ys a.place)
          (omega (arith, a.shorter)) (omega arith) in
      let same : last_at 0 p1 a.ys ≡ last_at 0 p ys = a.last 0 (omega arith) in
      record {
        place = subst (λ q. Place h key bs rest_none 0 q []) same d.place;
        plain = descend_step fuel (suc level) p p1 w ∙ d.plain ∙ ap some same;
        update' = d.update';
        kept =
            descend_update_step fuel (suc level) p p1 update w l
            ∙ d.kept
            ∙ ap (λ q. some (q, d.update')) same;
        low = low_step level p ys p1 a.ys update d.update' d.low d.high refl (λ j m. a.last j m);
        high = λ j m. d.high j (omega arith) ∙ not_at (suc level) p1 update j m;
      }
