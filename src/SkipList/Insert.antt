-- ===== src/SkipList/Insert.antt =====
-- include/storage/skiplist.h: insert of a key that is not there.
use my_raft_kvdb.Base.{
  ℕ, suc, ◌-◌, ◌<◌, ◌≤◌, ◌≡◌, refl, ◌∙◌, false, none, some, ◌∷◌, ◌++◌, ltb, leb, ◌==◌,
  if◌then◌else◌, arith, inl, inr, Bool-cases, suc_ℤ,
}
use my_raft_kvdb.SkipList.{
  Ptr, Heap, SkipList, Update, max_level, random_level, raise_levels, insert_new,
}
use my_raft_kvdb.SkipList.Cells.{Cell, Cells, has, last_at, AllBelow, AllAbove, has-append}
use my_raft_kvdb.SkipList.Contents.{
  IsSorted-insert, AllReach-insert, AllReach-mono, AllUsed-insert, has_fresh, length-insert,
}
use my_raft_kvdb.SkipList.Grow.{Grown, grown_front, Linked-grown}
use my_raft_kvdb.SkipList.Preds.{
  Reaches-last_at, forward-last_at, has-last_at, fresh-last_at, last_at-AllReach,
}
use my_raft_kvdb.SkipList.Splice.{
  Reaches, raise_levels_lem, random_level_bound, splice_lem, spliced,
}
use my_raft_kvdb.SkipList.Valid.{IsSkipList}
use my_raft_kvdb.Text.{Bytes}

module _ (key value : Bytes) (s : SkipList) (xs ys : Cells) (v : IsSkipList s (xs ++ ys)) where
  abbrev drawn : ℕ
  drawn = (random_level 0 s.coins).0

  -- The new element.
  abbrev pub new_cell : Cell
  new_cell = record { ptr = s.next_address; key = key; value = value; top = drawn }

  abbrev pred : ℕ → Ptr
  pred j = last_at j s.header xs

  -- The heap after `new`.
  abbrev allocated : Heap
  allocated = record {
    node = λ q.
        if q == s.next_address
        then some (record { key = key; value = value; top = drawn })
        else s.heap.node q;
    forward = λ q l. if q == s.next_address then none else s.heap.forward q l;
  }

  drawn_bound : drawn < max_level
  drawn_bound = random_level_bound 0 s.coins (omega arith)

  not_new : (s.header == s.next_address) ≡ false
  not_new = let l = v.header_used in ground arith

  apart_xs : has s.next_address xs ≡ false
  apart_xs =
      ground (arith, has_fresh s.next_address (xs ++ ys) v.used, has-append s.next_address xs ys)

  pred_not_new : (j : ℕ) → (pred j == s.next_address) ≡ false
  pred_not_new j = fresh-last_at s.next_address j s.header xs apart_xs not_new

  pred-Reaches : (j : ℕ) → j < max_level → Reaches s.heap (pred j) j
  pred-Reaches j l =
      Reaches-last_at s.heap j s.header xs ys v.linked (record {
        node = v.header_node;
        holds = v.header_holds;
        reach = omega (arith, v.header_top);
      })

  allocated-Reaches : (j : ℕ) → j < max_level → Reaches allocated (pred j) j
  allocated-Reaches j l =
      let r = pred-Reaches j l in
      record { node = r.node; holds = rw (pred_not_new j) r.holds; reach = r.reach }

  new-Reaches : (j : ℕ) → j < suc drawn → Reaches allocated s.next_address j
  new-Reaches j l = record {
    node = record { key = key; value = value; top = drawn };
    holds = ground arith;
    reach = omega arith;
  }

  -- The predecessors on the levels of the new node.
  raised :
      (update : Update)
      → ((j : ℕ) → j ≤ s.current_level → update j ≡ some (pred j))
      → (update' : Update) × (raise_levels
            (drawn - s.current_level)
            (suc s.current_level)
            s.header
            update
          ≡ some update')
        × ((j : ℕ) → j < suc drawn → update' j ≡ some (pred j))
  raised update low =
      let (update', e, f) =
        raise_levels_lem (drawn - s.current_level) (suc s.current_level) s.header update
          (omega (arith, drawn_bound, v.level_bound)) in
      (
        update',
        e,
        λ j l. f j ∙ elim (Bool-cases (leb j s.current_level)) [
          | inl t ↦ ground (arith, low j)
          | inr t ↦ ground (arith, last_at-AllReach s.current_level j s.header xs ys v.tops)
        ],
      )

  grown :
      (h' : Heap)
      → h'.node ≡ allocated.node
      → ((q : Ptr) (j : ℕ)
          → h'.forward q j ≡ spliced allocated s.next_address pred 0 (suc drawn) q j)
      → Grown s.heap h' new_cell pred ys
  grown h' n f = record {
    node = λ q. rw n refl;
    new_forward = λ j l.
        let d = drawn_bound in
        let e =
          forward-last_at s.heap j s.header xs ys v.linked (v.header_forward j (omega arith)) in
        f s.next_address j ∙ ground (arith, pred_not_new j, e);
    forward = λ q j a. f q j ∙ ground arith;
  }

  abbrev pub after : Heap → SkipList
  after h' = record s {
    heap = h';
    current_level = if ltb s.current_level drawn then drawn else s.current_level;
    size = suc_ℤ s.size;
    coins = (random_level 0 s.coins).1;
    next_address = suc s.next_address;
  }

  after_IsSkipList :
      (h' : Heap)
      → Grown s.heap h' new_cell pred ys
      → AllBelow key xs
      → AllAbove key ys
      → IsSkipList (after h') (xs ++ (new_cell ∷ ys))
  after_IsSkipList h' g b a = record {
    header_node = v.header_node;
    header_holds = ground (arith, g.node s.header, not_new, v.header_holds);
    header_top = v.header_top;
    header_forward = λ j l.
        grown_front s.heap h' new_cell pred ys g s.header j xs not_new
          (ground (arith, has-append s.header xs ys, v.header_apart)) (v.header_forward j l)
          (λ m. refl);
    header_apart = ground (
      arith,
      has-append s.header xs ys,
      has-append s.header xs (new_cell ∷ ys),
      v.header_apart,
      not_new,
    );
    header_used = let l = v.header_used in omega arith;
    linked =
        Linked-grown s.heap h' new_cell pred ys g xs v.linked
          (has_fresh s.next_address (xs ++ ys) v.used)
          (λ j l. has-last_at s.heap j s.header xs ys v.linked v.header_apart)
          (λ j l. (s.header, refl));
    sorted = IsSorted-insert xs new_cell ys v.sorted b a;
    tops =
        AllReach-insert (after h').current_level xs new_cell ys
          (AllReach-mono s.current_level (after h').current_level (xs ++ ys) (ground arith) v.tops)
          (ground arith);
    level_bound = let d = drawn_bound in let l = v.level_bound in ground arith;
    size_eq = rw (v.size_eq, length-insert xs new_cell ys) refl;
    used = AllUsed-insert xs new_cell ys v.used;
    owned = λ q e f.
        ground (arith, g.node q, v.owned q e, has-append q xs ys, has-append q xs (new_cell ∷ ys));
  }

  -- The loops of insert never leave the heap, and put the new element in its place.
  pub insert_new_lem :
      (update : Update)
      → ((j : ℕ) → j ≤ s.current_level → update j ≡ some (pred j))
      → AllBelow key xs
      → AllAbove key ys
      → (s' : SkipList) × (insert_new key value update s ≡ some s')
        × IsSkipList s' (xs ++ (new_cell ∷ ys))
  unfolding insert_new
  insert_new_lem update low b a =
      let (update', e, f) = raised update low in
      let d = drawn_bound in
      let (h', e', n, g) =
        splice_lem (suc drawn) 0 s.next_address update' pred allocated (λ j l. f j (omega arith))
          (λ j l. allocated-Reaches j (omega arith)) (λ j l. new-Reaches j (omega arith))
          (λ j l. pred_not_new j) in
      (after h', rw e (rw e' refl), after_IsSkipList h' (grown h' n g) b a)
