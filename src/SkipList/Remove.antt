-- ===== src/SkipList/Remove.antt =====
-- include/storage/skiplist.h: remove of a key that is there.
use my_raft_kvdb.Base.{
  ℕ, suc, ◌<◌, ◌≤◌, ◌≡◌, refl, ◌∙◌, none, some, ◌∷◌, ◌++◌, le→leb, arith, pred_ℤ,
}
use my_raft_kvdb.SkipList.{SkipList, Ptr, Heap, Update, max_level, put_node, unsplice}
use my_raft_kvdb.SkipList.Cells.{Cell, Cells, node_of, last_at, next, cons, has-append}
use my_raft_kvdb.SkipList.Contents.{IsSorted-erase, AllReach-erase, AllUsed-erase, length-insert}
use my_raft_kvdb.SkipList.Preds.{Reaches-last_at, forward-last_at, has-last_at, next-has}
use my_raft_kvdb.SkipList.Shrink.{Shrunk, shrunk_front, Linked-shrunk}
use my_raft_kvdb.SkipList.Splice.{Reaches}
use my_raft_kvdb.SkipList.Unsplice.{unsplice_lem, Lowered, lower_level_lem}
use my_raft_kvdb.SkipList.Valid.{IsSkipList, Linked-append_right}

module _ (s : SkipList) (xs : Cells) (c : Cell) (ys : Cells)
    (v : IsSkipList s (xs ++ (c ∷ ys))) where
  abbrev pub pred : ℕ → Ptr
  pred j = last_at j s.header xs

  pred-Reaches : (j : ℕ) → j < max_level → Reaches s.heap (pred j) j
  pred-Reaches j l =
      Reaches-last_at s.heap j s.header xs (c ∷ ys) v.linked (record {
        node = v.header_node;
        holds = v.header_holds;
        reach = omega (arith, v.header_top);
      })

  pred_forward : (j : ℕ) → j < max_level → s.heap.forward (pred j) j ≡ next j (c ∷ ys)
  pred_forward j l =
      forward-last_at s.heap j s.header xs (c ∷ ys) v.linked (v.header_forward j (omega arith))

  abbrev top_level : c.top ≤ s.current_level
  top_level = (AllReach-erase s.current_level xs c ys v.tops).1

  pub unsplice_found :
      (update : Update)
      → ((j : ℕ) → j ≤ s.current_level → update j ≡ some (pred j))
      → (h' : Heap) × (unsplice (suc s.current_level) 0 c.ptr update s.heap ≡ some h')
        × Shrunk s.heap (put_node c.ptr none h') c pred ys
  unsplice_found update low = elim (Linked-append_right xs (c ∷ ys) v.linked) [
    | cons holds k ↦
        let bound = v.level_bound in
        let top = top_level in
        let (h', e, n, f) =
          unsplice_lem (suc s.current_level) 0 c.top c.ptr update pred s.heap (omega arith)
            (omega arith) (λ j l. low j (omega arith)) (λ j l. pred-Reaches j (omega arith))
            (λ j l m. pred_forward j (omega arith) ∙ rw (le→leb j c.top m) refl)
            (λ l.
              let at_end = pred_forward (suc c.top) (omega arith) in
              let apart = next-has (suc c.top) c.ptr ys holds.apart in ground arith)
            (λ j l. record { node = node_of c; holds = holds.node; reach = l }) in
        (
          h',
          e,
          record {
            node = λ q. rw n refl;
            forward = λ q j. f q j ∙ ground (arith, holds.forward j);
          },
        )
  ]

  abbrev pub after_remove : Heap → ℕ → SkipList
  after_remove h' level = record s {
    heap = put_node c.ptr none h';
    current_level = level;
    size = pred_ℤ s.size;
  }

  header_shrunk :
      (h' : Heap)
      → Shrunk s.heap h' c pred ys
      → (j : ℕ) → j ≤ max_level
      → h'.forward s.header j ≡ next j (xs ++ ys)
  header_shrunk h' g j l =
      let apart = v.header_apart in
      shrunk_front s.heap h' c pred ys g s.header j xs
        (ground (arith, has-append s.header xs (c ∷ ys))) (v.header_forward j l) (λ m. refl)

  header_stays : (h' : Heap) → Shrunk s.heap h' c pred ys → h'.node s.header ≡ some v.header_node
  header_stays h' g =
      let apart = v.header_apart in
      ground (arith, g.node s.header, v.header_holds, has-append s.header xs (c ∷ ys))

  pub IsSkipList-remove :
      (h' : Heap) (low : Lowered s.current_level s.header (put_node c.ptr none h') (xs ++ ys))
      → Shrunk s.heap (put_node c.ptr none h') c pred ys
      → IsSkipList (after_remove h' low.lowered) (xs ++ ys)
  IsSkipList-remove h' low g = record {
    header_node = v.header_node;
    header_holds = header_stays (put_node c.ptr none h') g;
    header_top = v.header_top;
    header_forward = header_shrunk (put_node c.ptr none h') g;
    header_apart =
        let apart = v.header_apart in
        ground (arith, has-append s.header xs (c ∷ ys), has-append s.header xs ys);
    header_used = v.header_used;
    linked =
        Linked-shrunk s.heap (put_node c.ptr none h') c pred ys g xs v.linked
          (λ j l. has-last_at s.heap j s.header xs (c ∷ ys) v.linked v.header_apart)
          (λ j l. (s.header, refl));
    sorted = IsSorted-erase xs c ys v.sorted;
    tops = low.reach;
    level_bound = omega (arith, low.lower, v.level_bound);
    size_eq = rw (v.size_eq, length-insert xs c ys) refl;
    used = (AllUsed-erase s.next_address xs c ys v.used).0;
    owned = λ q e f.
        ground (arith, g.node q, v.owned q e, has-append q xs ys, has-append q xs (c ∷ ys));
  }

  pub lowered :
      (h' : Heap) → Shrunk s.heap h' c pred ys → Lowered s.current_level s.header h' (xs ++ ys)
  lowered h' g =
      lower_level_lem s.current_level s.header h' v.header_node (xs ++ ys) (header_stays h' g)
        (omega (arith, v.level_bound, v.header_top))
        (λ j l. header_shrunk h' g j (omega (arith, v.level_bound)))
        (AllReach-erase s.current_level xs c ys v.tops).0
