-- ===== src/SkipList/Replace.antt =====
-- include/storage/skiplist.h: insert of a key that is there, which replaces the value in its node.
use my_raft_kvdb.Base.{
  ℕ, suc, ◌≡◌, refl, ap, sym, ◌∙◌, false, some, [], ◌∷◌, ◌++◌, length, arith, pos,
}
use my_raft_kvdb.SkipList.{Ptr, Heap, SkipList, put_node}
use my_raft_kvdb.SkipList.Cells.{
  Cell, Cells, node_of, has, next, Linked, nil, cons, AllBelow, has-append,
}
use my_raft_kvdb.SkipList.Contents.{
  IsSorted-insert, IsSorted-erase, AllReach-insert, AllReach-erase, AllUsed-swap,
}
use my_raft_kvdb.SkipList.Valid.{IsSkipList, IsSorted-append_right}
use my_raft_kvdb.Text.{Bytes}

module _ (c : Cell) (value : Bytes) where
  -- The element with the new value.
  abbrev pub with_value : Cell
  with_value = record { ptr = c.ptr; key = c.key; value = value; top = c.top }

  abbrev pub replaced : Heap → Heap
  replaced h = put_node c.ptr (some (node_of with_value)) h

  next_same : (j : ℕ) (xs ys : Cells) → next j (xs ++ (c ∷ ys)) ≡ next j (xs ++ (with_value ∷ ys))
  next_same j [] ys = refl
  next_same j (x ∷ xs) ys = rw (next_same j xs ys) refl

  has_same : (p : Ptr) (xs ys : Cells) → has p (xs ++ (c ∷ ys)) ≡ has p (xs ++ (with_value ∷ ys))
  has_same p [] ys = refl
  has_same p (x ∷ xs) ys = rw (has_same p xs ys) refl

  length_same : (xs ys : Cells) → length (xs ++ (c ∷ ys)) ≡ length (xs ++ (with_value ∷ ys))
  length_same [] ys = refl
  length_same (x ∷ xs) ys = ap suc (length_same xs ys)

  replaced_rest :
      (h : Heap) (ys : Cells) → Linked h ys → has c.ptr ys ≡ false → Linked (replaced h) ys
  replaced_rest h [] k a = nil
  replaced_rest h (y ∷ ys) (cons holds k) a =
      cons
        (record { node = ground (arith, holds.node); forward = holds.forward; apart = holds.apart })
        (replaced_rest h ys k (ground arith))

  Linked-replaced :
      (h : Heap) (xs ys : Cells)
      → Linked h (xs ++ (c ∷ ys))
      → Linked (replaced h) (xs ++ (with_value ∷ ys))
  Linked-replaced h [] ys (cons holds k) =
      cons (record { node = ground arith; forward = holds.forward; apart = holds.apart })
        (replaced_rest h ys k holds.apart)
  Linked-replaced h (x ∷ xs) ys (cons holds k) =
      cons
        (record {
          node = ground (arith, holds.node, holds.apart, has-append x.ptr xs (c ∷ ys));
          forward = λ j l. holds.forward j l ∙ next_same j xs ys;
          apart = sym (has_same x.ptr xs ys) ∙ holds.apart;
        })
        (Linked-replaced h xs ys k)

  abbrev pub after_replace : SkipList → SkipList
  after_replace s = record s { heap = replaced s.heap }

  pub IsSkipList-replace :
      (s : SkipList) (xs ys : Cells)
      → IsSkipList s (xs ++ (c ∷ ys))
      → AllBelow c.key xs
      → IsSkipList (after_replace s) (xs ++ (with_value ∷ ys))
  IsSkipList-replace s xs ys v b =
      let (reach, level) = AllReach-erase s.current_level xs c ys v.tops in
      record {
        header_node = v.header_node;
        header_holds =
            ground (arith, v.header_holds, v.header_apart, has-append s.header xs (c ∷ ys));
        header_top = v.header_top;
        header_forward = λ j l. v.header_forward j l ∙ next_same j xs ys;
        header_apart = sym (has_same s.header xs ys) ∙ v.header_apart;
        header_used = v.header_used;
        linked = Linked-replaced s.heap xs ys v.linked;
        sorted =
            IsSorted-insert xs with_value ys (IsSorted-erase xs c ys v.sorted) b
              (IsSorted-append_right xs (c ∷ ys) v.sorted).0;
        tops = AllReach-insert s.current_level xs with_value ys reach level;
        level_bound = v.level_bound;
        size_eq = v.size_eq ∙ ap pos (length_same xs ys);
        used = AllUsed-swap s.next_address xs c with_value ys refl v.used;
        owned = λ q e f.
            ground (arith, v.owned q e, has_same q xs ys, has-append q xs (with_value ∷ ys));
      }
