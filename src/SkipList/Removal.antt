-- ===== src/SkipList/Removal.antt =====
-- include/storage/skiplist.h: remove as a whole.
use my_raft_kvdb.Base.{
  ℕ, suc, ◌≡◌, refl, ap, sym, subst, ◌∙◌, Bool, true, false, Option, none, some, [], ◌∷◌, ◌++◌,
  if◌then◌else◌, is_some, inl, inr, Bool-cases, pred_ℤ,
}
use my_raft_kvdb.SkipList.{
  SkipList, Ptr, Node, Heap, Update, put_node, remove_key, unsplice, lower_level, descend_update,
  get_forward, matches, rounds,
}
use my_raft_kvdb.SkipList.Cells.{Cell, Cells, node_of, NoneBelow, AllBelow, lookup, cut}
use my_raft_kvdb.SkipList.Contents.{lookup-erase}
use my_raft_kvdb.SkipList.Order.{same_bytes_lem, same_bytes_refl}
use my_raft_kvdb.SkipList.Remove.{after_remove, unsplice_found, lowered, IsSkipList-remove}
use my_raft_kvdb.SkipList.Valid.{
  IsSkipList, find, found, lookup_below, lookup-found, value_of, IsSorted-append_right,
}
use my_raft_kvdb.Text.{Bytes, same_bytes}

-- What remove promises of a skip list with the elements `cs`.
pub record Removed (key : Bytes) (s : SkipList) (cs : Cells) : Type 0 where
  pub list : SkipList
  pub cells : Cells
  pub was_there : Bool
  pub runs : remove_key key s ≡ some (list, was_there)
  pub valid : IsSkipList list cells
  pub contents : (k : Bytes) → lookup k cells ≡ (if same_bytes k key then none else lookup k cs)
  pub there : was_there ≡ is_some (lookup key cs)

remove_steps_absent :
    (key : Bytes) (s : SkipList) (p : Ptr) (u : Update) (o : Option Ptr)
    → descend_update (rounds s) key (suc s.current_level) s.header (λ i. none) s.heap ≡ some (p, u)
    → get_forward p 0 s.heap ≡ some o
    → matches key o s.heap ≡ some none
    → remove_key key s ≡ some (s, false)
unfolding remove_key
remove_steps_absent key s p u o d g m = rw d (rw g (rw m refl))

remove_steps_found :
    (key : Bytes) (s : SkipList) (p : Ptr) (u : Update) (o : Option Ptr) (q : Ptr) (n : Node)
    (h : Heap) (level : ℕ)
    → descend_update (rounds s) key (suc s.current_level) s.header (λ i. none) s.heap ≡ some (p, u)
    → get_forward p 0 s.heap ≡ some o
    → matches key o s.heap ≡ some (some (q, n))
    → unsplice (suc s.current_level) 0 q u s.heap ≡ some h
    → lower_level s.current_level s.header (put_node q none h) ≡ some level
    → remove_key key s
      ≡ some
          (record s { heap = put_node q none h; current_level = level; size = pred_ℤ s.size }, true)
unfolding remove_key
remove_steps_found key s p u o q n h level d g m e l = rw d (rw g (rw m (rw e (rw l refl))))

removal_absent :
    (key : Bytes) (s : SkipList) (xs ys : Cells)
    → IsSkipList s (xs ++ ys)
    → AllBelow key xs
    → NoneBelow key ys
    → found key ys ≡ none
    → Removed key s (xs ++ ys)
removal_absent key s xs ys v b n e =
    let f = find key s xs ys v b n in
    let sorted = IsSorted-append_right xs ys v.sorted in
    let nothing : lookup key (xs ++ ys) ≡ none =
      lookup_below key xs ys b ∙ lookup-found key ys n sorted ∙ ap value_of e in
    record {
      list = s;
      cells = xs ++ ys;
      was_there = false;
      runs = remove_steps_absent key s _ _ _ f.way.kept f.next_after (f.match_after ∙ ap some e);
      valid = v;
      contents = λ k. kept_contents k nothing;
      there = rw nothing refl;
    }
  where
    kept_contents :
        (k : Bytes)
        → lookup key (xs ++ ys) ≡ none
        → lookup k (xs ++ ys) ≡ (if same_bytes k key then none else lookup k (xs ++ ys))
    kept_contents k nothing = elim (Bool-cases (same_bytes k key)) [
      | inl t ↦ rw t (rw (same_bytes_lem k key t) nothing)
      | inr t ↦ rw t refl
    ]

removal_found :
    (key : Bytes) (s : SkipList) (xs : Cells) (c : Cell) (ys : Cells)
    → IsSkipList s (xs ++ (c ∷ ys))
    → AllBelow key xs
    → NoneBelow key (c ∷ ys)
    → same_bytes c.key key ≡ true
    → Removed key s (xs ++ (c ∷ ys))
removal_found key s xs c ys v b n t =
    let f = find key s xs (c ∷ ys) v b n in
    let same = same_bytes_lem c.key key t in
    let below : AllBelow c.key xs = subst (λ k. AllBelow k xs) (sym same) b in
    let above = (IsSorted-append_right xs (c ∷ ys) v.sorted).0 in
    let (h', e, g) = unsplice_found s xs c ys v f.way.update' f.way.low in
    let low = lowered s xs c ys v (put_node c.ptr none h') g in
    record {
      list = after_remove s xs c ys v h' low.lowered;
      cells = xs ++ ys;
      was_there = true;
      runs =
          remove_steps_found key s _ _ _ c.ptr (node_of c) h' low.lowered f.way.kept f.next_after
            (f.match_after ∙ rw t refl) e low.runs;
      valid = IsSkipList-remove s xs c ys v h' low g;
      contents = λ k. lookup-erase k xs c ys below above ∙ rw same refl;
      there = rw (lookup_below key xs (c ∷ ys) b, same, same_bytes_refl key) refl;
    }

removal_at :
    (key : Bytes) (s : SkipList) (xs ys : Cells)
    → IsSkipList s (xs ++ ys)
    → AllBelow key xs
    → NoneBelow key ys
    → Removed key s (xs ++ ys)
removal_at key s xs [] v b n = removal_absent key s xs [] v b n refl
removal_at key s xs (c ∷ ys) v b n = elim (Bool-cases (same_bytes c.key key)) [
  | inl t ↦ removal_found key s xs c ys v b n t
  | inr t ↦ removal_absent key s xs (c ∷ ys) v b n (rw t refl)
]

pub removal : (key : Bytes) (s : SkipList) (cs : Cells) → IsSkipList s cs → Removed key s cs
removal key s cs v =
    let c = cut key cs v.sorted in
    subst (Removed key s) (sym c.whole) (
      removal_at key s c.before c.after (subst (IsSkipList s) c.whole v) c.before_AllBelow
        c.after_NoneBelow)
