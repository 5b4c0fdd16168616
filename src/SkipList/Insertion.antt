-- ===== src/SkipList/Insertion.antt =====
-- include/storage/skiplist.h: insert as a whole.
use my_raft_kvdb.Base.{
  suc, ◌≡◌, refl, ap, sym, subst, ◌∙◌, Bool, true, false, not, Option, none, some, [], ◌∷◌, ◌++◌,
  if◌then◌else◌, is_some, inl, inr, Bool-cases,
}
use my_raft_kvdb.SkipList.{
  SkipList, Ptr, Node, Update, put_node, insert_key, insert_new, descend_update, get_forward,
  matches, rounds,
}
use my_raft_kvdb.SkipList.Cells.{Cell, Cells, node_of, NoneBelow, AllBelow, lookup, cut}
use my_raft_kvdb.SkipList.Contents.{AllAbove-rest, lookup-insert, lookup-AllAbove}
use my_raft_kvdb.SkipList.Insert.{insert_new_lem, new_cell}
use my_raft_kvdb.SkipList.Order.{same_bytes_lem, same_bytes_refl}
use my_raft_kvdb.SkipList.Replace.{after_replace, with_value, IsSkipList-replace}
use my_raft_kvdb.SkipList.Valid.{IsSkipList, find, found, lookup_below, IsSorted-append_right}
use my_raft_kvdb.Text.{Bytes, same_bytes}

-- What insert promises of a skip list with the elements `cs`.
pub record Inserted (key value : Bytes) (s : SkipList) (cs : Cells) : Type 0 where
  pub list : SkipList
  pub cells : Cells
  pub fresh : Bool
  pub runs : insert_key key value s ≡ some (list, fresh)
  pub valid : IsSkipList list cells
  pub contents :
      (k : Bytes) → lookup k cells ≡ (if same_bytes k key then some value else lookup k cs)
  pub was_fresh : fresh ≡ not (is_some (lookup key cs))

insert_steps_new :
    (key value : Bytes) (s : SkipList) (p : Ptr) (u : Update) (o : Option Ptr) (s' : SkipList)
    → descend_update (rounds s) key (suc s.current_level) s.header (λ i. none) s.heap ≡ some (p, u)
    → get_forward p 0 s.heap ≡ some o
    → matches key o s.heap ≡ some none
    → insert_new key value u s ≡ some s'
    → insert_key key value s ≡ some (s', true)
unfolding insert_key
insert_steps_new key value s p u o s' d g m i = rw d (rw g (rw m (rw i refl)))

insert_steps_old :
    (key value : Bytes) (s : SkipList) (p : Ptr) (u : Update) (o : Option Ptr) (q : Ptr) (n : Node)
    → descend_update (rounds s) key (suc s.current_level) s.header (λ i. none) s.heap ≡ some (p, u)
    → get_forward p 0 s.heap ≡ some o
    → matches key o s.heap ≡ some (some (q, n))
    → insert_key key value s
      ≡ some (record s { heap = put_node q (some (record n { value = value })) s.heap }, false)
unfolding insert_key
insert_steps_old key value s p u o q n d g m = rw d (rw g (rw m refl))

insertion_new :
    (key value : Bytes) (s : SkipList) (xs ys : Cells)
    → IsSkipList s (xs ++ ys)
    → AllBelow key xs
    → NoneBelow key ys
    → found key ys ≡ none
    → Inserted key value s (xs ++ ys)
insertion_new key value s xs ys v b n e =
    let f = find key s xs ys v b n in
    let sorted = IsSorted-append_right xs ys v.sorted in
    let above = AllAbove-rest key ys n sorted e in
    let (s', runs, valid) = insert_new_lem key value s xs ys v f.way.update' f.way.low b above in
    record {
      list = s';
      cells = xs ++ (new_cell key value s xs ys v ∷ ys);
      fresh = true;
      runs =
          insert_steps_new key value s _ _ _ s' f.way.kept f.next_after (f.match_after ∙ ap some e)
            runs;
      valid = valid;
      contents = λ k. lookup-insert k xs (new_cell key value s xs ys v) ys b;
      was_fresh = rw (lookup_below key xs ys b, lookup-AllAbove key ys above) refl;
    }

replaced_contents :
    (k key value : Bytes) (xs : Cells) (c : Cell) (ys : Cells)
    → AllBelow c.key xs
    → c.key ≡ key
    → lookup k (xs ++ (with_value c value ∷ ys))
      ≡ (if same_bytes k key then some value else lookup k (xs ++ (c ∷ ys)))
replaced_contents k key value xs c ys b e =
    lookup-insert k xs (with_value c value) ys b
    ∙ rw (lookup-insert k xs c ys b, e)
        (elim (Bool-cases (same_bytes k key)) [ inl t ↦ rw t refl | inr t ↦ rw t refl ])

insertion_old :
    (key value : Bytes) (s : SkipList) (xs : Cells) (c : Cell) (ys : Cells)
    → IsSkipList s (xs ++ (c ∷ ys))
    → AllBelow key xs
    → NoneBelow key (c ∷ ys)
    → same_bytes c.key key ≡ true
    → Inserted key value s (xs ++ (c ∷ ys))
insertion_old key value s xs c ys v b n t =
    let f = find key s xs (c ∷ ys) v b n in
    let same = same_bytes_lem c.key key t in
    let below : AllBelow c.key xs = subst (λ k. AllBelow k xs) (sym same) b in
    record {
      list = after_replace c value s;
      cells = xs ++ (with_value c value ∷ ys);
      fresh = false;
      runs =
          insert_steps_old key value s _ _ _ c.ptr (node_of c) f.way.kept f.next_after
            (f.match_after ∙ rw t refl);
      valid = IsSkipList-replace c value s xs ys v below;
      contents = λ k. replaced_contents k key value xs c ys below same;
      was_fresh = rw (lookup_below key xs (c ∷ ys) b, same, same_bytes_refl key) refl;
    }

insertion_at :
    (key value : Bytes) (s : SkipList) (xs ys : Cells)
    → IsSkipList s (xs ++ ys)
    → AllBelow key xs
    → NoneBelow key ys
    → Inserted key value s (xs ++ ys)
insertion_at key value s xs [] v b n = insertion_new key value s xs [] v b n refl
insertion_at key value s xs (c ∷ ys) v b n = elim (Bool-cases (same_bytes c.key key)) [
  | inl t ↦ insertion_old key value s xs c ys v b n t
  | inr t ↦ insertion_new key value s xs (c ∷ ys) v b n (rw t refl)
]

pub insertion :
    (key value : Bytes) (s : SkipList) (cs : Cells) → IsSkipList s cs → Inserted key value s cs
insertion key value s cs v =
    let c = cut key cs v.sorted in
    subst (Inserted key value s) (sym c.whole) (
      insertion_at key value s c.before c.after (subst (IsSkipList s) c.whole v) c.before_AllBelow
        c.after_NoneBelow)
