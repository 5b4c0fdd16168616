-- ===== src/SkipList/Search.antt =====
-- include/storage/skiplist.h: search, and the replacement of a value by insert.
use my_raft_kvdb.Base.{suc, ◌≡◌, refl, ap, sym, subst, ◌∙◌, Option, none, some}
use my_raft_kvdb.SkipList.{SkipList, search_key, descend, get_forward, matches, rounds, Ptr, Node}
use my_raft_kvdb.SkipList.Cells.{Cells, lookup, cut}
use my_raft_kvdb.SkipList.Valid.{
  IsSkipList, find, lookup_below, lookup-found, value_of, IsSorted-append_right,
}
use my_raft_kvdb.Text.{Bytes}

search_steps :
    (key : Bytes) (s : SkipList) (p : Ptr) (o : Option Ptr) (r : Option (Ptr × Node))
    → descend (rounds s) key (suc s.current_level) s.header s.heap ≡ some p
    → get_forward p 0 s.heap ≡ some o
    → matches key o s.heap ≡ some r
    → search_key key s ≡ some (value_of r)
unfolding search_key
search_steps key s p o none d g m = rw d (rw g (rw m refl))
search_steps key s p o (some (q, n)) d g m = rw d (rw g (rw m refl))

-- search gives the value of the key, and never leaves the heap.
pub search_key-lookup :
    (key : Bytes) (s : SkipList) (cs : Cells)
    → IsSkipList s cs
    → search_key key s ≡ some (lookup key cs)
search_key-lookup key s cs v =
    let c = cut key cs v.sorted in
    let w = subst (IsSkipList s) c.whole v in
    let f = find key s c.before c.after w c.before_AllBelow c.after_NoneBelow in
    search_steps key s _ _ _ f.way.plain f.next_after f.match_after
    ∙ ap some (
        sym (
          lookup-found key c.after c.after_NoneBelow
            (IsSorted-append_right c.before c.after w.sorted))
        ∙ sym (lookup_below key c.before c.after c.before_AllBelow)
        ∙ sym (ap (lookup key) c.whole))
