-- ===== src/KvStore/Stored.antt =====
-- src/storage/kv_store.cpp with include/storage/skiplist.h: the store on the skip list of the
-- repository, which is lawful whatever levels are drawn.
use my_raft_kvdb.Base.{
  ◌≡◌, ap, sym, ◌∙◌, Bool, Option, none, some, List, [], if◌then◌else◌, is_some,
}
use my_raft_kvdb.KvStore.{SkipListOps}
use my_raft_kvdb.KvStore.Refine.{IsSortedMap, replicas_agree, run_commands}
use my_raft_kvdb.Node.{Answer}
use my_raft_kvdb.SkipList.{SkipList, search_key, new_skip_list, get_size}
use my_raft_kvdb.SkipList.Cells.{Cells, lookup}
use my_raft_kvdb.SkipList.Insertion.{Inserted, insertion}
use my_raft_kvdb.SkipList.Refines.{new_skip_list_valid}
use my_raft_kvdb.SkipList.Removal.{Removed, removal}
use my_raft_kvdb.SkipList.Search.{search_key-lookup}
use my_raft_kvdb.SkipList.Valid.{IsSkipList}
use my_raft_kvdb.Text.{Bytes, same_bytes}

-- A skip list that stands for some elements. Its methods always return, so that they are functions.
pub record Stored : Type 0 where
  pub list : SkipList
  pub cells : Cells
  pub valid : IsSkipList list cells

abbrev inserted : (key value : Bytes) (m : Stored) → Inserted key value m.list m.cells
inserted key value m = insertion key value m.list m.cells m.valid

abbrev removed : (key : Bytes) (m : Stored) → Removed key m.list m.cells
removed key m = removal key m.list m.cells m.valid

abbrev joined : Option (Option Bytes) → Option Bytes
joined none = none
joined (some o) = o

joined_search : (key : Bytes) (m : Stored) → joined (search_key key m.list) ≡ lookup key m.cells
joined_search key m = ap joined (search_key-lookup key m.list m.cells m.valid)

abbrev pub skip_list_ops : SkipListOps Stored
skip_list_ops = record {
  search = λ key m. joined (search_key key m.list);
  insert = λ key value m.
      let r = inserted key value m in
      (record { list = r.list; cells = r.cells; valid = r.valid }, r.fresh);
  remove = λ key m.
      let r = removed key m in
      (record { list = r.list; cells = r.cells; valid = r.valid }, r.was_there);
  get_size = λ m. get_size m.list;
}

-- The search returns.
search_key-joined :
    (key : Bytes) (m : Stored) → search_key key m.list ≡ some (joined (search_key key m.list))
search_key-joined key m =
    let found = search_key-lookup key m.list m.cells m.valid in
    found ∙ ap some (sym (ap joined found))

pub skip_list_ops-IsSortedMap : IsSortedMap skip_list_ops
skip_list_ops-IsSortedMap = record {
  search-insert = λ k v k' m.
      let r = inserted k v m in
      joined_search k' (record { list = r.list; cells = r.cells; valid = r.valid })
      ∙ r.contents k'
      ∙ ap (λ o. if same_bytes k' k then some v else o) (sym (joined_search k' m));
  search-remove = λ k k' m.
      let r = removed k m in
      joined_search k' (record { list = r.list; cells = r.cells; valid = r.valid })
      ∙ r.contents k'
      ∙ ap (λ o. if same_bytes k' k then none else o) (sym (joined_search k' m));
  removed_iff = λ k m. (removed k m).there ∙ ap is_some (sym (joined_search k m));
}

abbrev pub new_store : List Bool → Stored
new_store coins = record {
  list = new_skip_list coins;
  cells = [];
  valid = new_skip_list_valid coins;
}

-- Two new stores on the skip list give the same answers to any list of commands, and search then
-- gives the same for every key, whatever levels the two draw.
pub new_stores_agree :
    (texts : List Bytes) (coins coins' : List Bool)
    → let run : Stored → List Answer × Stored =
        run_commands skip_list_ops skip_list_ops-IsSortedMap texts in
      ((run (new_store coins)).0 ≡ (run (new_store coins')).0)
      × ((k : Bytes)
          → search_key k (run (new_store coins)).1.list
            ≡ search_key k (run (new_store coins')).1.list)
new_stores_agree texts coins coins' =
    let (answers, same) =
      replicas_agree skip_list_ops skip_list_ops-IsSortedMap texts (new_store coins)
        (new_store coins')
        (λ k. joined_search k (new_store coins) ∙ sym (joined_search k (new_store coins'))) in
    (
      answers,
      λ k.
          let a =
            (run_commands skip_list_ops skip_list_ops-IsSortedMap texts (new_store coins)).1 in
          let b =
            (run_commands skip_list_ops skip_list_ops-IsSortedMap texts (new_store coins')).1 in
          search_key-joined k a ∙ ap some (same k) ∙ sym (search_key-joined k b),
    )
