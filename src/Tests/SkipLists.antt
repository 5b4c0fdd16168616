-- ===== src/Tests/SkipLists.antt =====
-- A skip list with one node on level 1, and two stores that draw different levels.
use my_raft_kvdb.Base.{◌≡◌, refl, Bool, true, false, none, some, List, [], ◌∷◌}
use my_raft_kvdb.KvStore.Refine.{run_commands}
use my_raft_kvdb.KvStore.Stored.{
  Stored, skip_list_ops, skip_list_ops-IsSortedMap, new_store, new_stores_agree,
}
use my_raft_kvdb.Node.{Answer}
use my_raft_kvdb.SkipList.Refines.{
  Call, Implements, search, insert, remove, found, changed, run_calls, map_calls, run_calls-refines,
}
use my_raft_kvdb.SkipList.{SkipList, Heap, Ptr, search_key, new_skip_list, destroy}
use my_raft_kvdb.Text.{Bytes, codes, same_bytes}

abbrev calls : List Call
calls =
    insert (codes "b") (codes "1")
    ∷ insert (codes "a") (codes "2")
    ∷ insert (codes "b") (codes "3")
    ∷ search (codes "b")
    ∷ remove (codes "a")
    ∷ remove (codes "a")
    ∷ search (codes "a")
    ∷ []

abbrev coins : List Bool
coins = true ∷ false ∷ true ∷ true ∷ []

map_calls_answers :
    (map_calls calls (λ k. none)).0
    ≡ changed true
      ∷ changed true
      ∷ changed false
      ∷ found (some (codes "3"))
      ∷ changed true
      ∷ changed false
      ∷ found none
      ∷ []
unfolding map_calls same_bytes
map_calls_answers = refl

run_calls-refines_example :
    (s : SkipList) × (run_calls calls (new_skip_list coins)
      ≡ some ((map_calls calls (λ k. none)).0, s))
    × Implements s (map_calls calls (λ k. none)).1
    × (h : Heap) × (destroy s ≡ some h)
    × ((q : Ptr) → h.node q ≡ none)
run_calls-refines_example = run_calls-refines calls coins

abbrev texts : List Bytes
texts = codes "PUT:a:1" ∷ codes "PUT:b:2" ∷ codes "GET:a" ∷ codes "DELETE:b" ∷ codes "junk" ∷ []

abbrev run_texts : Stored → List Answer × Stored
run_texts = run_commands skip_list_ops skip_list_ops-IsSortedMap texts

new_stores_agree_example :
    ((run_texts (new_store coins)).0 ≡ (run_texts (new_store [])).0)
    × ((k : Bytes)
        → search_key k (run_texts (new_store coins)).1.list
          ≡ search_key k (run_texts (new_store [])).1.list)
new_stores_agree_example = new_stores_agree texts coins []
