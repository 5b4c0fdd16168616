-- ===== src/SkipList/Refines.antt =====
-- include/storage/skiplist.h: a skip list as a map from keys to values, over any calls of its methods.
use my_raft_kvdb.Base.{◌≡◌, refl, ◌∙◌, Bool, not, Option, none, some, List, [], ◌∷◌, arith, is_some}
use my_raft_kvdb.KvStore.Refine.{Contents, write}
use my_raft_kvdb.SkipList.{
  SkipList, Ptr, Heap, search_key, insert_key, remove_key, new_skip_list, destroy, max_level, ◌>>=◌,
}
use my_raft_kvdb.SkipList.Cells.{Cells, nil, lookup}
use my_raft_kvdb.SkipList.Destroy.{destroy_lem}
use my_raft_kvdb.SkipList.Insertion.{insertion}
use my_raft_kvdb.SkipList.Removal.{removal}
use my_raft_kvdb.SkipList.Search.{search_key-lookup}
use my_raft_kvdb.SkipList.Valid.{IsSkipList}
use my_raft_kvdb.Text.{Bytes}

pub data Call : Type 0 where
  search : Bytes → Call
  insert : Bytes → Bytes → Call
  remove : Bytes → Call

pub data Reply : Type 0 where
  found : Option Bytes → Reply
  changed : Bool → Reply

unfoldable pub run_call : Call → SkipList → Option (Reply × SkipList)
run_call (search key) s = search_key key s >>= λ o. some (found o, s)
run_call (insert key value) s = insert_key key value s >>= λ r. some (changed r.1, r.0)
run_call (remove key) s = remove_key key s >>= λ r. some (changed r.1, r.0)

unfoldable pub run_calls : List Call → SkipList → Option (List Reply × SkipList)
run_calls [] s = some ([], s)
run_calls (c ∷ calls) s = run_call c s >>= λ (reply, s').
    run_calls calls s' >>= λ (replies, s''). some (reply ∷ replies, s'')

-- The same calls on a map.
abbrev pub map_call : Call → Contents → Reply × Contents
map_call (search key) f = (found (f key), f)
map_call (insert key value) f = (changed (not (is_some (f key))), write key (some value) f)
map_call (remove key) f = (changed (is_some (f key)), write key none f)

unfoldable pub map_calls : List Call → Contents → List Reply × Contents
map_calls [] f = ([], f)
map_calls (c ∷ calls) f =
    let (reply, f') = map_call c f in
    let (replies, f'') = map_calls calls f' in (reply ∷ replies, f'')

-- A skip list that holds what a map holds.
pub record Implements (s : SkipList) (f : Contents) : Type 0 where
  pub cells : Cells
  pub valid : IsSkipList s cells
  pub agrees : (k : Bytes) → lookup k cells ≡ f k

pub new_skip_list_valid : (coins : List Bool) → IsSkipList (new_skip_list coins) []
unfolding new_skip_list
new_skip_list_valid coins = record {
  header_node = record { key = []; value = []; top = max_level };
  header_holds = refl;
  header_top = refl;
  header_forward = λ j l. refl;
  header_apart = refl;
  header_used = omega arith;
  linked = nil;
  sorted = tt;
  tops = tt;
  level_bound = omega arith;
  size_eq = refl;
  used = tt;
  owned = λ q e f. ground arith;
}

new_Implements : (coins : List Bool) → Implements (new_skip_list coins) (λ k. none)
new_Implements coins = record { cells = []; valid = new_skip_list_valid coins; agrees = λ k. refl }

run_call_lem :
    (c : Call) (s : SkipList) (f : Contents)
    → Implements s f
    → (s' : SkipList) × (run_call c s ≡ some ((map_call c f).0, s'))
      × Implements s' (map_call c f).1
unfolding run_call
run_call_lem (search key) s f i =
    (s, rw (search_key-lookup key s i.cells i.valid, i.agrees key) refl, i)
run_call_lem (insert key value) s f i =
    let r = insertion key value s i.cells i.valid in
    (
      r.list,
      rw (r.runs, r.was_fresh, i.agrees key) refl,
      record {
        cells = r.cells;
        valid = r.valid;
        agrees = λ k. r.contents k ∙ rw (i.agrees k) refl;
      },
    )
run_call_lem (remove key) s f i =
    let r = removal key s i.cells i.valid in
    (
      r.list,
      rw (r.runs, r.there, i.agrees key) refl,
      record {
        cells = r.cells;
        valid = r.valid;
        agrees = λ k. r.contents k ∙ rw (i.agrees k) refl;
      },
    )

run_calls_lem :
    (calls : List Call) (s : SkipList) (f : Contents)
    → Implements s f
    → (s' : SkipList) × (run_calls calls s ≡ some ((map_calls calls f).0, s'))
      × Implements s' (map_calls calls f).1
unfolding run_calls map_calls
run_calls_lem [] s f i = (s, refl, i)
run_calls_lem (c ∷ calls) s f i =
    let (s1, e1, i1) = run_call_lem c s f i in
    let (s2, e2, i2) = run_calls_lem calls s1 (map_call c f).1 i1 in (s2, rw e1 (rw e2 refl), i2)

-- Any calls of search, insert and remove on a new skip list, whatever its random numbers, end
-- without an invalid access and with the answers of a map from keys to values; the list then
-- implements the map, and the destructor ends without an invalid access and leaves no node.
pub run_calls-refines :
    (calls : List Call) (coins : List Bool)
    → (s : SkipList) × (run_calls calls (new_skip_list coins)
        ≡ some ((map_calls calls (λ k. none)).0, s))
      × Implements s (map_calls calls (λ k. none)).1
      × (h : Heap) × (destroy s ≡ some h)
      × ((q : Ptr) → h.node q ≡ none)
run_calls-refines calls coins =
    let (s, e, i) = run_calls_lem calls (new_skip_list coins) (λ k. none) (new_Implements coins) in
    let (h, d, freed) = destroy_lem s i.cells i.valid in (s, e, i, h, d, freed)
