-- ===== src/KvStore.antt =====
-- src/storage/kv_store.cpp: the store over the skip list of include/storage/skiplist.h, which it uses
-- by the operations of `SkipListOps`. The mutex is not modelled: each method is one step.
pub mod Refine
pub mod Stored
use my_raft_kvdb.Base.{Bool, true, false, Option, none, some, List, [], ◌++◌, ℤ, if◌then◌else◌}
use my_raft_kvdb.Command.{Command, put, get, delete, parse_command}
use my_raft_kvdb.Node.{Answer, returned, thrown}
use my_raft_kvdb.Text.{Bytes, codes}

-- What KVStore calls: search, insert (true for a new key), remove (true for a key that was there) and
-- getSize.
pub record SkipListOps (M : Type 0) : Type 0 where
  pub search : Bytes → M → Option Bytes
  pub insert : Bytes → Bytes → M → M × Bool
  pub remove : Bytes → M → M × Bool
  pub get_size : M → ℤ

-- What applyCommandWithResult returns for a GET.
found_answer : Option Bytes → Bytes
found_answer none = codes "NOT_FOUND"
found_answer (some value) = codes "VALUE:" ++ value

module _ {M : Type 0} (ops : SkipListOps M) where
  -- put(key, value)
  abbrev pub put_value : Bytes → Bytes → M → M × Bool
  put_value key value m = ops.insert key value m

  -- get(key, value)
  abbrev pub get_value : Bytes → M → Option Bytes
  get_value key m = ops.search key m

  -- remove(key)
  abbrev pub remove_value : Bytes → M → M × Bool
  remove_value key m = ops.remove key m

  -- size()
  abbrev pub size : M → ℤ
  size m = ops.get_size m

  -- applyCommand(command), where `none` is an exception and nothing has changed.
  unfoldable pub apply_command : Bytes → M → Option M
  apply_command text m = elim (parse_command text) [
    | none ↦ none
    | some c ↦ elim c.type [
      | put ↦ some (ops.insert c.key c.value m).0
      | get ↦ some m
      | delete ↦ some (ops.remove c.key m).0
    ]
  ]

  run_command : Command → M → Answer × M
  unfolding found_answer
  run_command c m = elim c.type [
    | put ↦ (returned (codes "OK"), (ops.insert c.key c.value m).0)
    | get ↦ (returned (found_answer (ops.search c.key m)), m)
    | delete ↦
        let (m', removed) = ops.remove c.key m in
        (returned (if removed then codes "OK" else codes "NOT_FOUND"), m')
  ]

  -- applyCommandWithResult(command), as a callback of RaftNode. The text of the exception is left out.
  unfoldable pub apply_command_with_result : Bytes → M → Answer × M
  unfolding run_command
  apply_command_with_result text m = elim (parse_command text) [
    | none ↦ (thrown [], m)
    | some c ↦ run_command c m
  ]
