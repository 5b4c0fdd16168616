-- ===== src/Service/Poison.antt =====
-- src/network/grpc_rpc_server.cpp, src/storage/command.cpp and src/raft/raft_node.cpp together: a
-- request with an empty key.
use my_raft_kvdb.Base.{
  ℕ, suc, ◌<◌, ◌≡◌, refl, true, none, some, [], length, get_or, pos, ltb, lt→ltb, ◌-◌, arith,
}
use my_raft_kvdb.Command.{
  CommandType, put, get, delete, parse_command, split_at, type_of, parse_arguments,
}
use my_raft_kvdb.KvStore.{SkipListOps, apply_command_with_result}
use my_raft_kvdb.Log.{empty_entry}
use my_raft_kvdb.Node.{RaftNode, thrown}
use my_raft_kvdb.Node.Apply.{
  distance, run_callback, deliver, apply_one, apply_loop, apply_committed_entries,
}
use my_raft_kvdb.Service.{command_text}
use my_raft_kvdb.Text.{Bytes}

-- The text that the handler makes of an empty key cannot be read back.
parse_command-empty_key :
    (op : CommandType) (value : Bytes) → parse_command (command_text op [] value) ≡ none
unfolding parse_command command_text split_at type_of parse_arguments
parse_command-empty_key put value = refl
parse_command-empty_key get value = refl
parse_command-empty_key delete value = refl

module _ {M : Type 0} (ops : SkipListOps M) where
  callback_throws :
      (op : CommandType) (value : Bytes) (m : M)
      → apply_command_with_result ops (command_text op [] value) m ≡ (thrown [], m)
  unfolding apply_command_with_result
  callback_throws op value m = rw (parse_command-empty_key op value, apply_command_with_result) refl

  apply_loop_throws :
      (fuel k c : ℕ) (text : Bytes) (n : RaftNode M)
      → run_callback n.apply_callback text n.machine ≡ (thrown [], n.machine)
      → n.last_applied ≡ pos k
      → n.commit_index ≡ pos c
      → k < c
      → suc k < length n.log
      → (get_or n.log (suc k) empty_entry).command ≡ text
      → apply_loop (suc fuel) n ≡ (record n { last_applied = pos (suc k) }, true)
  unfolding apply_loop apply_one deliver
  apply_loop_throws fuel k c text n t a i h l e =
      let below : ltb (suc k) (length n.log) ≡ true = lt→ltb (suc k) (length n.log) l in
      let more : ltb k c ≡ true = lt→ltb k c h in grind (arith, apply_loop)

  -- Where commitIndex is above lastApplied and the next entry, inside the log, is what the handler
  -- makes of a request with an empty key, applyCommittedEntries over the store is left by an
  -- exception, with lastApplied raised to that entry and nothing else changed.
  pub empty_key_throws :
      (op : CommandType) (value : Bytes) (n : RaftNode M) (k c : ℕ)
      → n.apply_callback ≡ some (apply_command_with_result ops)
      → n.last_applied ≡ pos k
      → n.commit_index ≡ pos c
      → k < c
      → suc k < length n.log
      → (get_or n.log (suc k) empty_entry).command ≡ command_text op [] value
      → apply_committed_entries n ≡ (record n { last_applied = pos (suc k) }, true)
  unfolding apply_committed_entries run_callback
  empty_key_throws op value n k c cb a i h l e =
      let d : distance n.last_applied n.commit_index ≡ suc (c - suc k) = ground arith in
      let t : run_callback n.apply_callback (command_text op [] value) n.machine
          ≡ (thrown [], n.machine) =
        rw cb (callback_throws op value n.machine) in
      rw d (apply_loop_throws (c - suc k) k c (command_text op [] value) n t a i h l e)
