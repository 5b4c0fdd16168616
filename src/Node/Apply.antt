-- ===== src/Node/Apply.antt =====
-- src/raft/raft_node.cpp: applyCommittedEntriesInternal, which hands the committed entries to the
-- state machine and wakes the clients that wait for them.
pub mod Frame
pub mod Order
use my_raft_kvdb.Base.{
  ℕ, zero, suc, ◌+◌, ◌-◌, Bool, true, false, Option, none, some, List, [], ◌∷◌, if◌then◌else◌,
  length, ℤ, pos, suc_ℤ, ◌==ℤ◌, ltb_ℤ, pos_part, neg_part,
}
use my_raft_kvdb.Log.{entry_at}
use my_raft_kvdb.Text.{Bytes, codes}
use my_raft_kvdb.Node.{Answer, returned, thrown, Callback, PendingCommand, RaftNode}

-- pendingCommands_.find(index), and the result and flag that the waiting client reads.
unfoldable pub complete : ℤ → Bytes → List PendingCommand → List PendingCommand
complete index result [] = []
complete index result (c ∷ rest) =
    if c.log_index ==ℤ index
    then record c { result = result; completed = true } ∷ rest
    else c ∷ complete index result rest

-- The answer of the callback; "OK" where none is set.
unfoldable pub run_callback : {S : Type 0} → Option (Callback S) → Bytes → S → Answer × S
run_callback none command s = (returned (codes "OK"), s)
run_callback (some f) command s = f command s

-- commitIndex_ - lastApplied_, the rounds that the loop has left.
abbrev pub distance : ℤ → ℤ → ℕ
distance from to = pos_part to + neg_part from - (pos_part from + neg_part to)

module _ {S : Type 0} where
  -- What a round does with the callback's answer. The Boolean says that an exception leaves the loop.
  unfoldable pub deliver : Answer × S → RaftNode S → RaftNode S × Bool
  unfolding complete
  deliver (returned result, s) n = (
    record n { machine = s; pending_commands = complete n.last_applied result n.pending_commands },
    false,
  )
  deliver (thrown what, s) n = (record n { machine = s }, true)

  -- One round of the loop.
  unfoldable pub apply_one : RaftNode S → RaftNode S × Bool
  unfolding run_callback deliver
  apply_one m =
      let n = record m { last_applied = suc_ℤ m.last_applied } in
      if ltb_ℤ n.last_applied (pos (length n.log))
      then deliver (run_callback n.apply_callback (entry_at n.log n.last_applied).command n.machine)
          n
      else (n, false)

  unfoldable pub apply_loop : ℕ → RaftNode S → RaftNode S × Bool
  apply_loop zero n = (n, false)
  apply_loop (suc fuel) n =
      let (n', threw) = apply_one n in
      let rest = apply_loop fuel n' in
      if ltb_ℤ n.last_applied n.commit_index
      then (if threw then (n', true) else rest)
      else (n, false)

  -- Each round raises lastApplied_ by one, so that the distance to commitIndex_ is fuel enough.
  unfoldable pub apply_committed_entries : RaftNode S → RaftNode S × Bool
  unfolding apply_loop
  apply_committed_entries n = apply_loop (distance n.last_applied n.commit_index) n
