-- ===== src/Node/Submit.antt =====
-- src/raft/raft_node.cpp: submitCommand in the parts between which it lets go of the node's mutex.
pub mod Single
pub mod Late
use my_raft_kvdb.Base.{
  Bool, true, false, not, Option, none, some, List, [], ◌∷◌, if◌then◌else◌, ℤ, minus_one, ltb_ℤ,
  pos, ◌==ℤ◌,
}
use my_raft_kvdb.Node.{RaftNode, PendingCommand, is_leader}
use my_raft_kvdb.Node.Apply.{apply_committed_entries}
use my_raft_kvdb.Node.Leader.{append_log_entry}
use my_raft_kvdb.Text.{Bytes}

-- submitCommand returns true with a result, returns false, or an exception of the callback leaves it.
pub data Submitted : Type 0 where
  answered : Bytes → Submitted
  gave_up raised : Submitted

-- pendingCommands_.erase(index)
unfoldable pub erase : ℤ → List PendingCommand → List PendingCommand
erase index [] = []
erase index (c ∷ cs) = let rest = erase index cs in if c.log_index ==ℤ index then rest else c ∷ rest

-- The command that waits at an index.
unfoldable pub find_pending : ℤ → List PendingCommand → Option PendingCommand
find_pending index [] = none
find_pending index (c ∷ cs) =
    let rest = find_pending index cs in if c.log_index ==ℤ index then some c else rest

abbrev pub is_single : List ℤ → Bool
is_single [] = true
is_single (_ ∷ _) = false

module _ {S : Type 0} where
  -- The test of the role and appendLogEntry, which tests it again: -1 is a refusal.
  unfoldable pub submit_append : Bytes → RaftNode S → RaftNode S × ℤ
  submit_append command n = if is_leader n.state then append_log_entry command n else (n, minus_one)

  -- A node without peers commits the entry at once.
  unfoldable pub submit_commit : ℤ → RaftNode S → RaftNode S
  submit_commit index n = if is_single n.peer_ids then record n { commit_index = index } else n

  -- pendingCommands_[index] = a command that waits.
  unfoldable pub submit_register : ℤ → Bytes → RaftNode S → RaftNode S
  unfolding erase
  submit_register index command n = record n {
    pending_commands =
        record { log_index = index; command = command; result = []; completed = false }
        ∷ erase index n.pending_commands;
  }

  -- A node without peers applies the entry at once. The Boolean says that the callback threw.
  unfoldable pub submit_apply : RaftNode S → RaftNode S × Bool
  submit_apply n = if is_single n.peer_ids then apply_committed_entries n else (n, false)

  -- What the wait ends with (a timeout where the command is not completed), and the erasure.
  unfoldable pub submit_finish : ℤ → RaftNode S → RaftNode S × Submitted
  unfolding find_pending erase
  submit_finish index n =
      let m = record n { pending_commands = erase index n.pending_commands } in
      elim (find_pending index n.pending_commands) [
        | none ↦ (m, gave_up)
        | some c ↦ (m, if c.completed then answered c.result else gave_up)
      ]

  -- The parts behind the append, in a row without any other call between them. An exception of the
  -- callback leaves the method before the waiting command is erased.
  unfoldable pub submit_rest : Bytes → ℤ → RaftNode S → RaftNode S × Submitted
  submit_rest command index n =
      let (m, threw) = submit_apply (submit_register index command (submit_commit index n)) in
      if threw then (m, raised) else submit_finish index m

  -- submitCommand(command, result, timeout) without any other call during it.
  unfoldable pub submit_command : Bytes → RaftNode S → RaftNode S × Submitted
  submit_command command n =
      let (m, index) = submit_append command n in
      if ltb_ℤ index (pos 0) then (m, gave_up) else submit_rest command index m
