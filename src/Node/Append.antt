-- ===== src/Node/Append.antt =====
-- src/raft/raft_node.cpp: handleAppendEntries, by which a follower takes entries from the leader.
pub mod Frame
pub mod Merge
pub mod Outcome
pub mod Replicate
pub mod Conflict
pub mod Revote
use my_raft_kvdb.Base.{
  ℕ, zero, suc, Bool, true, false, ◌&&◌, not, Option, none, some, List, [], ◌∷◌, ◌++◌, ltb,
  if◌then◌else◌, length, take, ℤ, pos, minus_one, suc_ℤ, pos_part, ◌==ℤ◌, ltb_ℤ, leb_ℤ,
}
use my_raft_kvdb.Log.{LogEntry, term_at, last_log_index}
use my_raft_kvdb.Messages.{AppendEntriesArgs, AppendEntriesReply}
use my_raft_kvdb.Node.{follower, Env, RaftNode, is_follower, persist_state, reset_election_timer}
use my_raft_kvdb.Node.Apply.{apply_committed_entries}

-- The while loop that walks back to the first entry of the conflicting term.
unfoldable pub conflict_start : List LogEntry → ℤ → ℕ → ℕ
conflict_start log term zero = zero
conflict_start log term (suc i) =
    if ltb 0 i && term_at log (pos i) ==ℤ term then conflict_start log term i else suc i

-- Rule 3: conflictIndex and conflictTerm, if the log does not hold the entry before the new ones.
unfoldable pub log_conflict : AppendEntriesArgs → List LogEntry → Option (ℤ × ℤ)
unfolding conflict_start
log_conflict args log =
    if not (ltb_ℤ (pos 0) args.prev_log_index)
    then none
    else if leb_ℤ (pos (length log)) args.prev_log_index
    then some (pos (length log), minus_one)
    else if not (term_at log args.prev_log_index ==ℤ args.prev_log_term)
    then some (
      pos (conflict_start log (term_at log args.prev_log_index) (pos_part args.prev_log_index)),
      term_at log args.prev_log_index,
    )
    else none

-- newEntry.index = currentIndex
abbrev pub stamp : ℤ → LogEntry → LogEntry
stamp i e = record e { index = i }

-- One round of the loop of rule 4: the entry for position `i`, the log, and logModified.
unfoldable pub merge_one : ℤ → LogEntry → List LogEntry × Bool → List LogEntry × Bool
merge_one i e (log, modified) =
    if ltb_ℤ i (pos (length log))
    then (if not (term_at log i ==ℤ e.term)
        then (take (pos_part i) log ++ stamp i e ∷ [], true)
        else (log, modified))
    else (log ++ stamp i e ∷ [], true)

unfoldable pub merge_entries : ℤ → List LogEntry → List LogEntry × Bool → List LogEntry × Bool
merge_entries i [] acc = acc
merge_entries i (e ∷ es) acc = merge_entries (suc_ℤ i) es (merge_one i e acc)

abbrev pub min_ℤ : ℤ → ℤ → ℤ
min_ℤ a b = if ltb_ℤ b a then b else a

module _ {S : Type 0} where
  -- Rule 2: the sender is the leader of the term; a candidate or leader steps down.
  unfoldable pub accept_leader : Env → AppendEntriesArgs → RaftNode S → RaftNode S
  accept_leader env args n =
      let known = record n { current_term = args.term } in
      let stepped = if is_follower known.state then known else record known {
        state = follower;
        voted_for = minus_one;
        votes_received = [];
        current_election_term = minus_one;
      } in
      persist_state (reset_election_timer env (record stepped { leader_id = args.leader_id }))

  -- Rule 4, with the save that follows a change.
  unfoldable pub merge_log : AppendEntriesArgs → RaftNode S → RaftNode S
  merge_log args n =
      let (log, modified) = merge_entries (suc_ℤ args.prev_log_index) args.entries (n.log, false) in
      let n' = record n { log = log } in if modified then persist_state n' else n'

  -- Rule 5. The Boolean says that the callback threw.
  unfoldable pub advance_commit : ℤ → RaftNode S → RaftNode S × Bool
  advance_commit leader_commit n =
      if ltb_ℤ n.commit_index leader_commit
      then apply_committed_entries
          (record n { commit_index = min_ℤ leader_commit (last_log_index n.log) })
      else (n, false)

  -- Rules 4 and 5 on a log that holds the entry before the new ones. The reply is lost if the
  -- callback throws, since the exception leaves the handler.
  unfoldable pub take_entries :
      AppendEntriesArgs → RaftNode S → RaftNode S × Option AppendEntriesReply
  take_entries args n =
      let (n', threw) = advance_commit args.leader_commit (merge_log args n) in
      if threw then (n', none) else (
        n',
        some (record {
          term = n.current_term;
          success = true;
          conflict_index = minus_one;
          conflict_term = minus_one;
        }),
      )

  unfoldable pub handle_append_entries :
      Env → AppendEntriesArgs → RaftNode S → RaftNode S × Option AppendEntriesReply
  handle_append_entries env args n =
      if ltb_ℤ args.term n.current_term
      then (
        n,
        some (record {
          term = n.current_term;
          success = false;
          conflict_index = minus_one;
          conflict_term = minus_one;
        }),
      )
      else (let n' = accept_leader env args n in
          elim (log_conflict args n'.log) [
            | some (index, term) ↦ (
              n',
              some (record {
                term = n'.current_term;
                success = false;
                conflict_index = index;
                conflict_term = term;
              }),
            )
            | none ↦ take_entries args n'
          ])
