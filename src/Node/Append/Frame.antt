-- ===== src/Node/Append/Frame.antt =====
-- src/raft/raft_node.cpp, handleAppendEntries: the term, the vote and the role after a call.
use my_raft_kvdb.Base.{true, false, not, ◌≡◌, arith, ◌&&◌, if◌then◌else◌, ℤ, minus_one, ltb_ℤ}
use my_raft_kvdb.Messages.{AppendEntriesArgs}
use my_raft_kvdb.Node.{Env, RaftNode, is_follower}
use my_raft_kvdb.Node.Apply.Frame.{apply_committed_entries-SameRaft}
use my_raft_kvdb.Node.Append.{
  accept_leader, merge_log, advance_commit, take_entries, handle_append_entries,
}

module _ {S : Type 0} where
  -- What neither the log nor its application changes.
  pub record SameRole (n m : RaftNode S) : Type 0 where
    pub current_term : m.current_term ≡ n.current_term
    pub voted_for : m.voted_for ≡ n.voted_for
    pub node_id : m.node_id ≡ n.node_id
    pub peer_ids : m.peer_ids ≡ n.peer_ids
    pub state : m.state ≡ n.state
    pub next_index : m.next_index ≡ n.next_index
    pub match_index : m.match_index ≡ n.match_index
    pub apply_callback : m.apply_callback ≡ n.apply_callback

  merge_log-SameRole : (args : AppendEntriesArgs) (n : RaftNode S) → SameRole n (merge_log args n)
  unfolding merge_log
  merge_log-SameRole args n = ground arith

  advance_commit-SameRole : (c : ℤ) (n : RaftNode S) → SameRole n (advance_commit c n).0
  unfolding advance_commit
  advance_commit-SameRole c n = grind (arith, apply_committed_entries-SameRaft)

  pub log-advance_commit : (c : ℤ) (n : RaftNode S) → (advance_commit c n).0.log ≡ n.log
  unfolding advance_commit
  log-advance_commit c n = grind (arith, apply_committed_entries-SameRaft)

  take_entries-SameRole :
      (args : AppendEntriesArgs) (n : RaftNode S) → SameRole n (take_entries args n).0
  unfolding take_entries
  take_entries-SameRole args n = ground (
    arith,
    merge_log-SameRole args n,
    advance_commit-SameRole args.leader_commit (merge_log args n),
  )

  -- The whole handler, for a message that is not stale.
  pub handle_append_entries-SameRole :
      (env : Env) (args : AppendEntriesArgs) (n : RaftNode S)
      → ltb_ℤ args.term n.current_term ≡ false
      → SameRole (accept_leader env args n) (handle_append_entries env args n).0
  unfolding handle_append_entries
  handle_append_entries-SameRole env args n h =
      ground (arith, take_entries-SameRole args (accept_leader env args n))

  pub stale-handle_append_entries :
      (env : Env) (args : AppendEntriesArgs) (n : RaftNode S)
      → ltb_ℤ args.term n.current_term ≡ true
      → (handle_append_entries env args n).0 ≡ n
  unfolding handle_append_entries
  stale-handle_append_entries env args n h = ground arith

  pub handle_append_entries-current_term :
      (env : Env) (args : AppendEntriesArgs) (n : RaftNode S)
      → (handle_append_entries env args n).0.current_term
        ≡ (if ltb_ℤ args.term n.current_term then n.current_term else args.term)
  unfolding accept_leader
  handle_append_entries-current_term env args n =
      ground
        (arith, stale-handle_append_entries env args n, handle_append_entries-SameRole env args n)

  -- The vote survives exactly where the node was already a follower, or the message was stale.
  pub handle_append_entries-voted_for :
      (env : Env) (args : AppendEntriesArgs) (n : RaftNode S)
      → (handle_append_entries env args n).0.voted_for ≡ (
          if not (ltb_ℤ args.term n.current_term) && not (is_follower n.state)
          then minus_one
          else n.voted_for)
  unfolding accept_leader
  handle_append_entries-voted_for env args n =
      ground
        (arith, stale-handle_append_entries env args n, handle_append_entries-SameRole env args n)
