-- ===== src/Cluster/Moves.antt =====
-- src/raft/raft_node.cpp: what a call can do to the term, the vote and the role of a node.
use my_raft_kvdb.Base.{
  ◌≡◌, ◌⊎◌, true, false, [], ◌∷◌, arith, ℤ, minus_one, suc_ℤ, ◌<ℤ◌, ◌≤ℤ◌, ==ℤ_iff, length, ◌≤◌,
}
use my_raft_kvdb.Cluster.{is_local, start_again_node}
use my_raft_kvdb.Messages.{RequestVoteArgs, RequestVoteReply, AppendEntriesArgs, AppendEntriesReply}
use my_raft_kvdb.Node.{
  Env, RaftNode, is_follower, is_candidate, set_insert, majority, new_node, candidate, leader,
  persist_save_part, persist_clear_part,
}
use my_raft_kvdb.Node.Append.Frame.{handle_append_entries-SameRole, stale-handle_append_entries}
use my_raft_kvdb.Node.Append.{handle_append_entries, accept_leader}
use my_raft_kvdb.Node.Apply.Frame.{apply_committed_entries-SameRaft}
use my_raft_kvdb.Node.Election.{
  handle_request_vote, start_election, handle_vote_response, become_follower, yield_to_term,
}
use my_raft_kvdb.Node.Leader.Frame.{
  Replied, yielded, kept, handle_append_entries_response-Replied, update_commit_index_eq,
}
use my_raft_kvdb.Node.Leader.{append_log_entry}
use my_raft_kvdb.Run.{
  Event, append_response, step_down, client_command, commit_check, apply_entries, heartbeat_sent,
  persist_save, persist_clear, step,
}

module _ {S : Type 0} where
  abbrev pub SameIds : RaftNode S → RaftNode S → Type 0
  SameIds n m = (m.node_id ≡ n.node_id) × (m.peer_ids ≡ n.peer_ids)

  -- Nothing that an election is about has changed.
  abbrev pub Stayed : RaftNode S → RaftNode S → Type 0
  Stayed n m =
      (m.current_term ≡ n.current_term)
      × (m.voted_for ≡ n.voted_for)
      × (m.state ≡ n.state)
      × (m.votes_received ≡ n.votes_received)
      × (m.current_election_term ≡ n.current_election_term)

  -- The node is a follower with the vote that it had.
  abbrev pub Followed : RaftNode S → RaftNode S → Type 0
  Followed n m =
      (is_follower m.state ≡ true) × (m.current_term ≡ n.current_term) × (m.voted_for ≡ n.voted_for)

  -- The node is a follower in a newer term.
  abbrev pub Passed : RaftNode S → RaftNode S → Type 0
  Passed n m = (is_follower m.state ≡ true) × (n.current_term <ℤ m.current_term)

  abbrev pub Move : RaftNode S → RaftNode S → Type 0
  Move n m = SameIds n m × (Stayed n m ⊎ Followed n m ⊎ Passed n m)

  Move-Replied :
      {env : Env} {reply : AppendEntriesReply} {n m : RaftNode S} → Replied env reply n m → Move n m
  unfolding yield_to_term
  Move-Replied (yielded h) = ground arith
  Move-Replied (kept _ _ _ _ _ _ _) = ground arith

  pub Move-step : (e : Event) (n : RaftNode S) → is_local e ≡ true → Move n (step e n)
  unfolding step
  Move-step (append_response env id reply) n l =
      Move-Replied (handle_append_entries_response-Replied env id reply n)
  Move-step (step_down env term) n l = unfold become_follower in ground arith
  Move-step (client_command command) n l = unfold append_log_entry in ground arith
  Move-step commit_check n l = rw update_commit_index_eq (ground arith)
  Move-step apply_entries n l = ground (arith, apply_committed_entries-SameRaft n)
  Move-step (heartbeat_sent env) n l = ground arith
  Move-step persist_save n l = unfold persist_save_part in ground arith
  Move-step persist_clear n l = unfold persist_clear_part in ground arith
  Move-step _ n l = ground arith

  pub Move-start_again : (env : Env) (n : RaftNode S) → Move n (start_again_node env n)
  unfolding new_node
  Move-start_again env n = ground arith

  -- An AppendEntries of its own term that finds a candidate or leader takes the node's vote away.
  abbrev pub Reset : AppendEntriesArgs → RaftNode S → RaftNode S → Type 0
  Reset args n m =
      SameIds n m
      × (is_follower n.state ≡ false)
      × (args.term ≡ n.current_term)
      × (is_follower m.state ≡ true)
      × (m.current_term ≡ n.current_term)

  pub handle_append_entries-cases :
      (env : Env) (args : AppendEntriesArgs) (n : RaftNode S)
      → Move n (handle_append_entries env args n).0
        ⊎ Reset args n (handle_append_entries env args n).0
  unfolding accept_leader
  handle_append_entries-cases env args n =
      ground
        (arith, stale-handle_append_entries env args n, handle_append_entries-SameRole env args n)

  -- A vote that is given in a newer term, or in the node's own where it had voted for nobody else.
  abbrev pub Granted : RequestVoteArgs → RaftNode S → RaftNode S → RequestVoteReply → Type 0
  Granted args n m reply =
      SameIds n m
      × (m.voted_for ≡ args.candidate_id)
      × (m.current_term ≡ args.term)
      × (reply.term ≡ args.term)
      × (((is_follower m.state ≡ true) × (n.current_term <ℤ args.term))
          ⊎ ((n.current_term ≡ args.term)
              × ((n.voted_for ≡ minus_one) ⊎ (n.voted_for ≡ args.candidate_id))
              × (m.state ≡ n.state)
              × (m.votes_received ≡ n.votes_received)
              × (m.current_election_term ≡ n.current_election_term)))

  pub handle_request_vote-Granted :
      (env : Env) (args : RequestVoteArgs) (n : RaftNode S)
      → let (m, reply) = handle_request_vote env args n in
        reply.vote_granted ≡ true → Granted args n m reply
  unfolding handle_request_vote
  handle_request_vote-Granted env args n h =
      ground (arith, ==ℤ_iff n.voted_for args.candidate_id, ==ℤ_iff n.voted_for minus_one)

  pub handle_request_vote-refused :
      (env : Env) (args : RequestVoteArgs) (n : RaftNode S)
      → let (m, reply) = handle_request_vote env args n in reply.vote_granted ≡ false → Move n m
  unfolding handle_request_vote
  handle_request_vote-refused env args n h = ground arith

  pub record Started (n m : RaftNode S) : Type 0 where
    pub ids : SameIds n m
    pub newer : m.current_term ≡ suc_ℤ n.current_term
    pub vote : m.voted_for ≡ n.node_id
    pub role : m.state ≡ candidate
    pub votes : m.votes_received ≡ n.node_id ∷ []
    pub term : m.current_election_term ≡ m.current_term

  pub start_election-Started : (env : Env) (n : RaftNode S) → Started n (start_election env n)
  unfolding start_election
  start_election-Started env n = ground arith

  -- A vote for this election that a candidate counts.
  abbrev pub Counted : ℤ → RequestVoteReply → RaftNode S → RaftNode S → Type 0
  Counted voter reply n m =
      SameIds n m
      × (is_candidate n.state ≡ true)
      × (reply.vote_granted ≡ true)
      × (n.current_election_term ≤ℤ reply.term)
      × (reply.term ≤ℤ n.current_term)
      × (m.current_term ≡ n.current_term)
      × (m.voted_for ≡ n.voted_for)

  abbrev pub StillRuns : ℤ → RaftNode S → RaftNode S → Type 0
  StillRuns voter n m =
      (m.state ≡ n.state)
      × (m.current_election_term ≡ n.current_election_term)
      × (m.votes_received ≡ set_insert voter n.votes_received)

  pub handle_vote_response-open :
      (env : Env) (voter : ℤ) (reply : RequestVoteReply) (n : RaftNode S)
      → let (m, elected) = handle_vote_response env voter reply n in
        elected ≡ false → Move n m ⊎ (Counted voter reply n m × StillRuns voter n m)
  unfolding handle_vote_response
  handle_vote_response-open env voter reply n h = ground arith

  pub handle_vote_response-won :
      (env : Env) (voter : ℤ) (reply : RequestVoteReply) (n : RaftNode S)
      → let (m, elected) = handle_vote_response env voter reply n in
        elected ≡ true
        → Counted voter reply n m
          × (m.state ≡ leader)
          × (majority n.peer_ids ≤ length (set_insert voter n.votes_received))
  unfolding handle_vote_response
  handle_vote_response-won env voter reply n h = ground arith
