-- ===== src/Node/Election.antt =====
-- src/raft/raft_node.cpp: the election. RequestVote at the receiver, the start of an election, the
-- count of the votes, and the changes of role.
pub mod Votes
pub mod Majority
use my_raft_kvdb.Base.{
  Bool, true, false, ◌&&◌, ◌||◌, [], ◌∷◌, leb, if◌then◌else◌, length, replicate, ℤ, pos, minus_one,
  suc_ℤ, ◌==ℤ◌, ltb_ℤ, not,
}
use my_raft_kvdb.Log.{last_log_index}
use my_raft_kvdb.Messages.{RequestVoteArgs, RequestVoteReply}
use my_raft_kvdb.Node.{
  follower, candidate, leader, Env, RaftNode, is_candidate, majority, set_insert, persist_state,
  reset_election_timer, reset_heartbeat_timer, is_log_up_to_date,
}

module _ {S : Type 0} where
  -- Rule 2 of handleRequestVote: a newer term makes the node a follower that has not voted.
  unfoldable pub observe_vote_term : ℤ → RaftNode S → RaftNode S
  observe_vote_term term n =
      if ltb_ℤ n.current_term term
      then persist_state (record n {
        current_term = term;
        voted_for = minus_one;
        state = follower;
        leader_id = minus_one;
        votes_received = [];
        current_election_term = minus_one;
      })
      else n

  -- Rule 3: the node has not voted for another, and the candidate's log is as new as its own.
  unfoldable pub can_grant : RequestVoteArgs → RaftNode S → Bool
  unfolding is_log_up_to_date
  can_grant args n =
      (n.voted_for ==ℤ minus_one || n.voted_for ==ℤ args.candidate_id)
      && is_log_up_to_date args.last_log_index args.last_log_term n

  unfoldable pub handle_request_vote :
      Env → RequestVoteArgs → RaftNode S → RaftNode S × RequestVoteReply
  unfolding observe_vote_term can_grant
  handle_request_vote env args n =
      let n' = observe_vote_term args.term n in
      if ltb_ℤ args.term n.current_term
      then (n, record { term = n.current_term; vote_granted = false })
      else if can_grant args n'
      then (
        persist_state (reset_election_timer env (record n' { voted_for = args.candidate_id })),
        record { term = n'.current_term; vote_granted = true },
      )
      else (n', record { term = n'.current_term; vote_granted = false })

  unfoldable pub start_election : Env → RaftNode S → RaftNode S
  start_election env n =
      let voted = persist_state (record n {
        state = candidate;
        current_term = suc_ℤ n.current_term;
        voted_for = n.node_id;
        leader_id = minus_one;
      }) in
      reset_election_timer env (record voted {
        current_election_term = voted.current_term;
        votes_received = n.node_id ∷ [];
      })

  -- becomeLeaderInternal(). The loop writes the first |peers| elements of the two vectors, which the
  -- constructor made |peers| long.
  unfoldable pub become_leader : Env → RaftNode S → RaftNode S
  become_leader env n = reset_heartbeat_timer env (record n {
    state = leader;
    leader_id = n.node_id;
    votes_received = [];
    current_election_term = minus_one;
    next_index = replicate (length n.peer_ids) (suc_ℤ (last_log_index n.log));
    match_index = replicate (length n.peer_ids) (pos 0);
  })

  -- What both response handlers do on a newer term.
  unfoldable pub yield_to_term : Env → ℤ → RaftNode S → RaftNode S
  yield_to_term env term n = persist_state (
      reset_election_timer env (record n {
        current_term = term;
        voted_for = minus_one;
        state = follower;
        leader_id = minus_one;
        votes_received = [];
      }))

  -- The branch of handleVoteResponse for a vote that was granted.
  unfoldable pub count_vote : Env → ℤ → RaftNode S → RaftNode S × Bool
  unfolding become_leader
  count_vote env voter n =
      let n' = record n { votes_received = set_insert voter n.votes_received } in
      if leb (majority n'.peer_ids) (length n'.votes_received)
      then (become_leader env n', true)
      else (n', false)

  -- The Boolean says whether the node has become leader.
  unfoldable pub handle_vote_response : Env → ℤ → RequestVoteReply → RaftNode S → RaftNode S × Bool
  unfolding yield_to_term count_vote
  handle_vote_response env voter reply n =
      if not (is_candidate n.state)
      then (n, false)
      else if ltb_ℤ n.current_term reply.term
      then (yield_to_term env reply.term n, false)
      else if ltb_ℤ reply.term n.current_election_term
      then (n, false)
      else if reply.vote_granted
      then count_vote env voter n
      else (n, false)

  unfoldable pub become_follower : Env → ℤ → RaftNode S → RaftNode S
  become_follower env term n =
      let n' =
        if ltb_ℤ n.current_term term
        then persist_state (record n { current_term = term; voted_for = minus_one })
        else n in
      reset_election_timer env (record n' {
        state = follower;
        leader_id = minus_one;
        votes_received = [];
        current_election_term = minus_one;
      })
