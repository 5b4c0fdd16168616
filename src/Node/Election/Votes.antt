-- ===== src/Node/Election/Votes.antt =====
-- src/raft/raft_node.cpp, handleRequestVote: which requests get the vote, and what a vote binds.
use my_raft_kvdb.Base.{
  ◌≡◌, arith, minus_one, ltb_ℤ, leb_ℤ, ◌==ℤ◌, ==ℤ_iff, ◌&&◌, ◌||◌, if◌then◌else◌,
}
use my_raft_kvdb.Log.{last_log_index, last_log_term}
use my_raft_kvdb.Messages.{RequestVoteArgs}
use my_raft_kvdb.Node.{Env, RaftNode, is_log_up_to_date}
use my_raft_kvdb.Node.Election.{handle_request_vote}

module _ {S : Type 0} where
  pub handle_request_vote-current_term :
      (env : Env) (args : RequestVoteArgs) (n : RaftNode S)
      → (handle_request_vote env args n).0.current_term
        ≡ (if ltb_ℤ n.current_term args.term then args.term else n.current_term)
  unfolding handle_request_vote
  handle_request_vote-current_term env args n = ground arith

  pub reply-term-handle_request_vote :
      (env : Env) (args : RequestVoteArgs) (n : RaftNode S)
      → (handle_request_vote env args n).1.term ≡ (handle_request_vote env args n).0.current_term
  unfolding handle_request_vote
  reply-term-handle_request_vote env args n = ground arith

  pub vote_granted_lem :
      (env : Env) (args : RequestVoteArgs) (n : RaftNode S)
      → (handle_request_vote env args n).1.vote_granted ≡ (
          leb_ℤ n.current_term args.term
          && (ltb_ℤ n.current_term args.term
              || (n.voted_for ==ℤ minus_one || n.voted_for ==ℤ args.candidate_id))
          && is_log_up_to_date args.last_log_index args.last_log_term n)
  unfolding handle_request_vote
  vote_granted_lem env args n = ground arith

  -- A vote is granted exactly where the request's term is not below the node's; it is above it, or
  -- votedFor is -1 or this candidate; and the candidate's last term is above the last term of the
  -- node's log, or equal to it with a last index that is not below the node's.
  pub vote_granted_iff :
      (env : Env) (args : RequestVoteArgs) (n : RaftNode S)
      → (handle_request_vote env args n).1.vote_granted ≡ (
          leb_ℤ n.current_term args.term
          && (ltb_ℤ n.current_term args.term
              || (n.voted_for ==ℤ minus_one || n.voted_for ==ℤ args.candidate_id))
          && (ltb_ℤ (last_log_term n.log) args.last_log_term
              || args.last_log_term ==ℤ last_log_term n.log
                && leb_ℤ (last_log_index n.log) args.last_log_index))
  unfolding handle_request_vote is_log_up_to_date
  vote_granted_iff env args n = ground (arith, ==ℤ_iff args.last_log_term (last_log_term n.log))
