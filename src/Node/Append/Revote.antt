-- ===== src/Node/Append/Revote.antt =====
-- src/raft/raft_node.cpp, rule 2 of handleAppendEntries: a candidate or leader that steps down for a
-- leader of its own term forgets its vote of this term.
use my_raft_kvdb.Base.{◌≡◌, arith, true, false}
use my_raft_kvdb.Messages.{AppendEntriesArgs, RequestVoteArgs}
use my_raft_kvdb.Node.{Env, RaftNode, is_follower, is_log_up_to_date}
use my_raft_kvdb.Node.Append.{handle_append_entries}
use my_raft_kvdb.Node.Append.Frame.{
  handle_append_entries-current_term, handle_append_entries-voted_for,
}
use my_raft_kvdb.Node.Election.{handle_request_vote}
use my_raft_kvdb.Node.Election.Votes.{vote_granted_lem}

module _ {S : Type 0} where
  -- A node that is candidate or leader (and so has voted for itself) gets an AppendEntries of its own
  -- term. Whomever it had voted for, it then grants its vote of the same term to any candidate whose
  -- log is as new as its own.
  pub votes_again :
      (env later : Env) (append : AppendEntriesArgs) (request : RequestVoteArgs) (n : RaftNode S)
      → is_follower n.state ≡ false
      → append.term ≡ n.current_term
      → request.term ≡ n.current_term
      → is_log_up_to_date request.last_log_index request.last_log_term
          (handle_append_entries env append n).0
        ≡ true
      → (handle_request_vote later request (handle_append_entries env append n).0).1.vote_granted
        ≡ true
  votes_again env later append request n role same term fresh = ground (
    arith,
    handle_append_entries-current_term env append n,
    handle_append_entries-voted_for env append n,
    vote_granted_lem later request (handle_append_entries env append n).0,
  )
