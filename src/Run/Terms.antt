-- ===== src/Run/Terms.antt =====
-- src/raft/raft_node.cpp: the current term of a node never falls.
use my_raft_kvdb.Base.{arith, List, [], ◌∷◌, ◌≤ℤ◌}
use my_raft_kvdb.Messages.{AppendEntriesReply}
use my_raft_kvdb.Node.{Env, RaftNode, persist_save_part, persist_clear_part}
use my_raft_kvdb.Node.Apply.Frame.{apply_committed_entries-SameRaft}
use my_raft_kvdb.Node.Append.Frame.{handle_append_entries-current_term}
use my_raft_kvdb.Node.Election.{
  start_election, handle_vote_response, become_follower, yield_to_term,
}
use my_raft_kvdb.Node.Election.Votes.{handle_request_vote-current_term}
use my_raft_kvdb.Node.Leader.{append_log_entry}
use my_raft_kvdb.Node.Leader.Frame.{
  Replied, yielded, kept, handle_append_entries_response-Replied, update_commit_index_eq,
}
use my_raft_kvdb.Run.{
  Event, request_vote, append_entries, election_timeout, vote_response, append_response, step_down,
  client_command, commit_check, apply_entries, heartbeat_sent, persist_save, persist_clear, step,
  run,
}

module _ {S : Type 0} where
  Replied-term :
      {env : Env} {reply : AppendEntriesReply} {n m : RaftNode S}
      → Replied env reply n m
      → n.current_term ≤ℤ m.current_term
  unfolding yield_to_term
  Replied-term (yielded h) = ground arith
  Replied-term (kept c next match _ _ _ _) = omega arith

  pub step-term : (e : Event) (n : RaftNode S) → n.current_term ≤ℤ (step e n).current_term
  unfolding step
  step-term (request_vote env args) n = rw handle_request_vote-current_term (ground arith)
  step-term (append_entries env args) n = rw handle_append_entries-current_term (ground arith)
  step-term (election_timeout env) n = unfold start_election in ground arith
  step-term (vote_response env id reply) n = unfold handle_vote_response in ground arith
  step-term (append_response env id reply) n =
      Replied-term (handle_append_entries_response-Replied env id reply n)
  step-term (step_down env term) n = unfold become_follower in ground arith
  step-term (client_command command) n = unfold append_log_entry in ground arith
  step-term commit_check n = rw update_commit_index_eq (omega arith)
  step-term apply_entries n = ground (arith, apply_committed_entries-SameRaft n)
  step-term (heartbeat_sent env) n = omega arith
  step-term persist_save n = unfold persist_save_part in ground arith
  step-term persist_clear n = unfold persist_clear_part in ground arith

  -- Whatever calls arrive, in whatever order, a node's current term never falls.
  pub run-term : (es : List Event) (n : RaftNode S) → n.current_term ≤ℤ (run es n).current_term
  unfolding run
  run-term [] n = omega arith
  run-term (e ∷ es) n = omega (arith, step-term e n, run-term es (step e n))
