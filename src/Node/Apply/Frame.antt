-- ===== src/Node/Apply/Frame.antt =====
-- src/raft/raft_node.cpp, applyCommittedEntriesInternal: what applying entries leaves alone.
use my_raft_kvdb.Base.{ℕ, zero, suc, ◌≡◌, arith}
use my_raft_kvdb.Node.{RaftNode}
use my_raft_kvdb.Node.Apply.{apply_one, apply_loop, apply_committed_entries}

module _ {S : Type 0} where
  -- Everything but the state machine, the position in the log and the waiting clients.
  pub record SameRaft (n m : RaftNode S) : Type 0 where
    pub current_term : m.current_term ≡ n.current_term
    pub voted_for : m.voted_for ≡ n.voted_for
    pub log : m.log ≡ n.log
    pub commit_index : m.commit_index ≡ n.commit_index
    pub next_index : m.next_index ≡ n.next_index
    pub match_index : m.match_index ≡ n.match_index
    pub node_id : m.node_id ≡ n.node_id
    pub peer_ids : m.peer_ids ≡ n.peer_ids
    pub state : m.state ≡ n.state
    pub votes_received : m.votes_received ≡ n.votes_received
    pub current_election_term : m.current_election_term ≡ n.current_election_term
    pub persister : m.persister ≡ n.persister
    pub apply_callback : m.apply_callback ≡ n.apply_callback

  pub apply_one-SameRaft : (n : RaftNode S) → SameRaft n (apply_one n).0
  unfolding apply_one
  apply_one-SameRaft n = ground arith

  apply_loop-SameRaft : (fuel : ℕ) (n : RaftNode S) → SameRaft n (apply_loop fuel n).0
  unfolding apply_loop
  apply_loop-SameRaft zero n = ground arith
  apply_loop-SameRaft (suc fuel) n =
      ground (arith, apply_one-SameRaft n, apply_loop-SameRaft fuel (apply_one n).0)

  pub apply_committed_entries-SameRaft : (n : RaftNode S) → SameRaft n (apply_committed_entries n).0
  unfolding apply_committed_entries
  apply_committed_entries-SameRaft n = apply_loop-SameRaft _ n
