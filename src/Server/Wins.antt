-- ===== src/Server/Wins.antt =====
-- src/raft_node_server.cpp: an election, from the timeout in the main loop to the last answer in the
-- thread pool.
use my_raft_kvdb.Base.{ℕ, [], ℤ, suc_ℤ}
use my_raft_kvdb.Messages.{RequestVoteArgs}
use my_raft_kvdb.Node.{Env, RaftNode}
use my_raft_kvdb.Log.{last_log_index, last_log_term}
use my_raft_kvdb.Server.{Turn}

-- A turn in which no other thread calls the node.
abbrev pub quiet_turn : ℕ → ℕ → Env → Env → Turn
quiet_turn now later started sent = record {
  election_now = now;
  heartbeat_now = later;
  election = started;
  sent = sent;
  before_start = [];
  before_ask = [];
  before_heartbeat = [];
  before_send = [];
  before_reset = [];
  before_apply = [];
}

module _ {S : Type 0} where
  -- The request of a node that starts an election.
  abbrev pub next_request : ℤ → RaftNode S → RequestVoteArgs
  next_request id n = record {
    term = suc_ℤ n.current_term;
    candidate_id = id;
    last_log_index = last_log_index n.log;
    last_log_term = last_log_term n.log;
  }
