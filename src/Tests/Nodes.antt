-- ===== src/Tests/Nodes.antt =====
-- Nodes of a cluster of three, whose state machine records the commands that it gets.
use my_raft_kvdb.Base.{false, none, some, List, [], ◌∷◌, ◌++◌, ℤ, pos, minus_one, if◌then◌else◌}
use my_raft_kvdb.Log.{LogEntry}
use my_raft_kvdb.Messages.{AppendEntriesArgs, RequestVoteArgs}
use my_raft_kvdb.Node.{
  follower, candidate, leader, Env, returned, thrown, Callback, RaftNode, sentinel,
}
use my_raft_kvdb.Persister.{Persister}
use my_raft_kvdb.Text.{Bytes, codes, same_bytes}

abbrev pub noon : Env
noon = record { now = 1000; draw = 200 }

-- It refuses the command "BAD" by an exception.
unfoldable pub record_command : Callback (List Bytes)
unfolding same_bytes
record_command command s =
    if same_bytes command (codes "BAD")
    then (thrown (codes "bad command"), s)
    else (returned (codes "OK"), s ++ command ∷ [])

abbrev pub put_a : LogEntry
put_a = record { term = pos 1; command = codes "PUT:a:1"; index = pos 1 }

abbrev pub put_b : LogEntry
put_b = record { term = pos 1; command = codes "PUT:b:2"; index = pos 2 }

abbrev pub put_c : LogEntry
put_c = record { term = pos 2; command = codes "PUT:c:3"; index = pos 2 }

abbrev pub disk : Persister
disk = record { state_file = none; temp_file = none; outcomes = [] }

abbrev pub node_one : RaftNode (List Bytes)
node_one = record {
  current_term = pos 1;
  voted_for = minus_one;
  log = sentinel ∷ put_a ∷ put_b ∷ [];
  commit_index = pos 0;
  last_applied = pos 0;
  next_index = pos 3 ∷ pos 3 ∷ [];
  match_index = pos 0 ∷ pos 0 ∷ [];
  node_id = pos 1;
  peer_ids = pos 2 ∷ pos 3 ∷ [];
  state = follower;
  leader_id = minus_one;
  votes_received = [];
  current_election_term = minus_one;
  last_heartbeat_time = 900;
  last_heartbeat_sent = 900;
  election_timeout = 200;
  heartbeat_interval = 50;
  apply_callback = some record_command;
  machine = [];
  pending_commands = [];
  persister = some disk;
  needs_persist = false;
}

-- The leader of term 2; its entry at 2 differs from that of `node_one`.
abbrev pub node_two : RaftNode (List Bytes)
node_two = record node_one {
  current_term = pos 2;
  log = sentinel ∷ put_a ∷ put_c ∷ [];
  node_id = pos 2;
  peer_ids = pos 1 ∷ pos 3 ∷ [];
  next_index = pos 2 ∷ pos 2 ∷ [];
  match_index = pos 2 ∷ pos 0 ∷ [];
  state = leader;
}

-- A candidate of term 1 that has voted for itself.
abbrev pub node_three : RaftNode (List Bytes)
node_three = record node_one {
  voted_for = pos 3;
  node_id = pos 3;
  peer_ids = pos 1 ∷ pos 2 ∷ [];
  state = candidate;
  votes_received = pos 3 ∷ [];
  current_election_term = pos 1;
}

abbrev pub ask : ℤ → ℤ → RequestVoteArgs
ask term id = record {
  term = term;
  candidate_id = id;
  last_log_index = pos 2;
  last_log_term = pos 1;
}

-- Entries from `node_two` behind position 1, where the log of `node_one` agrees.
abbrev pub append_c : AppendEntriesArgs
append_c = record {
  term = pos 2;
  leader_id = pos 2;
  prev_log_index = pos 1;
  prev_log_term = pos 1;
  entries = put_c ∷ [];
  leader_commit = pos 1;
}

abbrev pub heartbeat : AppendEntriesArgs
heartbeat = record {
  term = pos 1;
  leader_id = pos 1;
  prev_log_index = pos 2;
  prev_log_term = pos 1;
  entries = [];
  leader_commit = pos 0;
}
