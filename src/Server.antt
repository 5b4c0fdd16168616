-- ===== src/Server.antt =====
-- src/raft_node_server.cpp: the start of a server, the turns of its main loop and the tasks of its
-- thread pool. What is printed is left out, and the reads of the node in sendRequestVotesToPeers,
-- which take the lock one by one, are of one moment. Between two calls of the main thread, other threads may
-- call the node: those calls are a list of events.
pub mod Sending
pub mod Counting
pub mod Wins
use my_raft_kvdb.Base.{
  ℕ, zero, suc, Bool, true, false, not, Option, none, some, List, [], ◌∷◌, ◌++◌, if◌then◌else◌, ℤ,
  pos, ◌==ℤ◌, ltb_ℤ,
}
use my_raft_kvdb.Config.{
  NodeConfig, get_address, new_config, load_from_file, get_node_config, get_all_nodes,
}
use my_raft_kvdb.Log.{last_log_index, last_log_term}
use my_raft_kvdb.Messages.{RequestVoteArgs, RequestVoteReply, AppendEntriesArgs, AppendEntriesReply}
use my_raft_kvdb.Node.{
  Env, Callback, RaftNode, is_leader, is_candidate, new_node, reset_heartbeat_timer,
  check_election_timeout, should_send_heartbeat,
}
use my_raft_kvdb.Node.Apply.{apply_committed_entries}
use my_raft_kvdb.Node.Election.{start_election, handle_vote_response}
use my_raft_kvdb.Node.Leader.{create_append_entries_args, handle_append_entries_response}
use my_raft_kvdb.Node.Restore.{fresh, restored, failed, set_persister, restore_state}
use my_raft_kvdb.Persister.{Persister}
use my_raft_kvdb.Run.{Event, run}
use my_raft_kvdb.Text.Scan.{Memory}
use my_raft_kvdb.Text.{Bytes}

-- std::map<int, std::string>: by rising keys.
abbrev pub Addresses : Type 0
Addresses = List (ℤ × Bytes)

-- peer_addresses[id] = address
unfoldable pub set_address : ℤ → Bytes → Addresses → Addresses
set_address id address [] = (id, address) ∷ []
set_address id address ((i, a) ∷ addresses) =
    let rest = set_address id address addresses in
    if id ==ℤ i
    then (id, address) ∷ addresses
    else (if ltb_ℤ id i then (id, address) ∷ (i, a) ∷ addresses else (i, a) ∷ rest)

-- peer_addresses.find(id)
unfoldable pub find_address : ℤ → Addresses → Option Bytes
find_address id [] = none
find_address id ((i, a) ∷ addresses) =
    let rest = find_address id addresses in if i ==ℤ id then some a else rest

pub record Peers : Type 0 where
  pub ids : List ℤ
  pub addresses : Addresses

-- The loop over the nodes of the configuration.
unfoldable pub find_peers : ℤ → List NodeConfig → Peers → Peers
find_peers id [] p = p
find_peers id (n ∷ nodes) p = find_peers id nodes (
    if not (n.id ==ℤ id)
    then record {
      ids = p.ids ++ n.id ∷ [];
      addresses = set_address n.id (get_address n) p.addresses;
    }
    else p)

abbrev pub peers_of : ℤ → List NodeConfig → Peers
peers_of id nodes = find_peers id nodes (record { ids = []; addresses = [] })

-- What stands in the queue of the thread pool: the captured variables of the two lambdas.
pub data Task : Type 0 where
  ask_vote : ℤ → Bytes → RequestVoteArgs → Task
  send_entries : ℤ → Bytes → ℕ → Task

unfoldable pub ask_all : RequestVoteArgs → Addresses → List Task
ask_all args [] = []
ask_all args ((i, a) ∷ addresses) = ask_vote i a args ∷ ask_all args addresses

unfoldable pub send_from : ℕ → List ℤ → Addresses → List Task
send_from i [] addresses = []
send_from i (id ∷ ids) addresses =
    let rest = send_from (suc i) ids addresses in
    elim (find_address id addresses) [
      | none ↦ rest
      | some address ↦ send_entries id address i ∷ rest
    ]

-- The network as a task meets it: whether a connection succeeds, and what a call returns.
pub record Network : Type 0 where
  pub connects : Bytes → Bool
  pub vote : Bytes → RequestVoteArgs → Option RequestVoteReply
  pub append : Bytes → AppendEntriesArgs → Option AppendEntriesReply

-- What the clock and the generator show in a turn, and the calls of other threads: before the
-- election starts, before the requests for votes are made, before the test of the heartbeat, before
-- the messages with entries are made, before the timer is reset and before entries are applied.
pub record Turn : Type 0 where
  pub election_now : ℕ
  pub heartbeat_now : ℕ
  pub election : Env
  pub sent : Env
  pub before_start : List Event
  pub before_ask : List Event
  pub before_heartbeat : List Event
  pub before_send : List Event
  pub before_reset : List Event
  pub before_apply : List Event

-- How the start of the process ends: with an exit code of 1, with an exception that leaves main, or
-- with a running node.
pub data Start (S : Type 0) : Type 0 where
  refused uncaught : Start S
  running : RaftNode S → Peers → Start S

pub record Process (S : Type 0) : Type 0 where
  pub node : RaftNode S
  pub tasks : List Task

module _ {S : Type 0} where
  unfoldable pub send_request_votes_to_peers : ℤ → Addresses → RaftNode S → List Task
  send_request_votes_to_peers id addresses n =
      if not (is_candidate n.state)
      then []
      else ask_all
          (record {
            term = n.current_term;
            candidate_id = id;
            last_log_index = last_log_index n.log;
            last_log_term = last_log_term n.log;
          })
          addresses

  unfoldable pub send_append_entries_to_peers : Peers → RaftNode S → List Task
  send_append_entries_to_peers peers n =
      if not (is_leader n.state) then [] else send_from 0 peers.ids peers.addresses

  -- The first part of a turn: an election, where the timer has run out.
  unfoldable pub election_part : Turn → ℤ → Peers → Process S → Process S
  election_part t id peers p =
      if check_election_timeout t.election_now p.node
      then (let n = run t.before_ask (start_election t.election (run t.before_start p.node)) in
          record { node = n; tasks = p.tasks ++ send_request_votes_to_peers id peers.addresses n })
      else p

  -- The second part: the heartbeats of a leader.
  unfoldable pub heartbeat_part : Turn → Peers → Process S → Process S
  heartbeat_part t peers p =
      if should_send_heartbeat t.heartbeat_now p.node
      then (let n = run t.before_send p.node in
          record {
            node = reset_heartbeat_timer t.sent (run t.before_reset n);
            tasks = p.tasks ++ send_append_entries_to_peers peers n;
          })
      else p

  abbrev pub others : List Event → Process S → Process S
  others es p = record p { node = run es p.node }

  -- A turn of the main loop.
  unfoldable pub turn : Turn → ℤ → Peers → Process S → Process S
  turn t id peers p =
      let q = heartbeat_part t peers (others t.before_heartbeat (election_part t id peers p)) in
      record q { node = (apply_committed_entries (run t.before_apply q.node)).0 }

  -- The two lambdas, with the calls of other threads while the peer is asked.
  unfoldable pub vote_task :
      Env → Network → List Event → ℤ → Bytes → RequestVoteArgs → RaftNode S → RaftNode S
  vote_task env w es peer address args n =
      let later = run es n in
      elim (if w.connects address then w.vote address args else none) [
        | none ↦ later
        | some reply ↦ (handle_vote_response env peer reply later).0
      ]

  unfoldable pub entries_task : Env → Network → List Event → ℤ → Bytes → ℕ → RaftNode S → RaftNode S
  entries_task env w es peer address i n =
      let later = run es n in
      elim (if w.connects address
        then w.append address (create_append_entries_args i n)
        else none) [
          | none ↦ later
          | some reply ↦ (handle_append_entries_response env peer reply later).0
        ]

  unfoldable pub run_task : Env → Network → List Event → Task → RaftNode S → RaftNode S
  run_task env w es (ask_vote peer address args) n = vote_task env w es peer address args n
  run_task env w es (send_entries peer address i) n = entries_task env w es peer address i n

  -- A worker takes the first task of the queue.
  unfoldable pub work : Env → Network → List Event → Process S → Process S
  work env w es p = elim p.tasks [
    | [] ↦ p
    | task ∷ tasks ↦ record { node = run_task env w es task p.node; tasks = tasks }
  ]

  -- The start in main, with the state file of a directory as `disk` gives it.
  unfoldable pub start :
      Env → Memory → (Bytes → Persister) → Callback S → S → ℤ → NodeConfig → Bytes → Start S
  start env memory disk callback machine id garbage text =
      elim (load_from_file garbage text new_config) [
        | none ↦ uncaught
        | some (c, found) ↦
            let self = get_node_config id c in
            let peers = peers_of id (get_all_nodes c) in
            let n = set_persister (some (disk self.data_dir)) (new_node env id peers.ids machine) in
            let (m, outcome) = restore_state memory n in
            if not found
            then refused
            else (if self.id ==ℤ pos 0 then refused else elim outcome [
              | failed ↦ refused
              | _ ↦ running (record m { apply_callback = some callback }) peers
            ])
      ]
