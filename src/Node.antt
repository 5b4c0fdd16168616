-- ===== src/Node.antt =====
-- include/raft/raft_node.h and src/raft/raft_node.cpp: the state of a Raft node, its constructor and
-- the helpers that the handlers share. `S` is the state behind the apply callback. The mutexes are
-- not modelled: each method that takes `mutex_` is one step.
pub mod Election
pub mod Apply
pub mod Append
pub mod Leader
pub mod Restore
pub mod Submit
use my_raft_kvdb.Base.{
  ℕ, zero, suc, ◌+◌, ◌/◌, Bool, true, false, not, ◌&&◌, ◌||◌, Option, none, some, List, [], ◌∷◌,
  leb, ltb, ◌≤◌, ◌≡◌, ◌==◌, if◌then◌else◌, length, replicate, ℤ, pos, minus_one, ◌==ℤ◌, ltb_ℤ,
  leb_ℤ,
}
use my_raft_kvdb.Log.{LogEntry, last_log_index, last_log_term}
use my_raft_kvdb.Persister.{Persister, save_raft_state}
use my_raft_kvdb.Text.{Bytes}

pub data NodeState : Type 0 where
  follower candidate leader : NodeState

-- What the clock shows during a call, and the election timeout that the generator draws in it.
pub record Env : Type 0 where
  pub now : ℕ
  pub draw : ℕ

-- What a callback may do: return a result, or throw.
pub data Answer : Type 0 where
  returned : Bytes → Answer
  thrown : Bytes → Answer

abbrev pub Callback : Type 0 → Type 0
Callback S = Bytes → S → Answer × S

pub record PendingCommand : Type 0 where
  pub log_index : ℤ
  pub command : Bytes
  pub result : Bytes
  pub completed : Bool

pub record RaftNode (S : Type 0) : Type 0 where
  pub current_term : ℤ
  pub voted_for : ℤ
  pub log : List LogEntry
  pub commit_index : ℤ
  pub last_applied : ℤ
  pub next_index : List ℤ
  pub match_index : List ℤ
  pub node_id : ℤ
  pub peer_ids : List ℤ
  pub state : NodeState
  pub leader_id : ℤ
  pub votes_received : List ℤ
  pub current_election_term : ℤ
  pub last_heartbeat_time : ℕ
  pub last_heartbeat_sent : ℕ
  pub election_timeout : ℕ
  pub heartbeat_interval : ℕ
  pub apply_callback : Option (Callback S)
  pub machine : S
  pub pending_commands : List PendingCommand
  pub persister : Option Persister
  pub needs_persist : Bool

abbrev pub is_leader : NodeState → Bool
is_leader leader = true
is_leader _ = false

abbrev pub is_candidate : NodeState → Bool
is_candidate candidate = true
is_candidate _ = false

abbrev pub is_follower : NodeState → Bool
is_follower follower = true
is_follower _ = false

-- The sentinel that the constructor puts at position 0.
abbrev pub sentinel : LogEntry
sentinel = record { term = pos 0; command = []; index = pos 0 }

abbrev pub heartbeat_interval_ms : ℕ
heartbeat_interval_ms = 50

-- getMajorityThreshold(): totalNodes / 2 + 1, where the node itself counts.
abbrev pub majority : List ℤ → ℕ
majority peers = (length peers + 1) / 2 + 1

-- std::set<int>: a list without repetition.
abbrev pub contains : ℤ → List ℤ → Bool
contains x [] = false
contains x (y ∷ ys) = x ==ℤ y || contains x ys

abbrev pub set_insert : ℤ → List ℤ → List ℤ
set_insert x xs = if contains x xs then xs else x ∷ xs

module _ {S : Type 0} where
  -- RaftNode(nodeId, peerIds)
  unfoldable pub new_node : Env → ℤ → List ℤ → S → RaftNode S
  new_node env id peers s = record {
    current_term = pos 0;
    voted_for = minus_one;
    log = sentinel ∷ [];
    commit_index = pos 0;
    last_applied = pos 0;
    next_index = replicate (length peers) (pos 1);
    match_index = replicate (length peers) (pos 0);
    node_id = id;
    peer_ids = peers;
    state = follower;
    leader_id = minus_one;
    votes_received = [];
    current_election_term = minus_one;
    last_heartbeat_time = env.now;
    last_heartbeat_sent = env.now;
    election_timeout = env.draw;
    heartbeat_interval = heartbeat_interval_ms;
    apply_callback = none;
    machine = s;
    pending_commands = [];
    persister = none;
    needs_persist = false;
  }

  -- The persister after persistState(): the outcome of the save is only logged.
  unfoldable pub saved_persister : Option Persister → RaftNode S → Option Persister
  saved_persister none n = none
  saved_persister (some p) n = some (save_raft_state n.current_term n.voted_for n.log p).0

  abbrev pub persist_state : RaftNode S → RaftNode S
  persist_state n = record n { persister = saved_persister n.persister n }

  -- A round of persistThreadFunc has two parts. Under the lock it saves the state, if the flag is set;
  -- it lowers the flag after it has let go of the lock, so that other calls may come between.
  unfoldable pub persist_save_part : RaftNode S → RaftNode S
  persist_save_part n = if n.needs_persist then persist_state n else n

  unfoldable pub persist_clear_part : RaftNode S → RaftNode S
  persist_clear_part n = record n { needs_persist = false }

  -- resetElectionTimer()
  abbrev pub reset_election_timer : Env → RaftNode S → RaftNode S
  reset_election_timer env n = record n {
    last_heartbeat_time = env.now;
    election_timeout = env.draw;
  }

  -- resetHeartbeatTimer()
  abbrev pub reset_heartbeat_timer : Env → RaftNode S → RaftNode S
  reset_heartbeat_timer env n = record n { last_heartbeat_sent = env.now }

  -- checkElectionTimeout()
  unfoldable pub check_election_timeout : ℕ → RaftNode S → Bool
  check_election_timeout now n =
      if is_leader n.state then false else leb (n.last_heartbeat_time + n.election_timeout) now

  -- shouldSendHeartbeat()
  unfoldable pub should_send_heartbeat : ℕ → RaftNode S → Bool
  should_send_heartbeat now n =
      if is_leader n.state then leb (n.last_heartbeat_sent + n.heartbeat_interval) now else false

  -- isLogUpToDate(lastLogIndex, lastLogTerm)
  unfoldable pub is_log_up_to_date : ℤ → ℤ → RaftNode S → Bool
  is_log_up_to_date index term n =
      if not (term ==ℤ last_log_term n.log)
      then ltb_ℤ (last_log_term n.log) term
      else leb_ℤ (last_log_index n.log) index
