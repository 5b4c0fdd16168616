-- ===== src/Run.antt =====
-- A node as a state machine: the calls that the server, its timers and its peers make of the methods
-- of include/raft/raft_node.h, one at a time (each holds the node's mutex), in any order.
pub mod Terms
pub mod Votes
pub mod Valid
pub mod Saved
pub mod Durable
pub mod Restart
use my_raft_kvdb.Base.{
  Bool, true, false, Option, none, some, List, [], ◌∷◌, ◌++◌, ◌≡◌, ◌≢◌, if◌then◌else◌, ℤ, minus_one,
}
use my_raft_kvdb.Messages.{RequestVoteArgs, RequestVoteReply, AppendEntriesArgs, AppendEntriesReply}
use my_raft_kvdb.Text.{Bytes}
use my_raft_kvdb.Node.{Env, RaftNode, reset_heartbeat_timer, persist_save_part, persist_clear_part}
use my_raft_kvdb.Node.Apply.{apply_committed_entries}
use my_raft_kvdb.Node.Append.{handle_append_entries}
use my_raft_kvdb.Node.Election.{
  handle_request_vote, start_election, handle_vote_response, become_follower,
}
use my_raft_kvdb.Node.Leader.{handle_append_entries_response, append_log_entry, update_commit_index}

pub data Event : Type 0 where
  request_vote : Env → RequestVoteArgs → Event
  append_entries : Env → AppendEntriesArgs → Event
  election_timeout : Env → Event
  vote_response : Env → ℤ → RequestVoteReply → Event
  append_response : Env → ℤ → AppendEntriesReply → Event
  step_down : Env → ℤ → Event
  client_command : Bytes → Event
  commit_check : Event
  apply_entries : Event
  heartbeat_sent : Env → Event
  persist_save persist_clear : Event

module _ {S : Type 0} where
  unfoldable pub step : Event → RaftNode S → RaftNode S
  step (request_vote env args) n = (handle_request_vote env args n).0
  step (append_entries env args) n = (handle_append_entries env args n).0
  step (election_timeout env) n = start_election env n
  step (vote_response env id reply) n = (handle_vote_response env id reply n).0
  step (append_response env id reply) n = (handle_append_entries_response env id reply n).0
  step (step_down env term) n = become_follower env term n
  step (client_command command) n = (append_log_entry command n).0
  step commit_check n = update_commit_index n
  step apply_entries n = (apply_committed_entries n).0
  step (heartbeat_sent env) n = reset_heartbeat_timer env n
  step persist_save n = persist_save_part n
  step persist_clear n = persist_clear_part n

  unfoldable pub run : List Event → RaftNode S → RaftNode S
  run [] n = n
  run (e ∷ es) n = run es (step e n)
