-- ===== src/Messages.antt =====
-- include/raft/rpc_messages.h: the arguments and replies of the two remote procedure calls.
pub mod Codec
pub mod RoundTrip
use my_raft_kvdb.Base.{Bool, List, ℤ}
use my_raft_kvdb.Log.{LogEntry}

pub record RequestVoteArgs : Type 0 where
  pub term : ℤ
  pub candidate_id : ℤ
  pub last_log_index : ℤ
  pub last_log_term : ℤ

pub record RequestVoteReply : Type 0 where
  pub term : ℤ
  pub vote_granted : Bool

pub record AppendEntriesArgs : Type 0 where
  pub term : ℤ
  pub leader_id : ℤ
  pub prev_log_index : ℤ
  pub prev_log_term : ℤ
  pub entries : List LogEntry
  pub leader_commit : ℤ

pub record AppendEntriesReply : Type 0 where
  pub term : ℤ
  pub success : Bool
  pub conflict_index : ℤ
  pub conflict_term : ℤ
