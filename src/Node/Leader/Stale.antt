-- ===== src/Node/Leader/Stale.antt =====
-- src/raft/raft_node.cpp, handleAppendEntriesResponse: what a successful reply is taken to confirm.
use my_raft_kvdb.Base.{
  ℕ, ◌<◌, ◌≡◌, arith, true, false, some, List, [], ◌∷◌, ◌++◌, length, get_or, set, length-append,
  get_or-set_self, ℤ, pos, suc_ℤ, ltb_ℤ,
}
use my_raft_kvdb.Log.{LogEntry, last_log_index}
use my_raft_kvdb.Messages.{AppendEntriesReply}
use my_raft_kvdb.Text.{Bytes}
use my_raft_kvdb.Node.{leader, Env, RaftNode}
use my_raft_kvdb.Node.Leader.{
  peer_position, peer_replied, handle_append_entries_response, append_log_entry,
}
use my_raft_kvdb.Node.Leader.Frame.{update_commit_index_eq}

last_log_index-append_log_entry :
    (log : List LogEntry) (e : LogEntry) → last_log_index (log ++ e ∷ []) ≡ pos (length log)
last_log_index-append_log_entry log e = ground (arith, length-append log (e ∷ []))

module _ {S : Type 0} where
  match_index-success :
      (env : Env) (id : ℤ) (i : ℕ) (reply : AppendEntriesReply) (n : RaftNode S)
      → n.state ≡ leader
      → peer_position id n.peer_ids ≡ some i
      → ltb_ℤ n.current_term reply.term ≡ false
      → reply.success ≡ true
      → (handle_append_entries_response env id reply n).0.match_index
        ≡ set n.match_index i (last_log_index n.log)
  unfolding handle_append_entries_response peer_replied
  match_index-success env id i reply n leads known term ok = ground (
    arith,
    update_commit_index_eq (record n {
      match_index = set n.match_index i (last_log_index n.log);
      next_index = set n.next_index i (suc_ℤ (last_log_index n.log));
    }),
  )

  append_log_entry_lem :
      (command : Bytes) (n : RaftNode S)
      → n.state ≡ leader
      → (append_log_entry command n).0 ≡ record n {
        log =
            n.log
            ++ record { term = n.current_term; command = command; index = pos (length n.log) } ∷ [];
        needs_persist = true;
      }
  unfolding append_log_entry
  append_log_entry_lem command n leads = ground arith

  -- A leader sends a peer its log, then appends a client's command, then gets the peer's success for
  -- what it had sent: it records the new entry, which it has not sent, as stored at the peer.
  pub unsent_entry_matched :
      (env : Env) (id : ℤ) (i : ℕ) (command : Bytes) (reply : AppendEntriesReply) (n : RaftNode S)
      → n.state ≡ leader
      → peer_position id n.peer_ids ≡ some i
      → i < length n.match_index
      → ltb_ℤ n.current_term reply.term ≡ false
      → reply.success ≡ true
      → get_or
          (handle_append_entries_response env id reply (append_log_entry command n).0).0.match_index
          i
          (pos 0)
        ≡ pos (length n.log)
  unsent_entry_matched env id i command reply n leads known room term ok =
      let e : LogEntry = record {
        term = n.current_term;
        command = command;
        index = pos (length n.log);
      } in
      let m : RaftNode S = record n { log = n.log ++ e ∷ []; needs_persist = true } in
      rw (append_log_entry_lem command n leads) (
        ground (
          arith,
          match_index-success env id i reply m leads known term ok,
          last_log_index-append_log_entry n.log e,
          get_or-set_self n.match_index i (pos (length n.log)) (pos 0) room,
        ))
