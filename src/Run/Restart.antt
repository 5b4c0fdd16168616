-- ===== src/Run/Restart.antt =====
-- src/raft/raft_node.cpp and src/raft_node_server.cpp: a process that stops and is started again on
-- its state file.
use my_raft_kvdb.Base.{
  ◌≡◌, refl, Option, none, some, List, [], ◌∷◌, ◌<◌, length, arith, pos, minus_one,
}
use my_raft_kvdb.Node.{Env, RaftNode, follower, new_node, sentinel}
use my_raft_kvdb.Node.Restore.{
  set_persister, restore_state, Restored, restored, restored_log, restored_log-nonempty,
}
use my_raft_kvdb.Persister.{Persister, serialize_state}
use my_raft_kvdb.Persister.RoundTrip.{IsStorableState, load_raft_state_lem}
use my_raft_kvdb.Run.{Event, run}
use my_raft_kvdb.Run.Durable.{AllSynchronous, run-IsSaved}
use my_raft_kvdb.Run.Saved.{IsSaved, IsHealthy, file_of}
use my_raft_kvdb.Text.{Bytes}
use my_raft_kvdb.Text.Scan.{Memory}

state_file-healthy :
    (p : Persister) (text : Bytes)
    → p.outcomes ≡ []
    → file_of (some p) ≡ some text
    → p.state_file ≡ some text
state_file-healthy p text h f = rw h at f

module _ {S : Type 0} where
  -- The node of a new process on the state file of an old one.
  unfoldable pub restart : Memory → Env → S → RaftNode S → RaftNode S × Restored
  restart memory env s n =
      restore_state memory (set_persister n.persister (new_node env n.node_id n.peer_ids s))

  restore_state_lem :
      (memory : Memory) (o : Option Persister) (n m : RaftNode S)
      → IsHealthy o
      → file_of o ≡ some (serialize_state n.current_term n.voted_for n.log)
      → IsStorableState memory n.current_term n.voted_for n.log
      → restore_state memory (set_persister o m) ≡ (
        record m {
          persister = o;
          current_term = n.current_term;
          voted_for = n.voted_for;
          log = restored_log n.log m.log;
        },
        restored,
      )
  unfolding restore_state
  restore_state_lem memory none n m h f fits = absurd h
  restore_state_lem memory (some p) n m h f fits =
      let file = state_file-healthy p _ h f in
      let e =
        load_raft_state_lem memory p n.current_term n.voted_for n.log (pos 0) minus_one [] fits
          file in
      grind (arith, e)

  -- The restarted node, field by field.
  restart_lem :
      (memory : Memory) (env : Env) (s : S) (n : RaftNode S)
      → IsSaved n
      → IsStorableState memory n.current_term n.voted_for n.log
      → restart memory env s n ≡ (
        record (new_node env n.node_id n.peer_ids s) {
          persister = n.persister;
          current_term = n.current_term;
          voted_for = n.voted_for;
          log = restored_log n.log (sentinel ∷ []);
        },
        restored,
      )
  unfolding restart new_node
  restart_lem memory env s n saved fits =
      restore_state_lem memory n.persister n (new_node env n.node_id n.peer_ids s) saved.healthy
        saved.on_disk fits

  -- A node that its state file follows makes any calls but a client's command, and the process is
  -- started again on the file, with a term, a vote and a log that is not empty which fit their
  -- types and the memory: the new node is a follower with the term, the vote and the log that the
  -- old one had, and with nothing known to be committed.
  pub restart-run :
      (memory : Memory) (env : Env) (s : S) (es : List Event) (n : RaftNode S)
      → AllSynchronous es
      → IsSaved n
      → IsStorableState memory (run es n).current_term (run es n).voted_for (run es n).log
      → 0 < length (run es n).log
      → let m = run es n in
        let (m', result) = restart memory env s m in
        (result ≡ restored)
        × (m'.current_term ≡ m.current_term)
        × (m'.voted_for ≡ m.voted_for)
        × (m'.log ≡ m.log)
        × (m'.state ≡ follower)
        × (m'.commit_index ≡ pos 0)
        × (m'.last_applied ≡ pos 0)
  unfolding new_node
  restart-run memory env s es n sync saved fits h =
      rw (restart_lem memory env s (run es n) (run-IsSaved es n sync saved) fits)
        (refl, refl, refl, restored_log-nonempty (run es n).log _ h, refl, refl, refl)
