-- ===== src/Node/Restore.antt =====
-- src/raft/raft_node.cpp: setPersister and restoreState.
use my_raft_kvdb.Base.{◌<◌, ◌≡◌, refl, length, Option, none, some, List, [], ◌∷◌, pos, minus_one}
use my_raft_kvdb.Log.{LogEntry}
use my_raft_kvdb.Node.{RaftNode}
use my_raft_kvdb.Persister.{Persister}
use my_raft_kvdb.Persister.Load.{Loading, loaded, refused, crashed, load_raft_state}
use my_raft_kvdb.Text.Scan.{Memory}

-- What restoreState() does: it returns a Boolean, or an exception passes through it.
pub data Restored : Type 0 where
  fresh restored failed : Restored

-- An empty log leaves the sentinel of the constructor.
abbrev pub restored_log : List LogEntry → List LogEntry → List LogEntry
restored_log [] old = old
restored_log (e ∷ es) old = e ∷ es

pub restored_log-nonempty : (log old : List LogEntry) → 0 < length log → restored_log log old ≡ log
restored_log-nonempty [] old h = elim h [ ]
restored_log-nonempty (e ∷ es) old h = refl

module _ {S : Type 0} where
  abbrev pub set_persister : Option Persister → RaftNode S → RaftNode S
  set_persister p n = record n { persister = p }

  take_loading : Loading → RaftNode S → RaftNode S × Restored
  take_loading m n = elim m.result [
    | loaded ↦ (
      record n {
        current_term = m.current_term;
        voted_for = m.voted_for;
        log = restored_log m.log n.log;
      },
      restored,
    )
    | refused ↦ (n, fresh)
    | crashed ↦ (n, failed)
  ]

  -- restoreState()
  unfoldable pub restore_state : Memory → RaftNode S → RaftNode S × Restored
  unfolding take_loading
  restore_state memory n = elim n.persister [
    | none ↦ (n, fresh)
    | some p ↦ take_loading (load_raft_state memory p (pos 0) minus_one []) n
  ]
