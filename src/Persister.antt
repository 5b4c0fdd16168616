-- ===== src/Persister.antt =====
-- src/storage/persister.cpp: the state file of a node. A save writes a temporary file and renames it
-- over the state file; what the file system answers is given by a script of outcomes.
pub mod Load
pub mod RoundTrip
use my_raft_kvdb.Base.{Bool, true, false, Option, none, some, List, [], ◌∷◌, ◌++◌, length, ℤ}
use my_raft_kvdb.Log.{LogEntry, serialize}
use my_raft_kvdb.Text.{Bytes, print_int, print_nat}

-- How far a save gets: the directory is missing, the temporary file cannot be opened, the write
-- stops after some bytes, the rename fails, or all succeeds.
pub data Outcome : Type 0 where
  no_directory no_open no_rename saved : Outcome
  short_write : Bytes → Outcome

pub record Persister : Type 0 where
  pub state_file : Option Bytes
  pub temp_file : Option Bytes
  pub outcomes : List Outcome

unfoldable pub serialize_entries : List LogEntry → Bytes
serialize_entries [] = []
serialize_entries (e ∷ rest) =
    print_nat (length (serialize e)) ++ (b'\n' ∷ serialize e ++ serialize_entries rest)

-- serializeState: three lines, then each entry behind its length.
unfoldable pub serialize_state : ℤ → ℤ → List LogEntry → Bytes
unfolding serialize_entries
serialize_state term voted_for log =
    print_int term
    ++ (b'\n' ∷ print_int voted_for
        ++ (b'\n' ∷ print_nat (length log) ++ (b'\n' ∷ serialize_entries log)))

-- The effect of one outcome on the two files.
write_files : Outcome → Bytes → Persister → Persister × Bool
write_files no_directory text p = (p, false)
write_files no_open text p = (p, false)
write_files (short_write part) text p = (record p { temp_file = some part }, false)
write_files no_rename text p = (record p { temp_file = some text }, false)
write_files saved text p = (record p { temp_file = none; state_file = some text }, true)

-- saveRaftState. When the script is used up, saves succeed.
unfoldable pub save_raft_state : ℤ → ℤ → List LogEntry → Persister → Persister × Bool
unfolding write_files
save_raft_state term voted_for log p = elim p.outcomes [
  | [] ↦ write_files saved (serialize_state term voted_for log) p
  | o ∷ rest ↦ write_files o (serialize_state term voted_for log) (record p { outcomes = rest })
]
