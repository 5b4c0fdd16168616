-- ===== src/Persister/Load.antt =====
-- src/storage/persister.cpp: deserializeState, loadRaftState, exists and clear; and
-- src/raft/raft_node.cpp: restoreState. An output parameter is an argument and a field of the
-- result, so that what a failed load leaves in it can be seen.
use my_raft_kvdb.Base.{
  ℕ, zero, suc, Bool, true, false, none, some, List, [], ◌∷◌, ◌++◌, leb, if◌then◌else◌, ℤ,
}
use my_raft_kvdb.Log.{LogEntry}
use my_raft_kvdb.Log.Codec.{deserialize}
use my_raft_kvdb.Persister.{Persister}
use my_raft_kvdb.Text.{Bytes}
use my_raft_kvdb.Text.Scan.{get_line, stoi, stoull, Memory, read_exactly}

-- true, false, or an exception that leaves the method.
pub data LoadResult : Type 0 where
  loaded refused crashed : LoadResult

pub record Loading : Type 0 where
  pub result : LoadResult
  pub current_term : ℤ
  pub voted_for : ℤ
  pub log : List LogEntry

abbrev newline : ℕ
newline = b'\n'

-- One round of the loop: the next entry and the text behind it, or how the method ends. The buffer
-- is allocated outside the try block, so that a length too large leaves the method by an exception.
pub data Round : Type 0 where
  stop : LoadResult → Round
  next : LogEntry → Bytes → Round

load_one : Memory → Bytes → Round
load_one memory s = elim (get_line newline s) [
  | none ↦ stop refused
  | some (line, s1) ↦ elim (stoull line) [
    | none ↦ stop refused
    | some length ↦
        if leb length memory.string_limit
        then elim (read_exactly length s1) [
          | none ↦ stop refused
          | some (text, s2) ↦ elim (deserialize memory text) [
            | none ↦ stop refused
            | some e ↦ next e s2
          ]
        ]
        else stop crashed
  ]
]

-- The loop over the entries, with the number of those still to come.
unfoldable pub load_entries : Memory → ℕ → Bytes → Loading → Loading
unfolding load_one
load_entries memory zero s m = record m { result = loaded }
load_entries memory (suc n) s m = elim (load_one memory s) [
  | stop r ↦ record m { result = r }
  | next e rest ↦ load_entries memory n rest (record m { log = m.log ++ e ∷ [] })
]

-- The third line and the entries. log.reserve is outside the try block, too.
load_log : Memory → Bytes → Loading → Loading
unfolding load_entries
load_log memory s m = elim (get_line newline s) [
  | none ↦ m
  | some (line, rest) ↦ elim (stoull line) [
    | none ↦ m
    | some count ↦
        if leb count memory.entries_limit
        then load_entries memory count rest (record m { log = [] })
        else record m { result = crashed; log = [] }
  ]
]

-- The second line.
load_vote : Memory → Bytes → Loading → Loading
unfolding load_log
load_vote memory s m = elim (get_line newline s) [
  | none ↦ m
  | some (line, rest) ↦ elim (stoi line) [
    | none ↦ m
    | some vote ↦ load_log memory rest (record m { voted_for = vote })
  ]
]

-- deserializeState(data, currentTerm, votedFor, log)
unfoldable pub deserialize_state : Memory → Bytes → ℤ → ℤ → List LogEntry → Loading
unfolding load_vote
deserialize_state memory text term vote log =
    let m : Loading = record {
      result = refused;
      current_term = term;
      voted_for = vote;
      log = log;
    } in
    elim (get_line newline text) [
      | none ↦ m
      | some (line, rest) ↦ elim (stoi line) [
        | none ↦ m
        | some t ↦ load_vote memory rest (record m { current_term = t })
      ]
    ]

-- loadRaftState(currentTerm, votedFor, log)
unfoldable pub load_raft_state : Memory → Persister → ℤ → ℤ → List LogEntry → Loading
load_raft_state memory p term vote log = elim p.state_file [
  | none ↦ record { result = refused; current_term = term; voted_for = vote; log = log }
  | some [] ↦ record { result = refused; current_term = term; voted_for = vote; log = log }
  | some (b ∷ text) ↦ deserialize_state memory (b ∷ text) term vote log
]

-- exists()
unfoldable pub exists : Persister → Bool
exists p = elim p.state_file [ none ↦ false | some _ ↦ true ]

-- clear(), where the argument says if the file system lets the state file be removed.
unfoldable pub clear : Bool → Persister → Persister × Bool
clear true p = (record p { state_file = none; temp_file = none }, true)
clear false p = elim p.state_file [
  | none ↦ (record p { temp_file = none }, true)
  | some _ ↦ (p, false)
]
