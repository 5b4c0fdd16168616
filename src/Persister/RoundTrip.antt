-- ===== src/Persister/RoundTrip.antt =====
-- src/storage/persister.cpp: what a save wrote is what the next load reads, and a save that fails
-- leaves the file that was there.
use my_raft_kvdb.Base.{
  ℕ, ◌^◌, ◌<◌, ◌≤◌, ◌≡◌, ◌≢◌, refl, ap, ◌⊎◌, inl, inr, true, false, some, List, [], ◌∷◌, ◌++◌,
  length, ℤ, arith, append_assoc, append-nil,
}
use my_raft_kvdb.Log.{LogEntry, serialize}
use my_raft_kvdb.Log.Codec.{AllStorable, all_cons, deserialize-serialize_end}
use my_raft_kvdb.Persister.{
  Persister, serialize_entries, serialize_state, write_files, save_raft_state,
}
use my_raft_kvdb.Persister.Load.{
  Loading, loaded, refused, crashed, load_entries, deserialize_state, load_raft_state,
}
use my_raft_kvdb.Text.{Bytes, print_int, print_nat}
use my_raft_kvdb.Text.Numbers.{
  IsInt, get_line-print_nat, get_line-print_int, stoi-print_int, stoull-print_nat,
  read_exactly-append,
}
use my_raft_kvdb.Text.Scan.{get_line, Memory}

load_entries_lem :
    (memory : Memory) (es : List LogEntry) (m : Loading)
    → AllStorable memory es
    → load_entries memory (length es) (serialize_entries es) m
      ≡ record m { result = loaded; log = m.log ++ es }
unfolding load_entries serialize_entries
load_entries_lem memory [] m h = rw (append-nil m.log) refl
load_entries_lem memory (e ∷ es) m (all_cons h hs) = grind (
  arith,
  get_line-print_nat b'\n' (length (serialize e)) _ refl,
  stoull-print_nat (length (serialize e)) h.fits_word,
  h.fits_memory,
  read_exactly-append (serialize e) (serialize_entries es),
  deserialize-serialize_end memory e h,
  append_assoc m.log (e ∷ []) es,
  load_entries_lem memory es (record m { log = m.log ++ e ∷ [] }) hs,
)

-- A term, a vote and a log that fit their types and the memory.
pub record IsStorableState (memory : Memory) (term voted_for : ℤ) (log : List LogEntry)
    : Type 0 where
  pub term_IsInt : IsInt term
  pub vote_IsInt : IsInt voted_for
  pub count_fits_word : length log < 2 ^ 64
  pub count_fits : length log ≤ memory.entries_limit
  pub log_AllStorable : AllStorable memory log

pub deserialize_state-serialize_state :
    (memory : Memory) (term vote : ℤ) (log : List LogEntry) (t0 v0 : ℤ) (log0 : List LogEntry)
    → IsStorableState memory term vote log
    → deserialize_state memory (serialize_state term vote log) t0 v0 log0
      ≡ record { result = loaded; current_term = term; voted_for = vote; log = log }
unfolding deserialize_state serialize_state
deserialize_state-serialize_state memory term vote log t0 v0 log0 h = grind (
  arith,
  get_line-print_int b'\n' term _ refl,
  get_line-print_int b'\n' vote _ refl,
  get_line-print_nat b'\n' (length log) (serialize_entries log) refl,
  stoi-print_int term h.term_IsInt,
  stoi-print_int vote h.vote_IsInt,
  stoull-print_nat (length log) h.count_fits_word,
  h.count_fits,
  load_entries_lem memory log
      (record { result = refused; current_term = term; voted_for = vote; log = [] })
      h.log_AllStorable,
)

-- A state file is not empty.
load_text :
    (memory : Memory) (p : Persister) (text : Bytes) (t0 v0 : ℤ) (log0 : List LogEntry)
    (m : Loading)
    → p.state_file ≡ some text
    → deserialize_state memory text t0 v0 log0 ≡ m
    → m.result ≢ refused
    → load_raft_state memory p t0 v0 log0 ≡ m
unfolding load_raft_state deserialize_state get_line
load_text memory p [] t0 v0 log0 m f e r = ground arith
load_text memory p (b ∷ text) t0 v0 log0 m f e r = rw f e

-- What the state file holds is what is loaded.
pub load_raft_state_lem :
    (memory : Memory) (p : Persister) (term vote : ℤ) (log : List LogEntry) (t0 v0 : ℤ)
    (log0 : List LogEntry)
    → IsStorableState memory term vote log
    → p.state_file ≡ some (serialize_state term vote log)
    → load_raft_state memory p t0 v0 log0
      ≡ record { result = loaded; current_term = term; voted_for = vote; log = log }
load_raft_state_lem memory p term vote log t0 v0 log0 h f =
    load_text memory p _ t0 v0 log0 _ f
      (deserialize_state-serialize_state memory term vote log t0 v0 log0 h) (ground arith)

save_raft_state_lem :
    (p : Persister) (term vote : ℤ) (log : List LogEntry)
    → let (p', ok) = save_raft_state term vote log p in
      ((ok ≡ true) × (p'.state_file ≡ some (serialize_state term vote log)))
      ⊎ ((ok ≡ false) × (p'.state_file ≡ p.state_file))
unfolding save_raft_state write_files
save_raft_state_lem p term vote log = ground arith

load-same_file :
    (memory : Memory) (p p' : Persister) (t0 v0 : ℤ) (log0 : List LogEntry)
    → p'.state_file ≡ p.state_file
    → load_raft_state memory p' t0 v0 log0 ≡ load_raft_state memory p t0 v0 log0
unfolding load_raft_state
load-same_file memory p p' t0 v0 log0 e = rw e refl

-- For a term, a vote and a log that fit their types and the memory: a save either reports success,
-- and the next load gives what was saved, or reports failure, and the next load gives what it would
-- have given before the save.
pub load-save :
    (memory : Memory) (p : Persister) (term vote : ℤ) (log : List LogEntry) (t0 v0 : ℤ)
    (log0 : List LogEntry)
    → IsStorableState memory term vote log
    → let (p', ok) = save_raft_state term vote log p in
      ((ok ≡ true)
        × (load_raft_state memory p' t0 v0 log0
            ≡ record { result = loaded; current_term = term; voted_for = vote; log = log }))
      ⊎ ((ok ≡ false)
          × (load_raft_state memory p' t0 v0 log0 ≡ load_raft_state memory p t0 v0 log0))
load-save memory p term vote log t0 v0 log0 h = elim (save_raft_state_lem p term vote log) [
  | inl (ok, f) ↦ inl (ok, load_raft_state_lem memory _ term vote log t0 v0 log0 h f)
  | inr (failed, f) ↦ inr (failed, load-same_file memory p _ t0 v0 log0 f)
]

deserialize_state_crash :
    (memory : Memory) (term vote : ℤ) (count : ℕ) (rest : Bytes) (t0 v0 : ℤ) (log0 : List LogEntry)
    → IsInt term
    → IsInt vote
    → count < 2 ^ 64
    → memory.entries_limit < count
    → deserialize_state memory
        (print_int term ++ b'\n' ∷ (print_int vote ++ b'\n' ∷ (print_nat count ++ b'\n' ∷ rest)))
        t0
        v0
        log0
      ≡ record { result = crashed; current_term = term; voted_for = vote; log = [] }
unfolding deserialize_state
deserialize_state_crash memory term vote count rest t0 v0 log0 ht hv hc h = grind (
  arith,
  get_line-print_int b'\n' term _ refl,
  get_line-print_int b'\n' vote _ refl,
  get_line-print_nat b'\n' count rest refl,
  stoi-print_int term ht,
  stoi-print_int vote hv,
  stoull-print_nat count hc,
)

-- A file with a term and a vote that fit an int, and a count of entries that fits a size_t but is
-- above what the memory lets reserve, makes the load throw.
pub load_raft_state_crash :
    (memory : Memory) (p : Persister) (term vote : ℤ) (count : ℕ) (rest : Bytes) (t0 v0 : ℤ)
    (log0 : List LogEntry)
    → IsInt term
    → IsInt vote
    → count < 2 ^ 64
    → memory.entries_limit < count
    → p.state_file
      ≡ some
          (print_int term ++ b'\n' ∷ (print_int vote ++ b'\n' ∷ (print_nat count ++ b'\n' ∷ rest)))
    → (load_raft_state memory p t0 v0 log0).result ≡ crashed
load_raft_state_crash memory p term vote count rest t0 v0 log0 ht hv hc h f = ap Loading.result (
    load_text memory p _ t0 v0 log0 _ f
      (deserialize_state_crash memory term vote count rest t0 v0 log0 ht hv hc h) (ground arith))
