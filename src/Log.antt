-- ===== src/Log.antt =====
-- include/raft/log_entry.h: the entries of the Raft log. The log is a vector whose position 0 holds
-- a sentinel.
pub mod Codec
use my_raft_kvdb.Base.{List, [], ◌∷◌, ◌++◌, length, get_or, ℤ, pos, negsuc, pred_ℤ}
use my_raft_kvdb.Text.{Bytes, print_int, print_nat}

pub record LogEntry : Type 0 where
  pub term : ℤ
  pub command : Bytes
  pub index : ℤ

-- LogEntry()
abbrev pub empty_entry : LogEntry
empty_entry = record { term = pos 0; command = []; index = pos 0 }

-- log_[i]. A negative position and one past the end are undefined in C++; here they read the empty
-- entry.
abbrev pub entry_at : List LogEntry → ℤ → LogEntry
entry_at log (pos i) = get_or log i empty_entry
entry_at log (negsuc _) = empty_entry

abbrev pub term_at : List LogEntry → ℤ → ℤ
term_at log i = (entry_at log i).term

-- getLastLogIndex(): log_.size() - 1
abbrev pub last_log_index : List LogEntry → ℤ
last_log_index log = pred_ℤ (pos (length log))

-- log_.back() of a log that is not empty.
abbrev pub last_entry : LogEntry → List LogEntry → LogEntry
last_entry e [] = e
last_entry e (e' ∷ rest) = last_entry e' rest

-- getLastLogTerm()
abbrev pub last_log_term : List LogEntry → ℤ
last_log_term [] = pos 0
last_log_term (e ∷ rest) = (last_entry e rest).term

-- serialize(): "term|index|length|command"
unfoldable pub serialize : LogEntry → Bytes
serialize e =
    print_int e.term
    ++ (b'|' ∷ print_int e.index ++ (b'|' ∷ print_nat (length e.command) ++ (b'|' ∷ e.command)))
