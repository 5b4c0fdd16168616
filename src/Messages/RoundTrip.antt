-- ===== src/Messages/RoundTrip.antt =====
-- include/raft/rpc_messages.h: each message is read back from its text.
use my_raft_kvdb.Base.{
  ℕ, ◌^◌, ◌<◌, ◌≤◌, ◌≡◌, refl, ap, Bool, true, false, some, List, [], ◌∷◌, ◌++◌, length, pos, arith,
  append-nil,
}
use my_raft_kvdb.Log.{LogEntry, serialize}
use my_raft_kvdb.Log.Codec.{AllStorable, all_nil, all_cons, deserialize-serialize_end}
use my_raft_kvdb.Messages.{RequestVoteArgs, RequestVoteReply, AppendEntriesArgs, AppendEntriesReply}
use my_raft_kvdb.Messages.Codec.{
  print_flag, newline, serialize_vote_args, parse_vote_args, deserialize_vote_args,
  serialize_vote_reply, parse_vote_reply, deserialize_vote_reply, serialize_entry_fields,
  serialize_append_args, parse_entries, reserve, parse_append_args, deserialize_append_args,
  serialize_append_reply, parse_append_reply, deserialize_append_reply,
}
use my_raft_kvdb.Text.{Bytes, print_int, print_nat, same_bytes}
use my_raft_kvdb.Text.Numbers.{
  IsInt, get_line-print_nat, get_line-print_int, get_line-last_int, stoi-print_int,
  stoull-print_nat, read_string-append,
}
use my_raft_kvdb.Text.Scan.{skip_byte, get_line, until, stoi, Memory, result_of}

pub record IsIntVote (a : RequestVoteArgs) : Type 0 where
  pub term_IsInt : IsInt a.term
  pub candidate_IsInt : IsInt a.candidate_id
  pub last_index_IsInt : IsInt a.last_log_index
  pub last_term_IsInt : IsInt a.last_log_term

parse_vote_args_lem :
    (a : RequestVoteArgs) → IsIntVote a → parse_vote_args (serialize_vote_args a) ≡ some (a, [])
unfolding parse_vote_args serialize_vote_args
parse_vote_args_lem a h = grind (
  arith,
  get_line-print_int b'|' a.term _ refl,
  get_line-print_int b'|' a.candidate_id _ refl,
  get_line-print_int b'|' a.last_log_index _ refl,
  get_line-last_int newline a.last_log_term refl,
  stoi-print_int a.term h.term_IsInt,
  stoi-print_int a.candidate_id h.candidate_IsInt,
  stoi-print_int a.last_log_index h.last_index_IsInt,
  stoi-print_int a.last_log_term h.last_term_IsInt,
)

-- A RequestVote message whose integers fit an int is read back from its text.
pub vote_args_roundtrip :
    (a : RequestVoteArgs) → IsIntVote a → deserialize_vote_args (serialize_vote_args a) ≡ some a
unfolding deserialize_vote_args
vote_args_roundtrip a h = ap result_of (parse_vote_args_lem a h)

parse_vote_reply_lem :
    (r : RequestVoteReply) → IsInt r.term → parse_vote_reply (serialize_vote_reply r) ≡ some (r, [])
unfolding parse_vote_reply serialize_vote_reply get_line until same_bytes
parse_vote_reply_lem r h =
    grind (arith, get_line-print_int b'|' r.term _ refl, stoi-print_int r.term h)

-- A RequestVote reply whose term fits an int is read back from its text.
pub vote_reply_roundtrip :
    (r : RequestVoteReply) → IsInt r.term → deserialize_vote_reply (serialize_vote_reply r) ≡ some r
unfolding deserialize_vote_reply
vote_reply_roundtrip r h = ap result_of (parse_vote_reply_lem r h)

pub record IsIntReply (r : AppendEntriesReply) : Type 0 where
  pub term_IsInt : IsInt r.term
  pub conflict_index_IsInt : IsInt r.conflict_index
  pub conflict_term_IsInt : IsInt r.conflict_term

get_line-flag :
    (flag : Bool) (s : Bytes)
    → get_line b'|' (print_flag flag ++ b'|' ∷ s) ≡ some (print_flag flag, s)
unfolding get_line until
get_line-flag true s = refl
get_line-flag false s = refl

parse_append_reply_lem :
    (r : AppendEntriesReply)
    → IsIntReply r
    → parse_append_reply (serialize_append_reply r) ≡ some (r, [])
unfolding parse_append_reply serialize_append_reply same_bytes
parse_append_reply_lem r h = grind (
  arith,
  get_line-print_int b'|' r.term _ refl,
  get_line-flag r.success _,
  get_line-print_int b'|' r.conflict_index _ refl,
  get_line-last_int newline r.conflict_term refl,
  stoi-print_int r.term h.term_IsInt,
  stoi-print_int r.conflict_index h.conflict_index_IsInt,
  stoi-print_int r.conflict_term h.conflict_term_IsInt,
)

-- An AppendEntries reply whose integers fit an int is read back from its text.
pub append_reply_roundtrip :
    (r : AppendEntriesReply)
    → IsIntReply r
    → deserialize_append_reply (serialize_append_reply r) ≡ some r
unfolding deserialize_append_reply
append_reply_roundtrip r h = ap result_of (parse_append_reply_lem r h)

parse_entries_lem :
    (memory : Memory) (es : List LogEntry)
    → AllStorable memory es
    → parse_entries memory (length es) (skip_byte (serialize_entry_fields es)) ≡ some (es, [])
unfolding parse_entries serialize_entry_fields
parse_entries_lem memory [] h = refl
parse_entries_lem memory (e ∷ []) (all_cons h all_nil) = grind (
  arith,
  get_line-print_nat b'|' (length (serialize e)) _ refl,
  stoull-print_nat (length (serialize e)) h.fits_word,
  read_string-append memory (serialize e) [] h.fits_memory,
  deserialize-serialize_end memory e h,
)
parse_entries_lem memory (e ∷ e' ∷ rest) (all_cons h hs) = grind (
  arith,
  get_line-print_nat b'|' (length (serialize e)) _ refl,
  stoull-print_nat (length (serialize e)) h.fits_word,
  read_string-append memory (serialize e) _ h.fits_memory,
  deserialize-serialize_end memory e h,
  parse_entries_lem memory (e' ∷ rest) hs,
)

-- The field that holds the number of entries, with or without entries behind it.
get_line-count :
    (n : ℕ) (es : List LogEntry)
    → get_line b'|' (print_nat n ++ serialize_entry_fields es)
      ≡ some (print_nat n, skip_byte (serialize_entry_fields es))
unfolding serialize_entry_fields print_int
get_line-count n [] = rw (append-nil (print_nat n)) (get_line-last_int b'|' (pos n) refl)
get_line-count n (e ∷ es) = get_line-print_nat b'|' n _ refl

-- The integers fit an int, and the entries the memory.
pub record IsSendable (memory : Memory) (a : AppendEntriesArgs) : Type 0 where
  pub term_IsInt : IsInt a.term
  pub leader_IsInt : IsInt a.leader_id
  pub prev_index_IsInt : IsInt a.prev_log_index
  pub prev_term_IsInt : IsInt a.prev_log_term
  pub commit_IsInt : IsInt a.leader_commit
  pub count_IsInt : length a.entries < 2 ^ 31
  pub count_fits : length a.entries ≤ memory.entries_limit
  pub entries_AllStorable : AllStorable memory a.entries

stoi-print_nat : (n : ℕ) → n < 2 ^ 31 → stoi (print_nat n) ≡ some (pos n)
unfolding print_int
stoi-print_nat n h = stoi-print_int (pos n) (h, omega arith)

parse_append_args_lem :
    (memory : Memory) (a : AppendEntriesArgs)
    → IsSendable memory a
    → parse_append_args memory (serialize_append_args a) ≡ some (a, [])
unfolding parse_append_args serialize_append_args reserve
parse_append_args_lem memory a h = grind (
  arith,
  get_line-print_int b'|' a.term _ refl,
  get_line-print_int b'|' a.leader_id _ refl,
  get_line-print_int b'|' a.prev_log_index _ refl,
  get_line-print_int b'|' a.prev_log_term _ refl,
  get_line-print_int b'|' a.leader_commit _ refl,
  get_line-count (length a.entries) a.entries,
  stoi-print_int a.term h.term_IsInt,
  stoi-print_int a.leader_id h.leader_IsInt,
  stoi-print_int a.prev_log_index h.prev_index_IsInt,
  stoi-print_int a.prev_log_term h.prev_term_IsInt,
  stoi-print_int a.leader_commit h.commit_IsInt,
  stoi-print_nat (length a.entries) h.count_IsInt,
  parse_entries_lem memory a.entries h.entries_AllStorable,
)

-- An AppendEntries message is read back from its text, whatever bytes its commands contain, if its
-- integers and the number of its entries fit an int and its entries fit the memory.
pub append_args_roundtrip :
    (memory : Memory) (a : AppendEntriesArgs)
    → IsSendable memory a
    → deserialize_append_args memory (serialize_append_args a) ≡ some a
unfolding deserialize_append_args
append_args_roundtrip memory a h = ap result_of (parse_append_args_lem memory a h)
