-- ===== src/Messages/Codec.antt =====
-- include/raft/rpc_messages.h: serialize and deserialize of the four messages. `none` stands for the
-- exception std::invalid_argument.
use my_raft_kvdb.Base.{
  ℕ, zero, suc, Bool, Option, none, some, List, [], ◌∷◌, ◌++◌, length, leb, if◌then◌else◌, ℤ, pos,
  negsuc,
}
use my_raft_kvdb.Log.{LogEntry, serialize}
use my_raft_kvdb.Log.Codec.{deserialize}
use my_raft_kvdb.Messages.{RequestVoteArgs, RequestVoteReply, AppendEntriesArgs, AppendEntriesReply}
use my_raft_kvdb.Text.{Bytes, codes, same_bytes, print_int, print_nat}
use my_raft_kvdb.Text.Scan.{
  Parser, ◌>>=◌, give, convert, get_line, skip_byte, stoi, stoull, Memory, read_string, result_of,
}

-- `flag ? "1" : "0"`
abbrev pub print_flag : Bool → Bytes
print_flag flag = if flag then codes "1" else codes "0"

-- std::getline(stream, line) without a delimiter of its own.
abbrev pub newline : ℕ
newline = b'\n'

unfoldable pub serialize_vote_args : RequestVoteArgs → Bytes
serialize_vote_args a =
    print_int a.term
    ++ b'|'
      ∷ (print_int a.candidate_id
          ++ b'|' ∷ (print_int a.last_log_index ++ b'|' ∷ print_int a.last_log_term))

unfoldable pub parse_vote_args : Parser RequestVoteArgs
parse_vote_args = do
  term_str ← get_line b'|'
  cid_str ← get_line b'|'
  lli_str ← get_line b'|'
  llt_str ← get_line newline
  term ← convert (stoi term_str)
  cid ← convert (stoi cid_str)
  lli ← convert (stoi lli_str)
  llt ← convert (stoi llt_str)
  give (record { term = term; candidate_id = cid; last_log_index = lli; last_log_term = llt })

unfoldable pub deserialize_vote_args : Bytes → Option RequestVoteArgs
unfolding parse_vote_args
deserialize_vote_args s = result_of (parse_vote_args s)

unfoldable pub serialize_vote_reply : RequestVoteReply → Bytes
serialize_vote_reply r = print_int r.term ++ b'|' ∷ print_flag r.vote_granted

unfoldable pub parse_vote_reply : Parser RequestVoteReply
parse_vote_reply = do
  term_str ← get_line b'|'
  granted_str ← get_line newline
  term ← convert (stoi term_str)
  give (record { term = term; vote_granted = same_bytes granted_str (codes "1") })

unfoldable pub deserialize_vote_reply : Bytes → Option RequestVoteReply
unfolding parse_vote_reply
deserialize_vote_reply s = result_of (parse_vote_reply s)

-- Each entry behind its length.
unfoldable pub serialize_entry_fields : List LogEntry → Bytes
serialize_entry_fields [] = []
serialize_entry_fields (e ∷ rest) =
    b'|' ∷ (print_nat (length (serialize e)) ++ b'|' ∷ (serialize e ++ serialize_entry_fields rest))

unfoldable pub serialize_append_args : AppendEntriesArgs → Bytes
serialize_append_args a =
    print_int a.term
    ++ b'|'
      ∷ (print_int a.leader_id
          ++ b'|'
            ∷ (print_int a.prev_log_index
                ++ b'|'
                  ∷ (print_int a.prev_log_term
                      ++ b'|'
                        ∷ (print_int a.leader_commit
                            ++ b'|'
                              ∷ (print_nat (length a.entries)
                                  ++ serialize_entry_fields a.entries)))))

-- Between two entries a byte is skipped.
skip_delimiter : ℕ → Bytes → Bytes
skip_delimiter zero s = s
skip_delimiter (suc _) s = skip_byte s

abbrev skip : ℕ → Parser ℕ
skip n s = some (n, skip_delimiter n s)

-- The loop over the entries, with the number of those still to come.
unfoldable pub parse_entries : Memory → ℕ → Parser (List LogEntry)
unfolding skip_delimiter
parse_entries memory zero = give []
parse_entries memory (suc n) = do
  length_str ← get_line b'|'
  length ← convert (stoull length_str)
  entry_str ← read_string memory length
  _ ← skip n
  entry ← convert (deserialize memory entry_str)
  rest ← parse_entries memory n
  give (entry ∷ rest)

-- entries.reserve(count) throws for a negative number, as a size_t too large, and out of memory.
unfoldable pub reserve : Memory → ℤ → Option ℕ
reserve memory (pos n) = if leb n memory.entries_limit then some n else none
reserve memory (negsuc _) = none

unfoldable pub parse_append_args : Memory → Parser AppendEntriesArgs
parse_append_args memory = do
  term_str ← get_line b'|'
  lid_str ← get_line b'|'
  pli_str ← get_line b'|'
  plt_str ← get_line b'|'
  lc_str ← get_line b'|'
  count_str ← get_line b'|'
  term ← convert (stoi term_str)
  lid ← convert (stoi lid_str)
  pli ← convert (stoi pli_str)
  plt ← convert (stoi plt_str)
  lc ← convert (stoi lc_str)
  count ← convert (stoi count_str)
  n ← convert (reserve memory count)
  entries ← parse_entries memory n
  give (record {
    term = term;
    leader_id = lid;
    prev_log_index = pli;
    prev_log_term = plt;
    entries = entries;
    leader_commit = lc;
  })

unfoldable pub deserialize_append_args : Memory → Bytes → Option AppendEntriesArgs
unfolding parse_append_args
deserialize_append_args memory s = result_of (parse_append_args memory s)

unfoldable pub serialize_append_reply : AppendEntriesReply → Bytes
serialize_append_reply r =
    print_int r.term
    ++ b'|'
      ∷ (print_flag r.success
          ++ b'|' ∷ (print_int r.conflict_index ++ b'|' ∷ print_int r.conflict_term))

unfoldable pub parse_append_reply : Parser AppendEntriesReply
parse_append_reply = do
  term_str ← get_line b'|'
  success_str ← get_line b'|'
  ci_str ← get_line b'|'
  ct_str ← get_line newline
  term ← convert (stoi term_str)
  ci ← convert (stoi ci_str)
  ct ← convert (stoi ct_str)
  give (record {
    term = term;
    success = same_bytes success_str (codes "1");
    conflict_index = ci;
    conflict_term = ct;
  })

unfoldable pub deserialize_append_reply : Bytes → Option AppendEntriesReply
unfolding parse_append_reply
deserialize_append_reply s = result_of (parse_append_reply s)
