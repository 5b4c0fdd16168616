-- ===== src/Tests/Codecs.antt =====
-- Texts of messages, state files and commands.
use my_raft_kvdb.Base.{
  ◌≡◌, ◌≢◌, refl, ◌⊎◌, arith, true, false, some, [], ◌∷◌, ◌++◌, ℤ, pos, minus_one, List,
}
use my_raft_kvdb.Command.{Command, put, print_command, parse_command}
use my_raft_kvdb.Command.RoundTrip.{
  IsPrintable, parse_command-print_command, print_command-parse_command, colon_in_key,
}
use my_raft_kvdb.Log.{LogEntry, serialize}
use my_raft_kvdb.Log.Codec.{IsStorable, AllStorable, all_nil, all_cons}
use my_raft_kvdb.Messages.{AppendEntriesReply}
use my_raft_kvdb.Messages.Codec.{serialize_append_args, deserialize_append_args}
use my_raft_kvdb.Messages.RoundTrip.{IsSendable, append_args_roundtrip}
use my_raft_kvdb.Node.{follower, sentinel}
use my_raft_kvdb.Node.Election.{start_election}
use my_raft_kvdb.Node.Restore.{restored}
use my_raft_kvdb.Persister.{Persister, save_raft_state}
use my_raft_kvdb.Persister.Load.{loaded, crashed, load_raft_state}
use my_raft_kvdb.Persister.RoundTrip.{IsStorableState, load-save, load_raft_state_crash}
use my_raft_kvdb.Run.{election_timeout, run, step}
use my_raft_kvdb.Run.Restart.{restart, restart-run}
use my_raft_kvdb.Tests.Nodes.{noon, put_a, put_b, put_c, append_c, disk}
use my_raft_kvdb.Tests.Runs.{stored, stored-IsSaved}
use my_raft_kvdb.Text.{codes, print_int, print_nat}
use my_raft_kvdb.Text.Numbers.{IsInt}
use my_raft_kvdb.Text.Scan.{Memory}

abbrev pub memory : Memory
memory = record { string_limit = 1000; entries_limit = 100 }

put_a-IsStorable : IsStorable memory put_a
unfolding serialize print_int
put_a-IsStorable = record {
  term_IsInt = omega arith;
  index_IsInt = omega arith;
  fits_word = omega arith;
  fits_memory = omega arith;
}

put_b-IsStorable : IsStorable memory put_b
unfolding serialize print_int
put_b-IsStorable = record {
  term_IsInt = omega arith;
  index_IsInt = omega arith;
  fits_word = omega arith;
  fits_memory = omega arith;
}

put_c-IsStorable : IsStorable memory put_c
unfolding serialize print_int
put_c-IsStorable = record {
  term_IsInt = omega arith;
  index_IsInt = omega arith;
  fits_word = omega arith;
  fits_memory = omega arith;
}

sentinel-IsStorable : IsStorable memory sentinel
unfolding serialize print_int
sentinel-IsStorable = record {
  term_IsInt = omega arith;
  index_IsInt = omega arith;
  fits_word = omega arith;
  fits_memory = omega arith;
}

pub append_c-IsSendable : IsSendable memory append_c
append_c-IsSendable = record {
  term_IsInt = omega arith;
  leader_IsInt = omega arith;
  prev_index_IsInt = omega arith;
  prev_term_IsInt = omega arith;
  commit_IsInt = omega arith;
  count_IsInt = omega arith;
  count_fits = omega arith;
  entries_AllStorable = all_cons put_c-IsStorable all_nil;
}

append_args_roundtrip_example :
    deserialize_append_args memory (serialize_append_args append_c) ≡ some append_c
append_args_roundtrip_example = append_args_roundtrip memory append_c append_c-IsSendable

abbrev refusal : AppendEntriesReply
refusal = record {
  term = pos 3;
  success = false;
  conflict_index = pos 2;
  conflict_term = minus_one;
}

abbrev log_one : List LogEntry
log_one = sentinel ∷ put_a ∷ put_b ∷ []

log_one-AllStorable : AllStorable memory log_one
log_one-AllStorable =
    all_cons sentinel-IsStorable (all_cons put_a-IsStorable (all_cons put_b-IsStorable all_nil))

state-IsStorableState :
    (term vote : ℤ) → IsInt term → IsInt vote → IsStorableState memory term vote log_one
state-IsStorableState term vote t h = record {
  term_IsInt = t;
  vote_IsInt = h;
  count_fits_word = omega arith;
  count_fits = omega arith;
  log_AllStorable = log_one-AllStorable;
}

load-save_example :
    ((save_raft_state (pos 1) (pos 2) log_one disk).1 ≡ true)
      × (load_raft_state memory
            (save_raft_state (pos 1) (pos 2) log_one disk).0
            (pos 0)
            minus_one
            []
          ≡ record { result = loaded; current_term = pos 1; voted_for = pos 2; log = log_one })
    ⊎ ((save_raft_state (pos 1) (pos 2) log_one disk).1 ≡ false)
      × (load_raft_state memory
            (save_raft_state (pos 1) (pos 2) log_one disk).0
            (pos 0)
            minus_one
            []
          ≡ load_raft_state memory disk (pos 0) minus_one [])
load-save_example =
    load-save memory disk (pos 1) (pos 2) log_one (pos 0) minus_one []
      (state-IsStorableState (pos 1) (pos 2) (omega arith) (omega arith))

abbrev corrupted : Persister
corrupted = record disk {
  state_file =
      some (
        print_int (pos 1) ++ b'\n' ∷ (print_int (pos 2) ++ b'\n' ∷ (print_nat 5000 ++ b'\n' ∷ [])));
}

load_raft_state_crash_example :
    (load_raft_state memory corrupted (pos 0) minus_one []).result ≡ crashed
load_raft_state_crash_example =
    load_raft_state_crash memory corrupted (pos 1) (pos 2) 5000 [] (pos 0) minus_one []
      (omega arith) (omega arith) (omega arith) (omega arith) refl

restart-run_example :
    let m = run (election_timeout noon ∷ []) stored in
    let (m', result) = restart memory noon [] m in
    (result ≡ restored)
    × (m'.current_term ≡ m.current_term)
    × (m'.voted_for ≡ m.voted_for)
    × (m'.log ≡ m.log)
    × (m'.state ≡ follower)
    × (m'.commit_index ≡ pos 0)
    × (m'.last_applied ≡ pos 0)
restart-run_example =
    restart-run memory noon [] (election_timeout noon ∷ []) stored (tt, tt) stored-IsSaved
      (unfold run in
        unfold step in
        unfold start_election in state-IsStorableState (pos 2) (pos 1) (omega arith) (omega arith))
      (unfold run in unfold step in unfold start_election in omega arith)

abbrev put_x : Command
put_x = record { type = put; key = codes "x"; value = codes "1:2" }

put_x-IsPrintable : IsPrintable put_x
put_x-IsPrintable = (cc, refl)

parse_command-print_command_example : parse_command (print_command put_x) ≡ some put_x
parse_command-print_command_example = parse_command-print_command put_x put_x-IsPrintable

print_command-parse_command_example :
    IsPrintable put_x × (print_command put_x ≡ print_command put_x)
print_command-parse_command_example =
    print_command-parse_command (print_command put_x) put_x
      (parse_command-print_command put_x put_x-IsPrintable)

a-ne-nil : codes "a" ≢ []
a-ne-nil = ground arith

colon_in_key_example :
    parse_command (print_command (record { type = put; key = codes "a:b"; value = codes "1" }))
    ≡ some (record { type = put; key = codes "a"; value = codes "b:1" })
colon_in_key_example = colon_in_key (codes "a") (codes "b") (codes "1") a-ne-nil refl
