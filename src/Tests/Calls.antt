-- ===== src/Tests/Calls.antt =====
-- Remote calls to the sample nodes over a transport that loses the first request.
use my_raft_kvdb.Base.{◌≡◌, refl, arith, true, some, pos, minus_one}
use my_raft_kvdb.Log.{serialize}
use my_raft_kvdb.Messages.Codec.{
  serialize_append_args, serialize_append_reply, serialize_entry_fields,
}
use my_raft_kvdb.Node.Append.{
  handle_append_entries, log_conflict, accept_leader, take_entries, advance_commit, merge_log,
  merge_entries, merge_one,
}
use my_raft_kvdb.Node.Apply.{
  apply_committed_entries, apply_loop, apply_one, run_callback, deliver, complete,
}
use my_raft_kvdb.Rpc.{send_append_entries}
use my_raft_kvdb.Rpc.Exchange.{transport, send_append_entries_lem}
use my_raft_kvdb.Tests.Codecs.{memory, append_c-IsSendable}
use my_raft_kvdb.Tests.Nodes.{noon, node_one, append_c, record_command}
use my_raft_kvdb.Text.{Bytes, codes, print_int}

abbrev what : Bytes → Bytes
what payload = codes "Invalid format"

send_append_entries_lem_example :
    send_append_entries (transport memory what noon) (λ t. t) 3 append_c (1, node_one) ≡ (
      (0, (handle_append_entries noon append_c node_one).0),
      some (record {
        term = pos 2;
        success = true;
        conflict_index = minus_one;
        conflict_term = minus_one;
      }),
    )
unfolding handle_append_entries log_conflict accept_leader take_entries advance_commit merge_log
    merge_entries merge_one apply_committed_entries apply_loop apply_one run_callback deliver
    complete record_command print_int serialize_entry_fields serialize_append_reply
send_append_entries_lem_example =
    send_append_entries_lem memory what noon append_c node_one
      (handle_append_entries noon append_c node_one).0
      (record {
        term = pos 2;
        success = true;
        conflict_index = minus_one;
        conflict_term = minus_one;
      })
      3 1 append_c-IsSendable refl
      (record {
        term_IsInt = omega arith;
        conflict_index_IsInt = omega arith;
        conflict_term_IsInt = omega arith;
      })
      (unfold serialize_append_args serialize in omega arith) (omega arith) (omega arith)
