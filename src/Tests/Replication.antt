-- ===== src/Tests/Replication.antt =====
-- Elections, replication and commitment on the sample nodes.
use my_raft_kvdb.Base.{
  ◌≡◌, refl, arith, ◌||◌, false, true, false, some, [], ◌∷◌, pos, minus_one, take, get_or,
}
use my_raft_kvdb.Cluster.Members.{IsDistinct}
use my_raft_kvdb.Messages.{AppendEntriesArgs, AppendEntriesReply, RequestVoteReply}
use my_raft_kvdb.Node.{sentinel, is_leader, is_log_up_to_date}
use my_raft_kvdb.Node.Apply.{run_callback, apply_committed_entries}
use my_raft_kvdb.Node.Apply.Order.{apply_committed_entries-Applied}
use my_raft_kvdb.Node.Append.{
  handle_append_entries, log_conflict, accept_leader, take_entries, advance_commit, merge_log,
  merge_entries,
}
use my_raft_kvdb.Node.Append.Conflict.{Refused, Refused-handle_append_entries}
use my_raft_kvdb.Node.Append.Outcome.{
  succeeded, log-handle_append_entries, succeeded-handle_append_entries,
}
use my_raft_kvdb.Node.Append.Replicate.{replicate_log}
use my_raft_kvdb.Node.Append.Revote.{votes_again}
use my_raft_kvdb.Node.Election.{handle_request_vote, handle_vote_response}
use my_raft_kvdb.Node.Election.Majority.{handle_vote_response-elected}
use my_raft_kvdb.Node.Election.Votes.{vote_granted_iff}
use my_raft_kvdb.Node.Leader.{
  commit_loop, create_append_entries_args, update_commit_index, handle_append_entries_response,
  append_log_entry, peer_position,
}
use my_raft_kvdb.Node.Leader.Commit.{IsNextCommit, update_commit_index_lem}
use my_raft_kvdb.Node.Leader.Stale.{unsent_entry_matched}
use my_raft_kvdb.Text.{codes}
use my_raft_kvdb.Tests.Nodes.{
  noon, record_command, put_a, put_c, node_one, node_two, node_three, ask, append_c, heartbeat,
}

vote_granted_iff_example :
    (handle_request_vote noon (ask (pos 1) (pos 2)) node_one).1.vote_granted ≡ true
vote_granted_iff_example = vote_granted_iff noon (ask (pos 1) (pos 2)) node_one

abbrev elected_reply : RequestVoteReply
elected_reply = record { term = pos 1; vote_granted = true }

handle_vote_response-elected_example :
    let (m, elected) = handle_vote_response noon (pos 1) elected_reply node_three in
    (elected ≡ true) × (is_leader m.state ≡ (false || elected)) × IsDistinct m.votes_received
handle_vote_response-elected_example =
    handle_vote_response-elected noon (pos 1) elected_reply node_three (refl, tt)

log-handle_append_entries_example :
    (handle_append_entries noon append_c node_one).0.log ≡ sentinel ∷ put_a ∷ put_c ∷ []
log-handle_append_entries_example =
    log-handle_append_entries noon append_c node_one 1 refl (omega arith)

succeeded-handle_append_entries_example :
    succeeded (handle_append_entries noon append_c node_one).1 ≡ true
succeeded-handle_append_entries_example =
    succeeded-handle_append_entries noon append_c node_one 1 refl

replicate_log_example :
    (succeeded (handle_append_entries noon (create_append_entries_args 0 node_two) node_one).1
      ≡ true)
    × (take 3 (handle_append_entries noon (create_append_entries_args 0 node_two) node_one).0.log
        ≡ sentinel ∷ put_a ∷ put_c ∷ [])
replicate_log_example =
    replicate_log noon 0 1 node_two node_one refl (omega arith) refl (omega arith)
      (refl, (refl, (refl, tt))) (omega arith) refl ((λ e. cc), tt)

-- A message whose previous entry is of another term than the entry at its place.
abbrev append_behind : AppendEntriesArgs
append_behind = record append_c { prev_log_index = pos 2; prev_log_term = pos 2 }

abbrev refusal : AppendEntriesReply
refusal = record { term = pos 2; success = false; conflict_index = pos 1; conflict_term = pos 1 }

append_behind_refused : (handle_append_entries noon append_behind node_one).1 ≡ some refusal
unfolding handle_append_entries log_conflict accept_leader
append_behind_refused = refl

Refused-handle_append_entries_example : Refused append_behind node_one 1 refusal
Refused-handle_append_entries_example =
    Refused-handle_append_entries noon append_behind node_one 1 refusal refl append_behind_refused
      refl

apply_committed_entries-Applied_example :
    let n = record node_one { commit_index = pos 2 } in
    ((apply_committed_entries n).1 ≡ false)
    × ((apply_committed_entries n).0.machine ≡ codes "PUT:a:1" ∷ codes "PUT:b:2" ∷ [])
    × ((apply_committed_entries n).0.last_applied ≡ pos 2)
unfolding record_command run_callback
apply_committed_entries-Applied_example =
    apply_committed_entries-Applied 2 0 (record node_one { commit_index = pos 2 }) refl refl
      (omega arith)

update_commit_index_lem_example :
    IsNextCommit node_two (pos 2) (update_commit_index node_two).commit_index
update_commit_index_lem_example = update_commit_index_lem node_two refl

commits_two : (update_commit_index node_two).commit_index ≡ pos 2
unfolding update_commit_index commit_loop
commits_two = refl

votes_again_example :
    (handle_request_vote noon
      (ask (pos 1) (pos 2))
      (handle_append_entries noon heartbeat node_three).0).1.vote_granted
    ≡ true
unfolding is_log_up_to_date handle_append_entries accept_leader take_entries advance_commit
    merge_log merge_entries log_conflict
votes_again_example =
    votes_again noon noon heartbeat (ask (pos 1) (pos 2)) node_three refl refl refl refl

abbrev replied_ok : AppendEntriesReply
replied_ok = record {
  term = pos 2;
  success = true;
  conflict_index = minus_one;
  conflict_term = minus_one;
}

unsent_entry_matched_example :
    get_or
      (handle_append_entries_response noon
        (pos 3)
        replied_ok
        (append_log_entry (codes "PUT:d:4") node_two).0).0.match_index
      1
      (pos 0)
    ≡ pos 3
unfolding peer_position
unsent_entry_matched_example =
    unsent_entry_matched noon (pos 3) 1 (codes "PUT:d:4") replied_ok node_two refl refl
      (omega arith) refl refl
