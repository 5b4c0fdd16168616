-- ===== src/Tests/Runs.antt =====
-- Histories of calls on the sample nodes.
use my_raft_kvdb.Base.{
  ◌≡◌, refl, arith, true, false, some, List, [], ◌∷◌, ◌++◌, pos, minus_one, ◌≤ℤ◌,
}
use my_raft_kvdb.Tests.Nodes.{noon, node_one, node_two, ask, append_c, disk}
use my_raft_kvdb.Run.{
  Event, request_vote, append_entries, election_timeout, client_command, persist_save,
  persist_clear, run, step,
}
use my_raft_kvdb.Run.Votes.{IsConsistent, votes, votes-IsConsistent}
use my_raft_kvdb.Run.Durable.{run-IsSaved, save_lost}
use my_raft_kvdb.Run.Saved.{IsSaved, file_of}
use my_raft_kvdb.Run.Terms.{run-term}
use my_raft_kvdb.Run.Valid.{IsValid, IsInOrder, run-IsValid}
use my_raft_kvdb.Node.{RaftNode}
use my_raft_kvdb.Node.Election.{handle_request_vote, start_election}
use my_raft_kvdb.Persister.{serialize_state}
use my_raft_kvdb.Text.{Bytes, codes}

-- Node 2 and node 3 ask for the vote of term 1, then the node starts an election of its own.
abbrev contest : List Event
contest =
    request_vote noon (ask (pos 1) (pos 2))
    ∷ request_vote noon (ask (pos 1) (pos 3))
    ∷ election_timeout noon
    ∷ []

votes-IsConsistent_example : IsConsistent (votes contest node_one)
unfolding step handle_request_vote start_election
votes-IsConsistent_example =
    votes-IsConsistent contest node_one ((λ e. cc), ((λ e. cc), ((λ e. cc), tt)))

run-term_example : pos 1 ≤ℤ (run contest node_one).current_term
run-term_example = run-term contest node_one

node_one-IsValid : IsValid node_one
node_one-IsValid = omega arith

run-IsValid_example : IsInOrder (run (append_entries noon append_c ∷ contest) node_one)
run-IsValid_example =
    run-IsValid (append_entries noon append_c ∷ contest) node_one
      (omega arith, (tt, (tt, (tt, tt)))) (node_one-IsValid, refl)

-- `node_one` with its state on disk.
abbrev pub stored : RaftNode (List Bytes)
stored = record node_one {
  persister = some (record disk {
    state_file = some (serialize_state node_one.current_term node_one.voted_for node_one.log);
  });
}

pub stored-IsSaved : IsSaved stored
stored-IsSaved = record { healthy = refl; on_disk = refl }

run-IsSaved_example : IsSaved (run (append_entries noon append_c ∷ contest) stored)
run-IsSaved_example =
    run-IsSaved (append_entries noon append_c ∷ contest) stored (tt, (tt, (tt, (tt, tt))))
      stored-IsSaved

abbrev pending : RaftNode (List Bytes)
pending = record node_two { needs_persist = true }

save_lost_example :
    let m =
      run
        (persist_save ∷ client_command (codes "PUT:d:4") ∷ persist_clear ∷ persist_save ∷ [])
        pending in
    (m.log ≡ node_two.log ++ record { term = pos 2; command = codes "PUT:d:4"; index = pos 3 } ∷ [])
    × (file_of m.persister ≡ some (serialize_state (pos 2) minus_one node_two.log))
    × (m.needs_persist ≡ false)
save_lost_example = save_lost (codes "PUT:d:4") pending refl refl refl
