-- ===== src/Tests/Clients.antt =====
-- A cluster of one over a store that is a function from keys to values and a count.
use my_raft_kvdb.Base.{
  ◌≡◌, ◌≢◌, refl, arith, true, false, not, some, none, List, [], ◌∷◌, ◌++◌, ℤ, pos, suc_ℤ, pred_ℤ,
  is_some, if◌then◌else◌,
}
use my_raft_kvdb.Command.{Command, get}
use my_raft_kvdb.KvStore.{SkipListOps, apply_command_with_result}
use my_raft_kvdb.KvStore.Refine.{
  IsSortedMap, Contents, write, spec_command, spec_apply, apply_command_with_result_lem,
}
use my_raft_kvdb.Node.{RaftNode, leader}
use my_raft_kvdb.Node.Apply.{run_callback, apply_committed_entries}
use my_raft_kvdb.Node.Submit.{submit_command, submit_register, submit_finish, gave_up}
use my_raft_kvdb.Node.Submit.Late.{late_command_gives_up}
use my_raft_kvdb.Node.Submit.Single.{submitted, submit_command_single}
use my_raft_kvdb.Service.{Addresses, command_text, handle_request}
use my_raft_kvdb.Service.Poison.{empty_key_throws}
use my_raft_kvdb.Service.Single.{spec_response, handle_request_lem}
use my_raft_kvdb.Tests.Nodes.{node_two, node_one, put_a}
use my_raft_kvdb.Text.{Bytes, codes}

abbrev Store : Type 0
Store = Contents × ℤ

abbrev map_ops : SkipListOps Store
map_ops = record {
  search = λ k m. m.0 k;
  insert = λ k v m.
      ((write k (some v) m.0, if is_some (m.0 k) then m.1 else suc_ℤ m.1), not (is_some (m.0 k)));
  remove =
      λ k m. ((write k none m.0, if is_some (m.0 k) then pred_ℤ m.1 else m.1), is_some (m.0 k));
  get_size = λ m. m.1;
}

map_ops-IsSortedMap : IsSortedMap map_ops
map_ops-IsSortedMap = record {
  search-insert = λ k v k' m. refl;
  search-remove = λ k k' m. refl;
  removed_iff = λ k m. refl;
}

abbrev empty_store : Store
empty_store = ((λ k. none), pos 0)

apply_command_with_result_lem_example :
    ((apply_command_with_result map_ops (codes "PUT:a:1") empty_store).0
      ≡ (spec_apply (codes "PUT:a:1") empty_store.0).0)
    × ((k : Bytes)
        → map_ops.search k (apply_command_with_result map_ops (codes "PUT:a:1") empty_store).1
          ≡ (spec_apply (codes "PUT:a:1") empty_store.0).1 k)
apply_command_with_result_lem_example =
    apply_command_with_result_lem map_ops map_ops-IsSortedMap (codes "PUT:a:1") empty_store

abbrev commands : List Bytes
commands = codes "PUT:a:1" ∷ codes "GET:a" ∷ codes "DELETE:b" ∷ codes "junk" ∷ []

-- A store whose count is wrong holds the same.
abbrev miscounted : Store
miscounted = ((λ k. none), pos 7)

-- The only node of a cluster, whose two entries are applied.
abbrev alone : RaftNode (List Bytes)
alone = record node_one {
  state = leader;
  peer_ids = [];
  next_index = [];
  match_index = [];
  commit_index = pos 2;
  last_applied = pos 2;
}

submit_command_single_example :
    let (m, result) = submit_command (codes "PUT:x:9") alone in
    let (answer, s) = run_callback alone.apply_callback (codes "PUT:x:9") alone.machine in
    (result ≡ submitted answer)
    × (m.machine ≡ s)
    × (m.last_applied ≡ pos 3)
    × (m.commit_index ≡ pos 3)
    × (m.log ≡ alone.log ++ record { term = pos 1; command = codes "PUT:x:9"; index = pos 3 } ∷ [])
submit_command_single_example = submit_command_single (codes "PUT:x:9") alone 2 refl refl refl refl

abbrev with_store : RaftNode Store
with_store = record {
  current_term = alone.current_term;
  voted_for = alone.voted_for;
  log = alone.log;
  commit_index = alone.commit_index;
  last_applied = alone.last_applied;
  next_index = [];
  match_index = [];
  node_id = alone.node_id;
  peer_ids = [];
  state = leader;
  leader_id = alone.leader_id;
  votes_received = [];
  current_election_term = alone.current_election_term;
  last_heartbeat_time = 900;
  last_heartbeat_sent = 900;
  election_timeout = 200;
  heartbeat_interval = 50;
  apply_callback = some (apply_command_with_result map_ops);
  machine = empty_store;
  pending_commands = [];
  persister = none;
  needs_persist = false;
}

abbrev addresses : Addresses
addresses = record { own = codes "localhost:5001"; peers = [] }

abbrev get_a : Command
get_a = record { type = get; key = codes "a"; value = [] }

a-ne-nil : codes "a" ≢ []
a-ne-nil = ground arith

handle_request_lem_example :
    let (m, r) =
      handle_request addresses
        (record { operation = some get; key = codes "a"; value = [] })
        with_store in
    (r ≡ some (spec_response get_a empty_store.0))
    × ((x : Bytes) → map_ops.search x m.machine ≡ (spec_command get_a empty_store.0).1 x)
handle_request_lem_example =
    handle_request_lem map_ops map_ops-IsSortedMap addresses get (codes "a") [] with_store 2
      (a-ne-nil, refl) refl refl refl refl refl

-- The second entry comes from a GET with an empty key.
abbrev poisoned : RaftNode Store
poisoned = record with_store {
  log =
      put_a ∷ put_a ∷ record { term = pos 1; command = command_text get [] []; index = pos 2 } ∷ [];
  last_applied = pos 1;
}

empty_key_throws_example :
    apply_committed_entries poisoned ≡ (record poisoned { last_applied = pos 2 }, true)
empty_key_throws_example =
    empty_key_throws map_ops get [] poisoned 1 2 refl refl refl (omega arith) (omega arith) refl

-- A leader of three nodes that has applied its two entries before the second is registered.
abbrev ahead : RaftNode (List Bytes)
ahead = record node_two { commit_index = pos 2; last_applied = pos 2 }

late_command_gives_up_example :
    (submit_finish
      (pos 2)
      (apply_committed_entries (submit_register (pos 2) (codes "PUT:c:3") ahead)).0).1
    ≡ gave_up
late_command_gives_up_example = late_command_gives_up (codes "PUT:c:3") 2 2 ahead refl (omega arith)
