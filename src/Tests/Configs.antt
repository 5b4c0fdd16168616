-- ===== src/Tests/Configs.antt =====
-- A configuration of two servers, the second of them first.
use my_raft_kvdb.Base.{
  ◌≡◌, refl, none, minus_one, [], ltb_ℤ, ◌&&◌, false, true, some, ◌∷◌, ◌++◌, pos, if◌then◌else◌,
}
use my_raft_kvdb.Cluster.Members.{IsDistinct}
use my_raft_kvdb.Command.{split_at}
use my_raft_kvdb.Config.Nodes.{ids, load_from_file-nodes}
use my_raft_kvdb.Config.{
  NodeConfig, ClusterConfig, new_config, load_from_file, get_all_nodes, get_node_config, has_nodes,
  all_nodes, read_lines, read_line, section_name, ends_in, read_section, read_value, node_value,
  trim_left, trim_right, set_entry,
}
use my_raft_kvdb.Cluster.{without, vote_request}
use my_raft_kvdb.Log.{last_log_index, last_log_term}
use my_raft_kvdb.Node.Apply.{apply_committed_entries, run_callback}
use my_raft_kvdb.Node.Election.{start_election, handle_vote_response}
use my_raft_kvdb.Run.{run, step}
use my_raft_kvdb.Server.Sending.{all_peers, one_each, ask_each, address_in}
use my_raft_kvdb.Server.Wins.{quiet_turn}
use my_raft_kvdb.Server.{
  send_entries, Network, Process, Peers, peers_of, send_append_entries_to_peers,
  send_request_votes_to_peers, turn, work, run_task, vote_task, entries_task, election_part,
  heartbeat_part, ask_all, send_from, find_peers, set_address, find_address,
}
use my_raft_kvdb.Node.{
  contains, Env, RaftNode, new_node, is_leader, is_candidate, check_election_timeout,
  should_send_heartbeat,
}
use my_raft_kvdb.Text.Scan.{stoi, until, magnitude}
use my_raft_kvdb.Text.{Bytes, codes, same_bytes, print_int}

abbrev two_nodes : Bytes
two_nodes = codes "[node_2] # last" ++ 10 ∷ codes " port = 7 " ++ 10 ∷ codes "[node_1]"

abbrev garbage : NodeConfig
garbage = record { id = pos 99; host = codes "?"; port = pos 98; data_dir = [] }

abbrev loaded : ClusterConfig
loaded = record new_config {
  nodes =
      (pos 1, record { id = pos 1; host = []; port = pos 0; data_dir = [] })
      ∷ (pos 2, record { id = pos 2; host = codes "?"; port = pos 7; data_dir = [] })
      ∷ [];
}

load_two_nodes : load_from_file garbage two_nodes new_config ≡ some (loaded, true)
unfolding load_from_file read_lines read_line section_name ends_in read_section read_value
    node_value trim_left trim_right set_entry split_at stoi until magnitude same_bytes
load_two_nodes = refl

load_from_file-nodes_example :
    IsDistinct (ids (get_all_nodes loaded))
    × ((ltb_ℤ (pos 2) (pos 1) && contains (pos 2) (ids (get_all_nodes loaded))) ≡ false)
    × ((get_node_config (pos 2) loaded).id
        ≡ (if contains (pos 2) (ids (get_all_nodes loaded)) then pos 2 else pos 0))
    × (true ≡ has_nodes loaded.nodes)
load_from_file-nodes_example =
    load_from_file-nodes garbage two_nodes loaded true (pos 2) load_two_nodes

-- The first of the two servers, as a candidate.
abbrev first : RaftNode Unit
first =
    record (start_election (record { now = 200; draw = 150 })
      (new_node (record { now = 0; draw = 150 }) (pos 1) (pos 2 ∷ []) tt)) { leader_id = minus_one }

all_peers_example :
    let peers = peers_of (pos 1) (get_all_nodes loaded) in
    (peers.ids ≡ without (pos 1) (ids (get_all_nodes loaded)))
    × (send_append_entries_to_peers peers first
        ≡ (if is_leader first.state then one_each (address_in loaded) 0 peers.ids else []))
    × (send_request_votes_to_peers (pos 1) peers.addresses first ≡ (
        if is_candidate first.state
        then ask_each
            (address_in loaded)
            (vote_request (last_log_index first.log) (last_log_term first.log) first)
            peers.ids
        else []))
all_peers_example =
    all_peers garbage two_nodes loaded true (pos 1) first load_two_nodes
      (unfold start_election new_node in refl)

-- Every peer grants its vote and takes what it is sent.
abbrev willing : Network
willing = record {
  connects = λ address. true;
  vote = λ address args. some (record { term = args.term; vote_granted = true });
  append = λ address args. none;
}

abbrev started : Env
started = record { now = 200; draw = 150 }

abbrev answered : Env
answered = record { now = 210; draw = 150 }

abbrev idle : RaftNode Unit
idle = new_node (record { now = 0; draw = 150 }) (pos 1) (pos 2 ∷ []) tt

abbrev two_peers : Peers
two_peers = peers_of (pos 1) (get_all_nodes loaded)

-- The server is elected by the first worker, and its next turn sends a heartbeat.
abbrev second_day : Process Unit
second_day = turn (quiet_turn 300 300 answered answered) (pos 1) two_peers (
    work answered willing [] (
      turn (quiet_turn 200 200 started started) (pos 1) two_peers
        (record { node = idle; tasks = [] })))

sends_heartbeat : second_day.tasks ≡ send_entries (pos 2) (codes "?:7") 0 ∷ []
unfolding turn work run_task vote_task entries_task election_part heartbeat_part
    send_request_votes_to_peers send_append_entries_to_peers ask_all send_from find_peers
    set_address find_address all_nodes start_election new_node check_election_timeout
    should_send_heartbeat handle_vote_response run step apply_committed_entries run_callback
    print_int
sends_heartbeat = refl
