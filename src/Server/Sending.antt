-- ===== src/Server/Sending.antt =====
-- src/raft_node_server.cpp: the peers that a server finds in its configuration.
use my_raft_kvdb.Base.{
  ℕ, suc, ◌≡◌, refl, ap, sym, ◌∙◌, Bool, true, false, some, List, [], ◌∷◌, ◌++◌, append-nil,
  append_assoc, arith, inl, inr, Bool-cases, ℤ, ◌==ℤ◌, ==ℤ_iff, ◌<ℤ◌, if◌then◌else◌,
}
use my_raft_kvdb.Cluster.Members.{contains-without}
use my_raft_kvdb.Cluster.{without, vote_request}
use my_raft_kvdb.Config.Nodes.{ids, above_all, loaded-IsRising}
use my_raft_kvdb.Config.Reading.{AllAbove, IsRising}
use my_raft_kvdb.Config.{
  NodeConfig, NodeMap, ClusterConfig, get_address, find_node, get_node_config, all_nodes,
  get_all_nodes, load_from_file, new_config,
}
use my_raft_kvdb.Log.{last_log_index, last_log_term}
use my_raft_kvdb.Messages.{RequestVoteArgs}
use my_raft_kvdb.Node.{RaftNode, contains, is_leader, is_candidate}
use my_raft_kvdb.Server.{
  Addresses, set_address, find_address, Peers, find_peers, peers_of, Task, ask_vote, send_entries,
  ask_all, send_from, send_append_entries_to_peers, send_request_votes_to_peers,
}
use my_raft_kvdb.Text.{Bytes}

-- The addresses of the nodes but one, in their order.
abbrev pub book : ℤ → NodeMap → Addresses
book id [] = []
book id ((i, n) ∷ nodes) =
    let rest = book id nodes in if i ==ℤ id then rest else (i, get_address n) ∷ rest

abbrev AllBelow : Addresses → ℤ → Type 0
AllBelow [] j = Unit {0}
AllBelow ((i, a) ∷ addresses) j = (i <ℤ j) × AllBelow addresses j

abbrev Under : Addresses → NodeMap → Type 0
Under addresses [] = Unit {0}
Under addresses ((j, n) ∷ nodes) = AllBelow addresses j

set_address-AllBelow :
    (id : ℤ) (address : Bytes) (addresses : Addresses)
    → AllBelow addresses id
    → set_address id address addresses ≡ addresses ++ (id, address) ∷ []
unfolding set_address
set_address-AllBelow id address [] b = refl
set_address-AllBelow id address ((i, a) ∷ addresses) b =
    ground (arith, b.0, ==ℤ_iff id i, set_address-AllBelow id address addresses b.1)

AllBelow-trans :
    (addresses : Addresses) (i j : ℤ) → AllBelow addresses i → i <ℤ j → AllBelow addresses j
AllBelow-trans [] i j b l = tt
AllBelow-trans ((k, a) ∷ addresses) i j b l =
    (ground (arith, b.0, l), AllBelow-trans addresses i j b.1 l)

AllBelow-append :
    (addresses : Addresses) (i j : ℤ) (a : Bytes)
    → AllBelow addresses i
    → i <ℤ j
    → AllBelow (addresses ++ (i, a) ∷ []) j
AllBelow-append [] i j a b l = (l, tt)
AllBelow-append ((k, c) ∷ addresses) i j a b l =
    (ground (arith, b.0, l), AllBelow-append addresses i j a b.1 l)

Under-skip :
    (addresses : Addresses) (i : ℤ) (nodes : NodeMap)
    → AllBelow addresses i
    → AllAbove i nodes
    → Under addresses nodes
Under-skip addresses i [] b a = tt
Under-skip addresses i ((j, n) ∷ nodes) b a = AllBelow-trans addresses i j b a.0

Under-append :
    (addresses : Addresses) (i : ℤ) (c : Bytes) (nodes : NodeMap)
    → AllBelow addresses i
    → AllAbove i nodes
    → Under (addresses ++ (i, c) ∷ []) nodes
Under-append addresses i c [] b a = tt
Under-append addresses i c ((j, n) ∷ nodes) b a = AllBelow-append addresses i j c b a.0

find_peers_lem :
    (id : ℤ) (nodes : NodeMap) (p : Peers)
    → IsRising nodes
    → Under p.addresses nodes
    → find_peers id (all_nodes nodes) p ≡ record {
      ids = p.ids ++ without id (ids (all_nodes nodes));
      addresses = p.addresses ++ book id nodes;
    }
unfolding find_peers all_nodes
find_peers_lem id [] p r u = rw (append-nil p.ids, append-nil p.addresses) refl
find_peers_lem id ((i, n) ∷ nodes) p (positive, e, above, rest) u = elim (Bool-cases (i ==ℤ id)) [
  | inl h ↦ rw (e, h) (find_peers_lem id nodes p rest (Under-skip p.addresses i nodes u above))
  | inr h ↦
      let next : Peers = record {
        ids = p.ids ++ i ∷ [];
        addresses = p.addresses ++ (i, get_address n) ∷ [];
      } in
      let rec =
        find_peers_lem id nodes next rest
          (Under-append p.addresses i (get_address n) nodes u above) in
      let joined : next.ids ++ without id (ids (all_nodes nodes))
          ≡ p.ids ++ i ∷ without id (ids (all_nodes nodes)) =
        append_assoc p.ids (i ∷ []) (without id (ids (all_nodes nodes))) in
      let booked : next.addresses ++ book id nodes
          ≡ p.addresses ++ (i, get_address n) ∷ book id nodes =
        append_assoc p.addresses ((i, get_address n) ∷ []) (book id nodes) in
      rw (e, h, set_address-AllBelow i (get_address n) p.addresses u) (rw (joined, booked) at rec)
]

find_address-book :
    (id j : ℤ) (nodes : NodeMap)
    → IsRising nodes
    → (j ==ℤ id) ≡ false
    → contains j (ids (all_nodes nodes)) ≡ true
    → find_address j (book id nodes) ≡ some (get_address (find_node j nodes))
unfolding find_address find_node all_nodes
find_address-book id j [] r h m = ground arith
find_address-book id j ((i, n) ∷ nodes) (positive, e, above, rest) h m =
    elim (Bool-cases (i ==ℤ j)) [
      | inl same ↦
          let eq : i ≡ j = ground (arith, ==ℤ_iff i j) in
          let other : (i ==ℤ id) ≡ false = rw eq h in rw (other, same) refl
      | inr differs ↦
          let inside : contains j (ids (all_nodes nodes)) ≡ true =
            ground (arith, ==ℤ_iff i j, ==ℤ_iff j n.id) in
          ground (arith, differs, find_address-book id j nodes rest h inside)
    ]

-- One message for each peer, in the order of `peers`, with its position there.
abbrev pub one_each : (ℤ → Bytes) → ℕ → List ℤ → List Task
one_each address i [] = []
one_each address i (p ∷ peers) = send_entries p (address p) i ∷ one_each address (suc i) peers

send_from-one_each :
    (address : ℤ → Bytes) (addresses : Addresses) (i : ℕ) (peers : List ℤ)
    → ((p : ℤ) → contains p peers ≡ true → find_address p addresses ≡ some (address p))
    → send_from i peers addresses ≡ one_each address i peers
unfolding send_from
send_from-one_each address addresses i [] h = refl
send_from-one_each address addresses i (p ∷ peers) h =
    rw (h p (ground (arith, ==ℤ_iff p p)), send_from)
      (ap (λ tasks. send_entries p (address p) i ∷ tasks)
        (send_from-one_each address addresses (suc i) peers (λ q m. h q (ground (arith, m)))))

-- One request for each peer.
abbrev pub ask_each : (ℤ → Bytes) → RequestVoteArgs → List ℤ → List Task
ask_each address args [] = []
ask_each address args (p ∷ peers) = ask_vote p (address p) args ∷ ask_each address args peers

ask_all-ask_each :
    (address : ℤ → Bytes) (id : ℤ) (args : RequestVoteArgs) (nodes : NodeMap)
    → IsRising nodes
    → ((j : ℤ)
        → contains j (ids (all_nodes nodes)) ≡ true
        → address j ≡ get_address (find_node j nodes))
    → ask_all args (book id nodes) ≡ ask_each address args (without id (ids (all_nodes nodes)))
unfolding ask_all all_nodes
ask_all-ask_each address id args [] r same = refl
ask_all-ask_each address id args ((i, n) ∷ nodes) (positive, e, above, rest) same =
    let here : address i ≡ get_address n =
      rw e at same i (unfold all_nodes in ground (arith, e, ==ℤ_iff i i))
      ∙ (unfold find_node in ground (arith, ==ℤ_iff i i)) in
    let later : (j : ℤ)
        → contains j (ids (all_nodes nodes)) ≡ true
        → address j ≡ get_address (find_node j nodes) =
      λ j m.
        let apart : (i ==ℤ j) ≡ false =
          ground (arith, m, above_all i nodes above rest, ==ℤ_iff i j) in
        same j (unfold all_nodes in ground (arith, m))
        ∙ (unfold find_node in ground (arith, apart)) in
    let rec = ask_all-ask_each address id args nodes rest later in
    elim (Bool-cases (i ==ℤ id)) [
      | inl h ↦ rw (e, h) rec
      | inr h ↦ rw (e, h, here) (ap (λ tasks. ask_vote i (get_address n) args ∷ tasks) rec)
    ]

sends_one_each :
    (id : ℤ) (nodes : NodeMap)
    → IsRising nodes
    → send_from 0 (without id (ids (all_nodes nodes))) (book id nodes)
      ≡ one_each (λ p. get_address (find_node p nodes)) 0 (without id (ids (all_nodes nodes)))
sends_one_each id nodes r =
    send_from-one_each (λ p. get_address (find_node p nodes)) (book id nodes) 0
      (without id (ids (all_nodes nodes)))
      (λ p m.
        find_address-book id p nodes r
          (ground (arith, contains-without p id (ids (all_nodes nodes)), m))
          (ground (arith, contains-without p id (ids (all_nodes nodes)), m)))

pub peers_of_lem :
    (id : ℤ) (nodes : NodeMap)
    → IsRising nodes
    → peers_of id (all_nodes nodes)
      ≡ record { ids = without id (ids (all_nodes nodes)); addresses = book id nodes }
peers_of_lem id nodes r =
    find_peers_lem id nodes (record { ids = []; addresses = [] }) r (under nodes)
  where
    under : (nodes : NodeMap) → Under [] nodes
    under [] = tt
    under ((j, n) ∷ nodes) = tt

-- The address that the configuration gives a node.
abbrev pub address_in : ClusterConfig → ℤ → Bytes
address_in c p = get_address (get_node_config p c)

voted_lem :
    {S : Type 0}
    → (id : ℤ) (addresses : Addresses) (n : RaftNode S) → n.node_id ≡ id
    → send_request_votes_to_peers id addresses n ≡ (
        if is_candidate n.state
        then ask_all (vote_request (last_log_index n.log) (last_log_term n.log) n) addresses
        else [])
unfolding send_request_votes_to_peers
voted_lem id addresses n self =
    rw (sym self)
      (elim (Bool-cases (is_candidate n.state)) [ inl h ↦ rw h refl | inr h ↦ rw h refl ])

-- Where a new configuration loads from a text, the peers that a server, whose node has its
-- identifier, finds in it are the identifiers of its nodes but for its own, in their order; as a
-- leader it sends entries to each of them once and to no other, at the address that the
-- configuration gives, with the position of the peer in that list; as a candidate it asks each of
-- them once for a vote in its own term; and in another role it sends nothing.
pub all_peers :
    {S : Type 0}
    → (garbage : NodeConfig) (text : Bytes) (c : ClusterConfig) (found : Bool) (id : ℤ)
      (n : RaftNode S)
    → load_from_file garbage text new_config ≡ some (c, found)
    → n.node_id ≡ id
    → let peers = peers_of id (get_all_nodes c) in
      (peers.ids ≡ without id (ids (get_all_nodes c)))
      × (send_append_entries_to_peers peers n
          ≡ (if is_leader n.state then one_each (address_in c) 0 peers.ids else []))
      × (send_request_votes_to_peers id peers.addresses n ≡ (
          if is_candidate n.state
          then ask_each
              (address_in c)
              (vote_request (last_log_index n.log) (last_log_term n.log) n)
              peers.ids
          else []))
all_peers garbage text c found id n e self =
    let rising : IsRising c.nodes = (loaded-IsRising garbage text c found e).0 in
    let asked =
      ask_all-ask_each (λ p. get_address (find_node p c.nodes)) id
        (vote_request (last_log_index n.log) (last_log_term n.log) n) c.nodes rising
        (λ j m. refl) in
    let voted : send_request_votes_to_peers id (book id c.nodes) n ≡ (
        if is_candidate n.state
        then ask_each (address_in c) (vote_request (last_log_index n.log) (last_log_term n.log) n)
            (without id (ids (all_nodes c.nodes)))
        else []) =
      voted_lem id (book id c.nodes) n self
      ∙ ap (λ tasks. if is_candidate n.state then tasks else []) asked in
    rw (peers_of_lem id c.nodes rising) (
      refl,
      unfold send_append_entries_to_peers in ground (arith, sends_one_each id c.nodes rising),
      voted,
    )
