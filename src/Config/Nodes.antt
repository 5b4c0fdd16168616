-- ===== src/Config/Nodes.antt =====
-- src/util/config.cpp: the servers that a configuration names.
use my_raft_kvdb.Base.{
  true, ◌&&◌, ◌≡◌, refl, ap, sym, subst, ◌∙◌, inl, inr, Bool, false, Option, none, some, List, [],
  ◌∷◌, length, arith, ℤ, pos, minus_one, ==ℤ_iff, ◌<ℤ◌, ltb_ℤ, if◌then◌else◌, Option-cases,
}
use my_raft_kvdb.Cluster.Members.{IsDistinct}
use my_raft_kvdb.Config.{
  NodeConfig, ClusterConfig, NodeMap, Reader, new_config, read_lines, last_node, has_nodes,
  load_from_file, find_node, get_node_config, all_nodes, get_all_nodes,
}
use my_raft_kvdb.Node.{contains}
use my_raft_kvdb.Text.{Bytes}
use my_raft_kvdb.Config.Reading.{AllAbove, IsRising, last_node-IsRising, read_lines-Keeps}

-- The identifiers of the nodes.
abbrev pub ids : List NodeConfig → List ℤ
ids [] = []
ids (n ∷ nodes) = n.id ∷ ids nodes

pub above_all :
    (i : ℤ) (nodes : NodeMap)
    → AllAbove i nodes
    → IsRising nodes
    → contains i (ids (all_nodes nodes)) ≡ false
unfolding all_nodes
above_all i [] a r = refl
above_all i ((j, n) ∷ nodes) a (p, e, above, rest) =
    rw e (ground (arith, a.0, ==ℤ_iff i j, above_all i nodes a.1 rest))

ids-IsDistinct : (nodes : NodeMap) → IsRising nodes → IsDistinct (ids (all_nodes nodes))
unfolding all_nodes
ids-IsDistinct [] r = tt
ids-IsDistinct ((i, n) ∷ nodes) (p, e, above, rest) =
    (rw e (above_all i nodes above rest), ids-IsDistinct nodes rest)

positive_ids :
    (id : ℤ) (nodes : NodeMap)
    → IsRising nodes
    → id <ℤ pos 1
    → contains id (ids (all_nodes nodes)) ≡ false
unfolding all_nodes
positive_ids id [] r l = refl
positive_ids id ((i, n) ∷ nodes) (p, e, above, rest) l =
    rw e (ground (arith, ==ℤ_iff id i, positive_ids id nodes rest l))

find_node-ids :
    (id : ℤ) (nodes : NodeMap)
    → IsRising nodes
    → (find_node id nodes).id ≡ (if contains id (ids (all_nodes nodes)) then id else pos 0)
unfolding find_node all_nodes
find_node-ids id [] r = refl
find_node-ids id ((i, n) ∷ nodes) (p, e, above, rest) =
    rw e (ground (arith, e, ==ℤ_iff i id, ==ℤ_iff id i, find_node-ids id nodes rest))

none-some {ℓ} : {A : Type ℓ} {x : A} → ◌≡◌ {A = Option A} none (some x) → ⊥
none-some e = ground arith

-- No node is read before a section of a node starts.
new_node_id : {A : Type 0} → ltb_ℤ (pos 0) minus_one ≡ true → A
new_node_id p = ground (arith, p)

pub loaded-IsRising :
    (garbage : NodeConfig) (text : Bytes) (c : ClusterConfig) (found : Bool)
    → load_from_file garbage text new_config ≡ some (c, found)
    → IsRising c.nodes × (found ≡ has_nodes c.nodes)
unfolding load_from_file
loaded-IsRising garbage text c found e =
    let start : Reader = record {
      config = new_config;
      section = [];
      node = garbage;
      node_id = minus_one;
    } in
    elim (Option-cases (read_lines (length text) text start)) [
      | inl f ↦
          let bad : ◌≡◌ {A = Option (ClusterConfig × Bool)} none (some (c, found)) =
            rw (f, load_from_file) at e in
          elim (none-some bad) [ ]
      | inr (r, f) ↦
          let same : some (last_node r, has_nodes (last_node r).nodes) ≡ some (c, found) =
            rw (f, load_from_file) at e in
          let config : last_node r ≡ c = ap (λ o. elim o [ none ↦ c | some (x, y) ↦ x ]) same in
          let answer : has_nodes (last_node r).nodes ≡ found =
            ap (λ o. elim o [ none ↦ found | some (x, y) ↦ y ]) same in
          let k = (read_lines-Keeps (length text) text start (tt, λ p. new_node_id p)).holds r f in
          (
            subst (λ x. IsRising x.nodes) config (last_node-IsRising r k),
            sym answer ∙ ap (λ x. has_nodes x.nodes) config,
          )
    ]

-- Where a new configuration loads from a text, whatever the uninitialised node held: the
-- identifiers that getAllNodes gives are distinct and positive, getNodeConfig of one of them gives
-- a node of that identifier and of any other the identifier 0, and the result says whether there
-- are any nodes.
pub load_from_file-nodes :
    (garbage : NodeConfig) (text : Bytes) (c : ClusterConfig) (found : Bool) (id : ℤ)
    → load_from_file garbage text new_config ≡ some (c, found)
    → IsDistinct (ids (get_all_nodes c))
      × ((ltb_ℤ id (pos 1) && contains id (ids (get_all_nodes c))) ≡ false)
      × ((get_node_config id c).id ≡ (if contains id (ids (get_all_nodes c)) then id else pos 0))
      × (found ≡ has_nodes c.nodes)
load_from_file-nodes garbage text c found id e =
    let (rising, answer) = loaded-IsRising garbage text c found e in
    (
      ids-IsDistinct c.nodes rising,
      ground (arith, positive_ids id c.nodes rising),
      find_node-ids id c.nodes rising,
      answer,
    )
