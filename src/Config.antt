-- ===== src/Config.antt =====
-- src/util/config.cpp and include/util/config.h: the cluster configuration. A file is its text, and
-- `none` an exception of std::stoi that leaves loadFromFile. What is printed is left out, and so is a
-- file that cannot be opened.
pub mod Reading
pub mod Nodes
use my_raft_kvdb.Base.{
  ℕ, zero, suc, ◌-◌, Bool, true, false, not, ◌&&◌, ◌||◌, Option, none, some, List, [], ◌∷◌, ◌++◌,
  length, take, drop, ◌==◌, if◌then◌else◌, ℤ, pos, minus_one, ◌==ℤ◌, ltb_ℤ,
}
use my_raft_kvdb.Command.{split_at}
use my_raft_kvdb.Text.Scan.{stoi, until}
use my_raft_kvdb.Text.{Bytes, codes, same_bytes, print_int}

pub record NodeConfig : Type 0 where
  pub id : ℤ
  pub host : Bytes
  pub port : ℤ
  pub data_dir : Bytes

-- NodeConfig()
abbrev pub empty_node : NodeConfig
empty_node = record { id = pos 0; host = []; port = pos 0; data_dir = [] }

-- getAddress()
abbrev pub get_address : NodeConfig → Bytes
get_address n = n.host ++ codes ":" ++ print_int n.port

-- std::map<int, NodeConfig>: by rising keys.
abbrev pub NodeMap : Type 0
NodeMap = List (ℤ × NodeConfig)

-- nodes_[id] = n
unfoldable pub set_entry : ℤ → NodeConfig → NodeMap → NodeMap
set_entry id n [] = (id, n) ∷ []
set_entry id n ((i, m) ∷ nodes) =
    let rest = set_entry id n nodes in
    if id ==ℤ i
    then (id, n) ∷ nodes
    else (if ltb_ℤ id i then (id, n) ∷ (i, m) ∷ nodes else (i, m) ∷ rest)

pub record ClusterConfig : Type 0 where
  pub node_count : ℤ
  pub nodes : NodeMap
  pub election_timeout_min : ℤ
  pub election_timeout_max : ℤ
  pub heartbeat_interval : ℤ
  pub rpc_timeout : ℤ

abbrev pub new_config : ClusterConfig
new_config = record {
  node_count = pos 0;
  nodes = [];
  election_timeout_min = pos 150;
  election_timeout_max = pos 300;
  heartbeat_interval = pos 50;
  rpc_timeout = pos 1000;
}

-- The local variables of loadFromFile, with the fields of the object.
pub record Reader : Type 0 where
  pub config : ClusterConfig
  pub section : Bytes
  pub node : NodeConfig
  pub node_id : ℤ

-- " \t\r\n" and " \t"
abbrev pub is_line_space : ℕ → Bool
is_line_space b = b == 32 || b == 9 || b == 13 || b == 10

abbrev pub is_blank : ℕ → Bool
is_blank b = b == 32 || b == 9

-- The two calls of erase that take the spaces off both ends.
unfoldable pub trim_left : (ℕ → Bool) → Bytes → Bytes
trim_left space [] = []
trim_left space (b ∷ s) = let rest = trim_left space s in if space b then rest else b ∷ s

abbrev pub keep_unless : Bool → ℕ → Bytes → Bytes
keep_unless space b [] = if space then [] else b ∷ []
keep_unless space b (c ∷ s) = b ∷ c ∷ s

unfoldable pub trim_right : (ℕ → Bool) → Bytes → Bytes
trim_right space [] = []
trim_right space (b ∷ s) = keep_unless (space b) b (trim_right space s)

abbrev pub trim : (ℕ → Bool) → Bytes → Bytes
trim space s = trim_right space (trim_left space s)

-- line.back() is a byte.
unfoldable pub ends_in : ℕ → Bytes → Bool
ends_in d [] = false
ends_in d (b ∷ []) = b == d
ends_in d (b ∷ c ∷ s) = ends_in d (c ∷ s)

-- The line of a section, and the name in it.
unfoldable pub section_name : Bytes → Option Bytes
section_name [] = none
section_name (b ∷ s) =
    if b == b'[' && ends_in b']' (b ∷ s) then some (take (length s - 1) s) else none

-- nodes_[current_node_id] = current_node
abbrev pub save_node : Reader → Reader
save_node r = record r {
  config = record r.config { nodes = set_entry r.node_id r.node r.config.nodes };
}

-- What is kept of the node before, when a section begins.
abbrev pub close_node : Reader → Reader
close_node r = if ltb_ℤ (pos 0) r.node_id then record (save_node r) { node = empty_node } else r

abbrev pub open_node : Option ℤ → Reader → Option Reader
open_node none r = none
open_node (some id) r = some (record r { node_id = id; node = record r.node { id = id } })

unfoldable pub read_section : Bytes → Reader → Option Reader
read_section name r =
    let r' = record (close_node r) { section = name } in
    if same_bytes (take 5 name) (codes "node_")
    then open_node (stoi (drop 5 name)) r'
    else some (record r' { node_id = minus_one })

abbrev pub with_int : Option ℤ → (ℤ → Reader) → Option Reader
with_int none f = none
with_int (some i) f = some (f i)

abbrev pub set_config : ClusterConfig → Reader → Reader
set_config c r = record r { config = c }

abbrev pub set_node : NodeConfig → Reader → Reader
set_node n r = record r { node = n }

unfoldable pub raft_value : Bytes → Bytes → Reader → Option Reader
raft_value key value r =
    if same_bytes key (codes "election_timeout_min")
    then with_int (stoi value) (λ i. set_config (record r.config { election_timeout_min = i }) r)
    else (if same_bytes key (codes "election_timeout_max")
        then with_int (stoi value)
            (λ i. set_config (record r.config { election_timeout_max = i }) r)
        else (if same_bytes key (codes "heartbeat_interval")
            then with_int (stoi value)
                (λ i. set_config (record r.config { heartbeat_interval = i }) r)
            else (if same_bytes key (codes "rpc_timeout")
                then with_int (stoi value) (λ i. set_config (record r.config { rpc_timeout = i }) r)
                else some r)))

unfoldable pub node_value : Bytes → Bytes → Reader → Option Reader
node_value key value r =
    if same_bytes key (codes "host")
    then some (set_node (record r.node { host = value }) r)
    else (if same_bytes key (codes "port")
        then with_int (stoi value) (λ i. set_node (record r.node { port = i }) r)
        else (if same_bytes key (codes "data_dir")
            then some (set_node (record r.node { data_dir = value }) r)
            else some r))

-- A key and its value, by the section that they stand in.
unfoldable pub read_value : Bytes → Bytes → Reader → Option Reader
read_value key value r =
    if same_bytes r.section (codes "cluster")
    then (if same_bytes key (codes "node_count")
        then with_int (stoi value) (λ i. set_config (record r.config { node_count = i }) r)
        else some r)
    else (if same_bytes r.section (codes "raft")
        then raft_value key value r
        else (if ltb_ℤ (pos 0) r.node_id then node_value key value r else some r))

-- A line without its comment and the spaces around it.
unfoldable pub read_line : Bytes → Reader → Option Reader
read_line [] r = some r
read_line (b ∷ s) r = elim (section_name (b ∷ s)) [
  | some name ↦ read_section name r
  | none ↦ elim (split_at b'=' (b ∷ s)) [
    | none ↦ some r
    | some (key, value) ↦ read_value (trim is_blank key) (trim is_blank value) r
  ]
]

abbrev pub line_of : Bytes → Bytes
line_of s = trim is_line_space (until b'#' s).0

abbrev pub then_read : Option Reader → (Reader → Option Reader) → Option Reader
then_read none f = none
then_read (some r) f = f r

-- The loop over the lines, with a bound on their number.
unfoldable pub read_lines : ℕ → Bytes → Reader → Option Reader
read_lines zero text r = some r
read_lines (suc fuel) [] r = some r
read_lines (suc fuel) (b ∷ s) r =
    let (line, rest) = until b'\n' (b ∷ s) in
    then_read (read_line (line_of line) r) (read_lines fuel rest)

abbrev pub last_node : Reader → ClusterConfig
last_node r = (if ltb_ℤ (pos 0) r.node_id then save_node r else r).config

abbrev pub has_nodes : NodeMap → Bool
has_nodes [] = false
has_nodes (n ∷ nodes) = true

-- loadFromFile of a file with the given text. `garbage` is what the variable `current_node` holds
-- before anything is written to it. A line has at least a byte, so that the text has at most as many
-- lines as bytes.
unfoldable pub load_from_file : NodeConfig → Bytes → ClusterConfig → Option (ClusterConfig × Bool)
load_from_file garbage text c =
    elim (read_lines (length text) text
      (record { config = c; section = []; node = garbage; node_id = minus_one })) [
        | none ↦ none
        | some r ↦ some (last_node r, has_nodes (last_node r).nodes)
      ]

-- getNodeConfig(node_id)
unfoldable pub find_node : ℤ → NodeMap → NodeConfig
find_node id [] = empty_node
find_node id ((i, n) ∷ nodes) = let rest = find_node id nodes in if i ==ℤ id then n else rest

abbrev pub get_node_config : ℤ → ClusterConfig → NodeConfig
get_node_config id c = find_node id c.nodes

-- getAllNodes()
unfoldable pub all_nodes : NodeMap → List NodeConfig
all_nodes [] = []
all_nodes ((i, n) ∷ nodes) = n ∷ all_nodes nodes

abbrev pub get_all_nodes : ClusterConfig → List NodeConfig
get_all_nodes c = all_nodes c.nodes
