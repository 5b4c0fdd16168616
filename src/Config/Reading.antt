-- ===== src/Config/Reading.antt =====
-- src/util/config.cpp: what reading a file does to the table of nodes.
use my_raft_kvdb.Base.{
  ℕ, zero, suc, ◌≤◌, ◌≡◌, refl, ap, sym, subst, ◌∙◌, inl, inr, true, Option, none, some, [], ◌∷◌,
  length, take, drop, arith, ℤ, pos, ◌==ℤ◌, ==ℤ_iff, ◌<ℤ◌, ◌≤ℤ◌, ltb_ℤ, Bool-cases, Option-cases,
}
use my_raft_kvdb.Config.{
  NodeConfig, NodeMap, Reader, set_entry, save_node, close_node, open_node, read_section,
  raft_value, node_value, read_value, read_line, line_of, read_lines, last_node, section_name, trim,
  is_blank,
}
use my_raft_kvdb.Command.{split_at}
use my_raft_kvdb.Text.Scan.{stoi, until}
use my_raft_kvdb.Text.{Bytes, codes, same_bytes}

abbrev pub AllAbove : ℤ → NodeMap → Type 0
AllAbove i [] = Unit {0}
AllAbove i ((j, n) ∷ nodes) = (i <ℤ j) × AllAbove i nodes

-- Positive keys that rise, each with the node of that identifier.
abbrev pub IsRising : NodeMap → Type 0
IsRising [] = Unit {0}
IsRising ((i, n) ∷ nodes) = (pos 1 ≤ℤ i) × (n.id ≡ i) × AllAbove i nodes × IsRising nodes

AllAbove-trans : (i j : ℤ) (nodes : NodeMap) → i <ℤ j → AllAbove j nodes → AllAbove i nodes
AllAbove-trans i j [] l a = tt
AllAbove-trans i j ((k, n) ∷ nodes) l a = (omega (arith, a.0), AllAbove-trans i j nodes l a.1)

AllAbove-set_entry :
    (i id : ℤ) (n : NodeConfig) (nodes : NodeMap)
    → i <ℤ id
    → AllAbove i nodes
    → AllAbove i (set_entry id n nodes)
unfolding set_entry
AllAbove-set_entry i id n [] l a = (l, tt)
AllAbove-set_entry i id n ((j, m) ∷ nodes) l a = elim (Bool-cases (id ==ℤ j)) [
  | inl e ↦ rw e (l, a.1)
  | inr e ↦ elim (Bool-cases (ltb_ℤ id j)) [
    | inl f ↦ rw (e, f) (l, a)
    | inr f ↦ rw (e, f) (a.0, AllAbove-set_entry i id n nodes l a.1)
  ]
]

IsRising-set_entry :
    (id : ℤ) (n : NodeConfig) (nodes : NodeMap)
    → pos 1 ≤ℤ id
    → n.id ≡ id
    → IsRising nodes
    → IsRising (set_entry id n nodes)
unfolding set_entry
IsRising-set_entry id n [] p e r = (p, e, tt, tt)
IsRising-set_entry id n ((j, m) ∷ nodes) p e (pj, ej, above, rest) = elim (Bool-cases (id ==ℤ j)) [
  | inl same ↦ let eq : id ≡ j = ground (arith, ==ℤ_iff id j) in rw same (p, e, rw eq above, rest)
  | inr differs ↦ elim (Bool-cases (ltb_ℤ id j)) [
    | inl below ↦
        let l : id <ℤ j = ground arith in
        rw (differs, below) (p, e, (l, AllAbove-trans id j nodes l above), (pj, ej, above, rest))
    | inr above' ↦
        let l : j <ℤ id = ground arith in
        rw (differs, above')
          (pj, ej, AllAbove-set_entry j id n nodes l above, IsRising-set_entry id n nodes p e rest)
  ]
]

-- The node that is read has the identifier that its section has.
abbrev pub IsReader : Reader → Type 0
IsReader r = IsRising r.config.nodes × (ltb_ℤ (pos 0) r.node_id ≡ true → r.node.id ≡ r.node_id)

pub record Keeps (o : Option Reader) : Type 0 where
  pub holds : (r : Reader) → o ≡ some r → IsReader r

keeps : (r : Reader) → IsReader r → Keeps (some r)
keeps r k = record { holds = λ r' e. subst IsReader (some_inj e) k }
  where
    some_inj : {a b : Reader} → some a ≡ some b → a ≡ b
    some_inj e = ap (λ o. elim o [ none ↦ r | some x ↦ x ]) e

Keeps-nothing : Keeps none
Keeps-nothing = record { holds = λ r e. ground arith }

save_node-IsRising :
    (r : Reader) → IsReader r → ltb_ℤ (pos 0) r.node_id ≡ true → IsRising (save_node r).config.nodes
save_node-IsRising r (k, e) p =
    IsRising-set_entry r.node_id r.node r.config.nodes (ground arith) (e p) k

close_node-IsRising : (r : Reader) → IsReader r → IsRising (close_node r).config.nodes
close_node-IsRising r k = elim (Bool-cases (ltb_ℤ (pos 0) r.node_id)) [
  | inl p ↦ rw p (save_node-IsRising r k p)
  | inr p ↦ rw p k.0
]

open_node-Keeps : (o : Option ℤ) (r : Reader) → IsRising r.config.nodes → Keeps (open_node o r)
open_node-Keeps none r k = Keeps-nothing
open_node-Keeps (some id) r k = keeps _ (k, λ p. refl)

read_section-Keeps : (name : Bytes) (r : Reader) → IsReader r → Keeps (read_section name r)
unfolding read_section
read_section-Keeps name r k =
    let closed = close_node-IsRising r k in
    let opened =
      open_node-Keeps (stoi (drop 5 name)) (record (close_node r) { section = name }) closed in
    elim (Bool-cases (same_bytes (take 5 name) (codes "node_"))) [
      | inl e ↦ rw e opened
      | inr e ↦ rw e (keeps _ (closed, λ p. ground arith))
    ]

-- What a key and its value leave alone.
abbrev SameIds : Reader → Reader → Type 0
SameIds r r' =
    (r'.config.nodes ≡ r.config.nodes) × (r'.node_id ≡ r.node_id) × (r'.node.id ≡ r.node.id)

raft_value-SameIds :
    (key value : Bytes) (r r' : Reader) → raft_value key value r ≡ some r' → SameIds r r'
unfolding raft_value
raft_value-SameIds key value r r' e = ground arith

node_value-SameIds :
    (key value : Bytes) (r r' : Reader) → node_value key value r ≡ some r' → SameIds r r'
unfolding node_value
node_value-SameIds key value r r' e = ground arith

read_value-SameIds :
    (key value : Bytes) (r r' : Reader) → read_value key value r ≡ some r' → SameIds r r'
unfolding read_value
read_value-SameIds key value r r' e =
    ground (arith, raft_value-SameIds key value r r', node_value-SameIds key value r r')

read_value-Keeps : (key value : Bytes) (r : Reader) → IsReader r → Keeps (read_value key value r)
read_value-Keeps key value r (k, same) = record {
  holds = λ r' e.
      let (nodes, id, node) = read_value-SameIds key value r r' e in
      (rw nodes k, λ p. node ∙ same (ap (ltb_ℤ (pos 0)) (sym id) ∙ p) ∙ sym id);
}

read_line-Keeps : (line : Bytes) (r : Reader) → IsReader r → Keeps (read_line line r)
unfolding read_line
read_line-Keeps [] r k = keeps r k
read_line-Keeps (b ∷ s) r k = elim (Option-cases (section_name (b ∷ s))) [
  | inr (name, e) ↦ rw (e, read_line) (read_section-Keeps name r k)
  | inl e ↦ elim (Option-cases (split_at b'=' (b ∷ s))) [
    | inl f ↦ rw (e, read_line) (rw f (keeps r k))
    | inr ((key, value), f) ↦
        rw (e, read_line) (rw f (read_value-Keeps (trim is_blank key) (trim is_blank value) r k))
  ]
]

pub read_lines-Keeps :
    (fuel : ℕ) (text : Bytes) (r : Reader) → IsReader r → Keeps (read_lines fuel text r)
unfolding read_lines
read_lines-Keeps zero text r k = keeps r k
read_lines-Keeps (suc fuel) [] r k = keeps r k
read_lines-Keeps (suc fuel) (b ∷ s) r k =
    let (line, rest) = until b'\n' (b ∷ s) in
    elim (Option-cases (read_line (line_of line) r)) [
      | inl e ↦ rw e Keeps-nothing
      | inr (r', e) ↦
          rw e (read_lines-Keeps fuel rest r' ((read_line-Keeps (line_of line) r k).holds r' e))
    ]

until_le : (d : ℕ) (s : Bytes) → length (until d s).1 ≤ length s
unfolding until
until_le d [] = omega arith
until_le d (b ∷ s) = ground (arith, until_le d s)

until_lt : (d b : ℕ) (s : Bytes) → length (until d (b ∷ s)).1 ≤ length s
unfolding until
until_lt d b s = ground (arith, until_le d s)

-- A bound of as many lines as the text has bytes stops nothing.
pub read_lines_enough :
    (m n : ℕ) (text : Bytes) (r : Reader)
    → length text ≤ m
    → length text ≤ n
    → read_lines m text r ≡ read_lines n text r
unfolding read_lines
read_lines_enough zero zero text r k l = refl
read_lines_enough zero (suc n) [] r k l = refl
read_lines_enough zero (suc n) (b ∷ s) r k l = elim k [ ]
read_lines_enough (suc m) zero [] r k l = refl
read_lines_enough (suc m) zero (b ∷ s) r k l = elim l [ ]
read_lines_enough (suc m) (suc n) [] r k l = refl
read_lines_enough (suc m) (suc n) (b ∷ s) r k l =
    let (line, rest) = until b'\n' (b ∷ s) in
    let shorter = until_lt b'\n' b s in
    elim (Option-cases (read_line (line_of line) r)) [
      | inl e ↦ rw e refl
      | inr (r', e) ↦ rw e (read_lines_enough m n rest r' (omega arith) (omega arith))
    ]

pub last_node-IsRising : (r : Reader) → IsReader r → IsRising (last_node r).nodes
last_node-IsRising r k = elim (Bool-cases (ltb_ℤ (pos 0) r.node_id)) [
  | inl p ↦ rw (p, IsRising) (save_node-IsRising r k p)
  | inr p ↦ rw (p, IsRising) k.0
]
