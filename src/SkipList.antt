-- ===== src/SkipList.antt =====
-- include/storage/skiplist.h: SkipList<std::string, std::string> on an explicit heap. `none` is
-- undefined behaviour: a null pointer that is followed, an address that holds no node, or an index
-- outside a vector. The random numbers are a script of coins, `true` for a draw below PROBABILITY;
-- when the script is used up, the coins are false.
pub mod Order
pub mod Cells
pub mod Walk
pub mod Descent
pub mod Valid
pub mod Search
pub mod Splice
pub mod Preds
pub mod Grow
pub mod Contents
pub mod Insert
pub mod Replace
pub mod Insertion
pub mod Unsplice
pub mod Shrink
pub mod Remove
pub mod Removal
pub mod Destroy
pub mod Refines
use my_raft_kvdb.Base.{
  ℕ, zero, suc, ◌-◌, Bool, true, false, ◌&&◌, Option, none, some, List, [], ◌∷◌, ltb, leb, ◌==◌,
  if◌then◌else◌, ℤ, pos, pos_part, suc_ℤ, pred_ℤ,
}
use my_raft_kvdb.Text.{Bytes, same_bytes}

infixl 1 ◌>>=◌
abbrev pub ◌>>=◌ {ℓ κ} : {A : Type ℓ} {B : Type κ} → Option A → (A → Option B) → Option B
none >>= f = none
some a >>= f = f a

abbrev pub Ptr : Type 0
Ptr = ℕ

-- MAX_LEVEL
abbrev pub max_level : ℕ
max_level = 16

-- operator< of std::string.
unfoldable pub less : Bytes → Bytes → Bool
less s [] = false
less [] (c ∷ t) = true
less (b ∷ s) (c ∷ t) = let rest = less s t in if b == c then rest else ltb b c

-- A SkipListNode without its pointers; `forward` has the indices 0 to `top`.
pub record Node : Type 0 where
  pub key : Bytes
  pub value : Bytes
  pub top : ℕ

-- The nodes, and the pointers of each by level.
pub record Heap : Type 0 where
  pub node : Ptr → Option Node
  pub forward : Ptr → ℕ → Option Ptr

-- `next_address` is what `new` returns next; no address is given twice.
pub record SkipList : Type 0 where
  pub heap : Heap
  pub header : Ptr
  pub current_level : ℕ
  pub size : ℤ
  pub coins : List Bool
  pub next_address : Ptr

abbrev pub put_node : Ptr → Option Node → Heap → Heap
put_node p o h = record h { node = λ q. if q == p then o else h.node q }

-- p->forward[level]
unfoldable pub get_forward : Ptr → ℕ → Heap → Option (Option Ptr)
get_forward p level h = h.node p >>= λ n. if leb level n.top then some (h.forward p level) else none

-- p->forward[level] = q
unfoldable pub set_forward : Ptr → ℕ → Option Ptr → Heap → Option Heap
set_forward p level q h = h.node p >>= λ n.
    if leb level n.top
    then some (record h { forward = λ r l. if r == p && l == level then q else h.forward r l })
    else none

-- randomLevel(), from a level on, with the coins that are left.
unfoldable pub random_level : ℕ → List Bool → ℕ × List Bool
random_level level [] = (level, [])
random_level level (false ∷ coins) = (level, coins)
random_level level (true ∷ coins) =
    let more = random_level (suc level) coins in
    if ltb level (max_level - 1) then more else (level, coins)

-- The inner loop, to the right on one level. `none` also stands for fuel that runs out.
unfoldable pub walk : ℕ → Bytes → ℕ → Ptr → Heap → Option Ptr
walk zero key level current h = none
walk (suc fuel) key level current h = get_forward current level h >>= λ next. elim next [
  | none ↦ some current
  | some q ↦ h.node q >>= λ n. elim (less n.key key) [
    | true ↦ walk fuel key level q h
    | false ↦ some current
  ]
]

-- The outer loop of search, on the levels below `levels`.
unfoldable pub descend : ℕ → Bytes → ℕ → Ptr → Heap → Option Ptr
descend fuel key zero current h = some current
descend fuel key (suc level) current h =
    walk fuel key level current h >>= λ p. descend fuel key level p h

-- The vector `update`, of max_level pointers.
abbrev pub Update : Type 0
Update = ℕ → Option Ptr

unfoldable pub set_update : ℕ → Ptr → Update → Option Update
set_update i p update =
    if ltb i max_level then some (λ j. if j == i then some p else update j) else none

-- The outer loop of insert and remove, which keeps the predecessor of each level.
unfoldable pub descend_update : ℕ → Bytes → ℕ → Ptr → Update → Heap → Option (Ptr × Update)
descend_update fuel key zero current update h = some (current, update)
descend_update fuel key (suc level) current update h = walk fuel key level current h >>= λ p.
    set_update level p update >>= λ update'. descend_update fuel key level p update' h

-- The while loops turn at most once for each element, and once more to end.
abbrev pub rounds : SkipList → ℕ
rounds s = suc (pos_part s.size)

-- The node at a pointer that may be null, if it has the key.
unfoldable pub matches : Bytes → Option Ptr → Heap → Option (Option (Ptr × Node))
matches key none h = some none
matches key (some p) h = h.node p >>= λ n. some (if same_bytes n.key key then some (p, n) else none)

-- search(key, value)
unfoldable pub search_key : Bytes → SkipList → Option (Option Bytes)
search_key key s = descend (rounds s) key (suc s.current_level) s.header s.heap >>= λ current.
    get_forward current 0 s.heap >>= λ next. matches key next s.heap >>= λ found. elim found [
      | none ↦ some none
      | some (p, n) ↦ some (some n.value)
    ]

-- update[i] = header for the levels above the current one.
unfoldable pub raise_levels : ℕ → ℕ → Ptr → Update → Option Update
raise_levels zero i header update = some update
raise_levels (suc count) i header update =
    set_update i header update >>= λ update'. raise_levels count (suc i) header update'

-- The loop that puts a new node into the list of each level, from level i on.
unfoldable pub splice : ℕ → ℕ → Ptr → Update → Heap → Option Heap
splice zero i new update h = some h
splice (suc count) i new update h = update i >>= λ u. get_forward u i h >>= λ next.
    set_forward new i next h >>= λ h1.
    set_forward u i (some new) h1 >>= λ h2. splice count (suc i) new update h2

-- What insert does for a new key.
unfoldable pub insert_new : Bytes → Bytes → Update → SkipList → Option SkipList
insert_new key value update s =
    let (level, coins) = random_level 0 s.coins in
    let new = s.next_address in
    raise_levels (level - s.current_level) (suc s.current_level) s.header update >>= λ update'.
    splice (suc level) 0 new update' (record {
      node = λ q.
          if q == new
          then some (record { key = key; value = value; top = level })
          else s.heap.node q;
      forward = λ q l. if q == new then none else s.heap.forward q l;
    })
    >>= λ h. some (record s {
      heap = h;
      current_level = if ltb s.current_level level then level else s.current_level;
      size = suc_ℤ s.size;
      coins = coins;
      next_address = suc new;
    })

-- insert(key, value): true for a new key.
unfoldable pub insert_key : Bytes → Bytes → SkipList → Option (SkipList × Bool)
insert_key key value s =
    descend_update (rounds s) key (suc s.current_level) s.header (λ i. none) s.heap >>= λ r.
    get_forward r.0 0 s.heap >>= λ next. matches key next s.heap >>= λ found. elim found [
      | some (p, n) ↦
          some (record s { heap = put_node p (some (record n { value = value })) s.heap }, false)
      | none ↦ insert_new key value r.1 s >>= λ s'. some (s', true)
    ]

-- The loop that takes a node out of the list of each level, until a level does not have it.
unfoldable pub unsplice : ℕ → ℕ → Ptr → Update → Heap → Option Heap
unsplice zero i target update h = some h
unsplice (suc count) i target update h = update i >>= λ u. get_forward u i h >>= λ next. elim next [
  | none ↦ some h
  | some q ↦ elim (q == target) [
    | false ↦ some h
    | true ↦ get_forward target i h >>= λ after.
        set_forward u i after h >>= λ h1. unsplice count (suc i) target update h1
  ]
]

-- The loop that lowers currentLevel past empty levels.
unfoldable pub lower_level : ℕ → Ptr → Heap → Option ℕ
lower_level zero header h = some 0
lower_level (suc level) header h = get_forward header (suc level) h >>= λ next. elim next [
  | none ↦ lower_level level header h
  | some _ ↦ some (suc level)
]

-- remove(key)
unfoldable pub remove_key : Bytes → SkipList → Option (SkipList × Bool)
remove_key key s =
    descend_update (rounds s) key (suc s.current_level) s.header (λ i. none) s.heap >>= λ r.
    get_forward r.0 0 s.heap >>= λ next. matches key next s.heap >>= λ found. elim found [
      | none ↦ some (s, false)
      | some (p, n) ↦ unsplice (suc s.current_level) 0 p r.1 s.heap >>= λ h.
          lower_level s.current_level s.header (put_node p none h) >>= λ level.
          some (
            record s { heap = put_node p none h; current_level = level; size = pred_ℤ s.size },
            true,
          )
    ]

-- SkipList(): the header at address 0, with max_level + 1 pointers.
unfoldable pub new_skip_list : List Bool → SkipList
new_skip_list coins = record {
  heap = record {
    node = λ p. if p == 0 then some (record { key = []; value = []; top = max_level }) else none;
    forward = λ p l. none;
  };
  header = 0;
  current_level = 0;
  size = pos 0;
  coins = coins;
  next_address = 1;
}

-- getSize()
abbrev pub get_size : SkipList → ℤ
get_size s = s.size

-- The loop of the destructor, which reads the next pointer and then deletes the node.
unfoldable pub free_nodes : ℕ → Option Ptr → Heap → Option Heap
free_nodes zero current h = none
free_nodes (suc fuel) none h = some h
free_nodes (suc fuel) (some p) h =
    get_forward p 0 h >>= λ next. free_nodes fuel next (put_node p none h)

-- ~SkipList()
unfoldable pub destroy : SkipList → Option Heap
destroy s = get_forward s.header 0 s.heap >>= λ first.
    free_nodes (rounds s) first s.heap >>= λ h. some (put_node s.header none h)
