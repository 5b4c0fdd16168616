-- ===== src/SkipList/Valid.antt =====
-- include/storage/skiplist.h: when the fields of a skip list stand for a list of elements.
use my_raft_kvdb.Base.{
  ℕ, ◌<◌, ◌≤◌, ◌≡◌, refl, false, Option, none, some, [], ◌∷◌, ◌++◌, length, length-append, ◌==◌,
  if◌then◌else◌, arith, pos,
}
use my_raft_kvdb.SkipList.{Ptr, Node, Heap, SkipList, max_level, rounds, get_forward, matches, less}
use my_raft_kvdb.SkipList.Cells.{
  Cells, node_of, has, next, last_at, Linked, cons, AllBelow, NoneBelow, AllAbove, IsSorted,
  AllReach, lookup,
}
use my_raft_kvdb.SkipList.Descent.{Descent, descent}
use my_raft_kvdb.SkipList.Order.{less_irrefl, less_trans, same_bytes_sym, less_total}
use my_raft_kvdb.SkipList.Walk.{Place}
use my_raft_kvdb.Text.{Bytes, same_bytes}

abbrev pub AllUsed : Ptr → Cells → Type 0
AllUsed n [] = Unit {0}
AllUsed n (c ∷ cs) = (c.ptr < n) × AllUsed n cs

pub record IsSkipList (s : SkipList) (cs : Cells) : Type 0 where
  pub header_node : Node
  pub header_holds : s.heap.node s.header ≡ some header_node
  pub header_top : header_node.top ≡ max_level
  pub header_forward : (j : ℕ) → j ≤ max_level → s.heap.forward s.header j ≡ next j cs
  pub header_apart : has s.header cs ≡ false
  pub header_used : s.header < s.next_address
  pub linked : Linked s.heap cs
  pub sorted : IsSorted cs
  pub tops : AllReach s.current_level cs
  pub level_bound : s.current_level < max_level
  pub size_eq : s.size ≡ pos (length cs)
  pub used : AllUsed s.next_address cs
  pub owned : (q : Ptr) → (q == s.header) ≡ false → has q cs ≡ false → s.heap.node q ≡ none

-- The element with a key, where nothing is below the key.
abbrev pub found : Bytes → Cells → Option (Ptr × Node)
found key [] = none
found key (b ∷ bs) = if same_bytes b.key key then some (b.ptr, node_of b) else none

pub matches-next :
    (key : Bytes) (h : Heap) (bs : Cells)
    → Linked h bs
    → matches key (next 0 bs) h ≡ some (found key bs)
unfolding matches
matches-next key h [] k = refl
matches-next key h (b ∷ bs) (cons holds k) = ground (arith, holds.node)

pub lookup_below :
    (key : Bytes) (xs ys : Cells) → AllBelow key xs → lookup key (xs ++ ys) ≡ lookup key ys
lookup_below key [] ys b = refl
lookup_below key (c ∷ xs) ys b =
    ground (arith, less_irrefl c.key key, same_bytes_sym c.key key, lookup_below key xs ys b.1)

pub lookup_above :
    (key s : Bytes) (cs : Cells)
    → less s key ≡ false
    → AllAbove s cs
    → same_bytes s key ≡ false
    → lookup key cs ≡ none
lookup_above key s [] h a e = refl
lookup_above key s (c ∷ cs) h a e = ground (
  arith,
  less_total s key,
  less_trans key s c.key,
  less_irrefl key c.key,
  lookup_above key s cs h a.1,
)

abbrev pub value_of : Option (Ptr × Node) → Option Bytes
value_of none = none
value_of (some (p, n)) = some n.value

pub lookup-found :
    (key : Bytes) (bs : Cells)
    → NoneBelow key bs
    → IsSorted bs
    → lookup key bs ≡ value_of (found key bs)
lookup-found key [] b s = refl
lookup-found key (c ∷ bs) b s =
    ground (arith, same_bytes_sym c.key key, lookup_above key c.key bs b.0 s.0)

pub IsSorted-append_right : (xs ys : Cells) → IsSorted (xs ++ ys) → IsSorted ys
IsSorted-append_right [] ys s = s
IsSorted-append_right (c ∷ xs) ys s = IsSorted-append_right xs ys s.1

pub Linked-append_right : {h : Heap} (xs ys : Cells) → Linked h (xs ++ ys) → Linked h ys
Linked-append_right [] ys k = k
Linked-append_right (c ∷ xs) ys (cons _ k) = Linked-append_right xs ys k

-- What the loops find for a key: the elements below it, the rest, and the predecessors.
pub record Found (key : Bytes) (s : SkipList) (before after : Cells) : Type 0 where
  pub before_AllBelow : AllBelow key before
  pub after_NoneBelow : NoneBelow key after
  pub way :
      Descent s.heap key after after_NoneBelow
        (rounds s)
        s.current_level
        s.header
        before
        (λ i. none)
  pub next_after : get_forward (last_at 0 s.header before) 0 s.heap ≡ some (next 0 after)
  pub match_after : matches key (next 0 after) s.heap ≡ some (found key after)

get_forward-Place :
    (h : Heap) (key : Bytes) (bs : Cells) (none_below : NoneBelow key bs) (p : Ptr)
    → Place h key bs none_below 0 p []
    → get_forward p 0 h ≡ some (next 0 bs)
unfolding get_forward
get_forward-Place h key bs none_below p place =
    rw place.holds (ground (arith, place.reach, place.forward 0 (omega arith)))

pub find :
    (key : Bytes) (s : SkipList) (xs ys : Cells)
    → IsSkipList s (xs ++ ys)
    → AllBelow key xs
    → NoneBelow key ys
    → Found key s xs ys
find key s xs ys v b n =
    let start : Place s.heap key ys n s.current_level s.header xs = record {
      node = v.header_node;
      holds = v.header_holds;
      reach = omega (arith, v.level_bound, v.header_top);
      forward = λ j m. v.header_forward j (omega (arith, v.level_bound));
      linked = v.linked;
      below = b;
    } in
    let d =
      descent s.heap key ys n (rounds s) s.current_level s.header xs (λ i. none) start
        (enough_rounds s xs ys v.size_eq) v.level_bound in
    record {
      before_AllBelow = b;
      after_NoneBelow = n;
      way = d;
      next_after = get_forward-Place s.heap key ys n _ d.place;
      match_after = matches-next key s.heap ys (Linked-append_right xs ys v.linked);
    }
  where
    enough_rounds :
        (s : SkipList) (xs ys : Cells) → s.size ≡ pos (length (xs ++ ys)) → length xs < rounds s
    enough_rounds s xs ys e = rw e (omega (arith, length-append xs ys))
