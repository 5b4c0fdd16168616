-- ===== src/SkipList/Cells.antt =====
-- include/storage/skiplist.h: the elements that a skip list holds, in the order of level 0, and how
-- they determine its pointers.
use my_raft_kvdb.Base.{
  ℕ, ◌≤◌, ◌≡◌, refl, ap, Bool, true, false, ◌||◌, Option, none, some, List, [], ◌∷◌, ◌++◌, leb,
  ◌==◌, if◌then◌else◌, arith, inl, inr, Bool-cases,
}
use my_raft_kvdb.SkipList.{Ptr, Node, Heap, less}
use my_raft_kvdb.SkipList.Order.{less_mono}
use my_raft_kvdb.Text.{Bytes, same_bytes}

pub record Cell : Type 0 where
  pub ptr : Ptr
  pub key : Bytes
  pub value : Bytes
  pub top : ℕ

abbrev pub Cells : Type 0
Cells = List Cell

abbrev pub node_of : Cell → Node
node_of c = record { key = c.key; value = c.value; top = c.top }

abbrev pub has : Ptr → Cells → Bool
has p [] = false
has p (c ∷ cs) = p == c.ptr || has p cs

-- The first element that reaches a level.
abbrev pub next : ℕ → Cells → Option Ptr
next level [] = none
next level (c ∷ cs) = if leb level c.top then some c.ptr else next level cs

-- The last of the elements that reaches a level, behind a pointer.
abbrev pub last_at : ℕ → Ptr → Cells → Ptr
last_at level p [] = p
last_at level p (c ∷ cs) = last_at level (if leb level c.top then c.ptr else p) cs

-- The node of an element, whose pointers lead into the elements behind it.
pub record Holds (h : Heap) (c : Cell) (cs : Cells) : Type 0 where
  pub node : h.node c.ptr ≡ some (node_of c)
  pub forward : (level : ℕ) → level ≤ c.top → h.forward c.ptr level ≡ next level cs
  pub apart : has c.ptr cs ≡ false

pub data Linked (h : Heap) : Cells → Type 0 where
  nil : Linked h []
  cons : {c : Cell} {cs : Cells} → Holds h c cs → Linked h cs → Linked h (c ∷ cs)

abbrev pub AllBelow : Bytes → Cells → Type 0
AllBelow key [] = Unit {0}
AllBelow key (c ∷ cs) = (less c.key key ≡ true) × AllBelow key cs

abbrev pub NoneBelow : Bytes → Cells → Type 0
NoneBelow key [] = Unit {0}
NoneBelow key (c ∷ cs) = (less c.key key ≡ false) × NoneBelow key cs

abbrev pub AllAbove : Bytes → Cells → Type 0
AllAbove key [] = Unit {0}
AllAbove key (c ∷ cs) = (less key c.key ≡ true) × AllAbove key cs

abbrev pub IsSorted : Cells → Type 0
IsSorted [] = Unit {0}
IsSorted (c ∷ cs) = AllAbove c.key cs × IsSorted cs

abbrev pub AllReach : ℕ → Cells → Type 0
AllReach level [] = Unit {0}
AllReach level (c ∷ cs) = (c.top ≤ level) × AllReach level cs

-- The value of a key.
abbrev pub lookup : Bytes → Cells → Option Bytes
lookup key [] = none
lookup key (c ∷ cs) = if same_bytes key c.key then some c.value else lookup key cs

pub NoneBelow-above :
    (s key : Bytes) (cs : Cells) → less s key ≡ false → AllAbove s cs → NoneBelow key cs
NoneBelow-above s key [] h a = tt
NoneBelow-above s key (c ∷ cs) h a = (less_mono s c.key key h a.0, NoneBelow-above s key cs h a.1)

-- A sorted list falls into what is below a key and the rest.
pub record Cut (key : Bytes) (cs : Cells) : Type 0 where
  pub before : Cells
  pub after : Cells
  pub whole : cs ≡ before ++ after
  pub before_AllBelow : AllBelow key before
  pub after_NoneBelow : NoneBelow key after

Cut-cons :
    (key : Bytes) (c : Cell) (cs : Cells) → less c.key key ≡ true → Cut key cs → Cut key (c ∷ cs)
Cut-cons key c cs h r = record {
  before = c ∷ r.before;
  after = r.after;
  whole = ap (◌∷◌ c) r.whole;
  before_AllBelow = (h, r.before_AllBelow);
  after_NoneBelow = r.after_NoneBelow;
}

pub cut : (key : Bytes) (cs : Cells) → IsSorted cs → Cut key cs
cut key [] s = record {
  before = [];
  after = [];
  whole = refl;
  before_AllBelow = tt;
  after_NoneBelow = tt;
}
cut key (c ∷ cs) s = elim (Bool-cases (less c.key key)) [
  | inl h ↦ Cut-cons key c cs h (cut key cs s.1)
  | inr h ↦ record {
    before = [];
    after = c ∷ cs;
    whole = refl;
    before_AllBelow = tt;
    after_NoneBelow = (h, NoneBelow-above c.key key cs h s.0);
  }
]

pub next-append :
    (level : ℕ) (xs ys : Cells)
    → next level (xs ++ ys) ≡ elim (next level xs) [ none ↦ next level ys | some p ↦ some p ]
next-append level [] ys = refl
next-append level (x ∷ xs) ys = ground (arith, next-append level xs ys)

pub last_at-append :
    (level : ℕ) (p : Ptr) (xs ys : Cells)
    → last_at level p (xs ++ ys) ≡ last_at level (last_at level p xs) ys
last_at-append level p [] ys = refl
last_at-append level p (x ∷ xs) ys =
    last_at-append level (if leb level x.top then x.ptr else p) xs ys

pub has-append : (p : Ptr) (xs ys : Cells) → has p (xs ++ ys) ≡ (has p xs || has p ys)
has-append p [] ys = refl
has-append p (x ∷ xs) ys = ground (arith, has-append p xs ys)
