-- ===== src/SkipList/Contents.antt =====
-- include/storage/skiplist.h: the elements as a map, when one is put between the rest or taken out.
use my_raft_kvdb.Base.{
  ℕ, suc, ◌<◌, ◌≤◌, ◌≡◌, refl, ap, true, false, none, some, [], ◌∷◌, ◌++◌, length, if◌then◌else◌,
  arith, inl, inr, Bool-cases,
}
use my_raft_kvdb.SkipList.{Ptr, less}
use my_raft_kvdb.SkipList.Cells.{
  Cell, Cells, has, AllBelow, NoneBelow, AllAbove, IsSorted, AllReach, lookup,
}
use my_raft_kvdb.SkipList.Order.{less_irrefl, less_total, less_trans, same_bytes_lem}
use my_raft_kvdb.SkipList.Valid.{AllUsed, found}
use my_raft_kvdb.Text.{Bytes, same_bytes}

AllAbove-trans : (s t : Bytes) (cs : Cells) → less s t ≡ true → AllAbove t cs → AllAbove s cs
AllAbove-trans s t [] l a = tt
AllAbove-trans s t (c ∷ cs) l a = (less_trans s t c.key l a.0, AllAbove-trans s t cs l a.1)

-- A sorted rest without the key is above it.
pub AllAbove-rest :
    (key : Bytes) (ys : Cells)
    → NoneBelow key ys
    → IsSorted ys
    → found key ys ≡ none
    → AllAbove key ys
AllAbove-rest key [] b s e = tt
AllAbove-rest key (y ∷ ys) b s e =
    let differs : same_bytes y.key key ≡ false = ground arith in
    let above = less_total y.key key b.0 differs in (above, AllAbove-trans key y.key ys above s.0)

AllAbove-insert :
    (s : Bytes) (xs : Cells) (c : Cell) (ys : Cells)
    → less s c.key ≡ true
    → AllAbove s (xs ++ ys)
    → AllAbove s (xs ++ (c ∷ ys))
AllAbove-insert s [] c ys l a = (l, a)
AllAbove-insert s (x ∷ xs) c ys l a = (a.0, AllAbove-insert s xs c ys l a.1)

pub IsSorted-insert :
    (xs : Cells) (c : Cell) (ys : Cells)
    → IsSorted (xs ++ ys)
    → AllBelow c.key xs
    → AllAbove c.key ys
    → IsSorted (xs ++ (c ∷ ys))
IsSorted-insert [] c ys s b a = (a, s)
IsSorted-insert (x ∷ xs) c ys s b a =
    (AllAbove-insert x.key xs c ys b.0 s.0, IsSorted-insert xs c ys s.1 b.1 a)

AllAbove-erase :
    (s : Bytes) (xs : Cells) (c : Cell) (ys : Cells)
    → AllAbove s (xs ++ (c ∷ ys))
    → AllAbove s (xs ++ ys)
AllAbove-erase s [] c ys a = a.1
AllAbove-erase s (x ∷ xs) c ys a = (a.0, AllAbove-erase s xs c ys a.1)

pub IsSorted-erase :
    (xs : Cells) (c : Cell) (ys : Cells) → IsSorted (xs ++ (c ∷ ys)) → IsSorted (xs ++ ys)
IsSorted-erase [] c ys s = s.1
IsSorted-erase (x ∷ xs) c ys s = (AllAbove-erase x.key xs c ys s.0, IsSorted-erase xs c ys s.1)

pub AllReach-mono : (i j : ℕ) (cs : Cells) → i ≤ j → AllReach i cs → AllReach j cs
AllReach-mono i j [] l a = tt
AllReach-mono i j (c ∷ cs) l a = (omega (arith, a.0), AllReach-mono i j cs l a.1)

pub AllReach-insert :
    (level : ℕ) (xs : Cells) (c : Cell) (ys : Cells)
    → AllReach level (xs ++ ys)
    → c.top ≤ level
    → AllReach level (xs ++ (c ∷ ys))
AllReach-insert level [] c ys a l = (l, a)
AllReach-insert level (x ∷ xs) c ys a l = (a.0, AllReach-insert level xs c ys a.1 l)

pub AllReach-erase :
    (level : ℕ) (xs : Cells) (c : Cell) (ys : Cells)
    → AllReach level (xs ++ (c ∷ ys))
    → AllReach level (xs ++ ys) × (c.top ≤ level)
AllReach-erase level [] c ys a = (a.1, a.0)
AllReach-erase level (x ∷ xs) c ys a =
    let (r, l) = AllReach-erase level xs c ys a.1 in ((a.0, r), l)

AllUsed-suc : (n : Ptr) (cs : Cells) → AllUsed n cs → AllUsed (suc n) cs
AllUsed-suc n [] a = tt
AllUsed-suc n (c ∷ cs) a = (omega (arith, a.0), AllUsed-suc n cs a.1)

pub AllUsed-insert :
    (xs : Cells) (c : Cell) (ys : Cells)
    → AllUsed c.ptr (xs ++ ys)
    → AllUsed (suc c.ptr) (xs ++ (c ∷ ys))
AllUsed-insert [] c ys a = (omega arith, AllUsed-suc c.ptr ys a)
AllUsed-insert (x ∷ xs) c ys a = (omega (arith, a.0), AllUsed-insert xs c ys a.1)

pub AllUsed-swap :
    (n : Ptr) (xs : Cells) (b c : Cell) (ys : Cells)
    → b.ptr ≡ c.ptr
    → AllUsed n (xs ++ (b ∷ ys))
    → AllUsed n (xs ++ (c ∷ ys))
AllUsed-swap n [] b c ys e a = (omega (arith, a.0), a.1)
AllUsed-swap n (x ∷ xs) b c ys e a = (a.0, AllUsed-swap n xs b c ys e a.1)

pub AllUsed-erase :
    (n : Ptr) (xs : Cells) (c : Cell) (ys : Cells)
    → AllUsed n (xs ++ (c ∷ ys))
    → AllUsed n (xs ++ ys) × (c.ptr < n)
AllUsed-erase n [] c ys a = (a.1, a.0)
AllUsed-erase n (x ∷ xs) c ys a = let (r, l) = AllUsed-erase n xs c ys a.1 in ((a.0, r), l)

-- What `new` returns is no element.
pub has_fresh : (n : Ptr) (cs : Cells) → AllUsed n cs → has n cs ≡ false
has_fresh n [] a = refl
has_fresh n (c ∷ cs) a = ground (arith, a.0, has_fresh n cs a.1)

pub length-insert :
    (xs : Cells) (c : Cell) (ys : Cells) → length (xs ++ (c ∷ ys)) ≡ suc (length (xs ++ ys))
length-insert [] c ys = refl
length-insert (x ∷ xs) c ys = ap suc (length-insert xs c ys)

-- The values with one more element that is above the elements in front of it.
pub lookup-insert :
    (k : Bytes) (xs : Cells) (c : Cell) (ys : Cells)
    → AllBelow c.key xs
    → lookup k (xs ++ (c ∷ ys)) ≡ (if same_bytes k c.key then some c.value else lookup k (xs ++ ys))
lookup-insert k [] c ys b = refl
lookup-insert k (x ∷ xs) c ys b = elim (Bool-cases (same_bytes k x.key)) [
  | inl t ↦
      let same : k ≡ x.key = same_bytes_lem k x.key t in
      let differs : same_bytes k c.key ≡ false = rw same (less_irrefl x.key c.key b.0) in
      rw t (rw differs refl)
  | inr t ↦ rw t (lookup-insert k xs c ys b.1)
]

-- A key above which all elements are has no value.
pub lookup-AllAbove : (key : Bytes) (cs : Cells) → AllAbove key cs → lookup key cs ≡ none
lookup-AllAbove key [] a = refl
lookup-AllAbove key (c ∷ cs) a = rw (less_irrefl key c.key a.0) (lookup-AllAbove key cs a.1)

-- The values without an element that is above those in front of it and below those behind it.
pub lookup-erase :
    (k : Bytes) (xs : Cells) (c : Cell) (ys : Cells)
    → AllBelow c.key xs
    → AllAbove c.key ys
    → lookup k (xs ++ ys) ≡ (if same_bytes k c.key then none else lookup k (xs ++ (c ∷ ys)))
lookup-erase k [] c ys b a = elim (Bool-cases (same_bytes k c.key)) [
  | inl t ↦ rw t (rw (same_bytes_lem k c.key t) (lookup-AllAbove c.key ys a))
  | inr t ↦ rw t refl
]
lookup-erase k (x ∷ xs) c ys b a = elim (Bool-cases (same_bytes k x.key)) [
  | inl t ↦
      let differs : same_bytes k c.key ≡ false =
        rw (same_bytes_lem k x.key t) (less_irrefl x.key c.key b.0) in
      rw t (rw differs refl)
  | inr t ↦ rw t (lookup-erase k xs c ys b.1 a)
]
