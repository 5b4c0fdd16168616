-- ===== src/SkipList/Preds.antt =====
-- include/storage/skiplist.h: the pointers of the predecessors that the descent keeps.
use my_raft_kvdb.Base.{
  ℕ, ◌<◌, ◌≡◌, refl, ◌∙◌, true, false, none, some, [], ◌∷◌, ◌++◌, leb, leb→le, ◌==◌, arith, inl,
  inr, Bool-cases,
}
use my_raft_kvdb.SkipList.{Ptr, Heap}
use my_raft_kvdb.SkipList.Cells.{Cells, node_of, has, next, last_at, Linked, cons, AllReach}
use my_raft_kvdb.SkipList.Splice.{Reaches}

pub Reaches-last_at :
    (h : Heap) (j : ℕ) (p : Ptr) (xs ys : Cells)
    → Linked h (xs ++ ys)
    → Reaches h p j
    → Reaches h (last_at j p xs) j
Reaches-last_at h j p [] ys k r = r
Reaches-last_at h j p (x ∷ xs) ys (cons holds k) r = elim (Bool-cases (leb j x.top)) [
  | inl t ↦ rw t (
      Reaches-last_at h j x.ptr xs ys k
        (record { node = node_of x; holds = holds.node; reach = leb→le j x.top t }))
  | inr t ↦ rw t (Reaches-last_at h j p xs ys k r)
]

-- A predecessor points to what is behind the elements passed.
pub forward-last_at :
    (h : Heap) (j : ℕ) (p : Ptr) (xs ys : Cells)
    → Linked h (xs ++ ys)
    → h.forward p j ≡ next j (xs ++ ys)
    → h.forward (last_at j p xs) j ≡ next j ys
forward-last_at h j p [] ys k f = f
forward-last_at h j p (x ∷ xs) ys (cons holds k) f = elim (Bool-cases (leb j x.top)) [
  | inl t ↦ rw t (forward-last_at h j x.ptr xs ys k (holds.forward j (leb→le j x.top t)))
  | inr t ↦ rw t (forward-last_at h j p xs ys k (f ∙ rw t refl))
]

-- A predecessor is none of the elements behind.
pub has-last_at :
    (h : Heap) (j : ℕ) (p : Ptr) (xs ys : Cells)
    → Linked h (xs ++ ys)
    → has p (xs ++ ys) ≡ false
    → has (last_at j p xs) ys ≡ false
has-last_at h j p [] ys k a = a
has-last_at h j p (x ∷ xs) ys (cons holds k) a = elim (Bool-cases (leb j x.top)) [
  | inl t ↦ rw t (has-last_at h j x.ptr xs ys k holds.apart)
  | inr t ↦ rw t (has-last_at h j p xs ys k (ground arith))
]

-- It is a fresh pointer neither.
pub fresh-last_at :
    (new : Ptr) (j : ℕ) (p : Ptr) (xs : Cells)
    → has new xs ≡ false
    → (p == new) ≡ false
    → (last_at j p xs == new) ≡ false
fresh-last_at new j p [] a b = b
fresh-last_at new j p (x ∷ xs) a b = elim (Bool-cases (leb j x.top)) [
  | inl t ↦ rw t (fresh-last_at new j x.ptr xs (ground arith) (ground arith))
  | inr t ↦ rw t (fresh-last_at new j p xs (ground arith) b)
]

-- Above the levels of the elements the predecessor is where the loop starts.
pub last_at-AllReach :
    (level j : ℕ) (p : Ptr) (xs ys : Cells)
    → AllReach level (xs ++ ys)
    → level < j
    → last_at j p xs ≡ p
last_at-AllReach level j p [] ys a l = refl
last_at-AllReach level j p (x ∷ xs) ys a l = ground (arith, last_at-AllReach level j p xs ys a.1 l)

-- A pointer in front of elements is the predecessor exactly where none of them reaches the level.
pub is_last_at :
    (j : ℕ) (p : Ptr) (xs : Cells)
    → has p xs ≡ false
    → (p == last_at j p xs) ≡ (elim (next j xs) [ none ↦ true | some _ ↦ false ])
is_last_at j p [] a = ground arith
is_last_at j p (x ∷ xs) a = elim (Bool-cases (leb j x.top)) [
  | inl t ↦ rw t (apart_last_at x.ptr xs (ground arith) (ground arith))
  | inr t ↦ rw t (is_last_at j p xs (ground arith))
]
  where
    apart_last_at :
        (q : Ptr) (ys : Cells) → (p == q) ≡ false → has p ys ≡ false → (p == last_at j q ys) ≡ false
    apart_last_at q [] e b = e
    apart_last_at q (y ∷ ys) e b = elim (Bool-cases (leb j y.top)) [
      | inl t ↦ rw t (apart_last_at y.ptr ys (ground arith) (ground arith))
      | inr t ↦ rw t (apart_last_at q ys e (ground arith))
    ]

pub next-has :
    (j : ℕ) (p : Ptr) (ys : Cells)
    → has p ys ≡ false
    → (elim (next j ys) [ none ↦ false | some q ↦ q == p ]) ≡ false
next-has j p [] a = refl
next-has j p (y ∷ ys) a = ground (arith, next-has j p ys)
