-- ===== src/Cluster/Members.antt =====
-- src/raft/raft_node.cpp: sets of servers as lists of identifiers; two majorities have a common member.
use my_raft_kvdb.Base.{
  suc, ◌+◌, ◌<◌, ◌≤◌, ◌≡◌, refl, ap, sym, true, false, not, ◌&&◌, ◌||◌, List, [], ◌∷◌, ◌++◌, length,
  length-append, ℤ, ◌==ℤ◌, ==ℤ_iff, arith, ◌⊎◌, inl, inr, Bool-cases,
}
use my_raft_kvdb.Cluster.{without}
use my_raft_kvdb.Node.{contains, majority}

abbrev pub IsDistinct : List ℤ → Type 0
IsDistinct [] = Unit {0}
IsDistinct (x ∷ xs) = (contains x xs ≡ false) × IsDistinct xs

abbrev pub AllIn : List ℤ → List ℤ → Type 0
AllIn [] ys = Unit {0}
AllIn (x ∷ xs) ys = (contains x ys ≡ true) × AllIn xs ys

pub contains-without :
    (x v : ℤ) (xs : List ℤ) → contains x (without v xs) ≡ (contains x xs && not (x ==ℤ v))
contains-without x v [] = refl
contains-without x v (y ∷ xs) = ground (arith, contains-without x v xs)

length-without_le : (v : ℤ) (xs : List ℤ) → length (without v xs) ≤ length xs
length-without_le v [] = omega arith
length-without_le v (x ∷ xs) = ground (arith, length-without_le v xs)

length-without_lt : (v : ℤ) (xs : List ℤ) → contains v xs ≡ true → length (without v xs) < length xs
length-without_lt v [] h = ground arith
length-without_lt v (x ∷ xs) h = ground (arith, length-without_lt v xs, length-without_le v xs)

without_absent : (v : ℤ) (xs : List ℤ) → contains v xs ≡ false → without v xs ≡ xs
without_absent v [] h = refl
without_absent v (x ∷ xs) h = ground (arith, without_absent v xs)

-- The peers of a member are one less than the members.
pub length-without :
    (v : ℤ) (xs : List ℤ)
    → IsDistinct xs
    → contains v xs ≡ true
    → suc (length (without v xs)) ≡ length xs
length-without v [] d h = ground arith
length-without v (x ∷ xs) d h = elim (Bool-cases (x ==ℤ v)) [
  | inl e ↦
      let same : x ≡ v = ground (arith, ==ℤ_iff x v) in
      rw e (rw (without_absent v xs (rw (sym same) d.0)) refl)
  | inr e ↦ rw e (ap suc (length-without v xs d.1 (ground arith)))
]

AllIn-without :
    (v : ℤ) (xs ys : List ℤ) → contains v xs ≡ false → AllIn xs ys → AllIn xs (without v ys)
AllIn-without v [] ys h a = tt
AllIn-without v (x ∷ xs) ys h a =
    (ground (arith, contains-without x v ys, a.0), AllIn-without v xs ys (ground arith) a.1)

length-AllIn : (xs ys : List ℤ) → IsDistinct xs → AllIn xs ys → length xs ≤ length ys
length-AllIn [] ys d a = omega arith
length-AllIn (x ∷ xs) ys d a = omega (
  arith,
  length-AllIn xs (without x ys) d.1 (AllIn-without x xs ys d.0 a.1),
  length-without_lt x ys a.0,
)

abbrev Apart : List ℤ → List ℤ → Type 0
Apart [] ys = Unit {0}
Apart (x ∷ xs) ys = (contains x ys ≡ false) × Apart xs ys

meet : (xs ys : List ℤ) → ((q : ℤ) × (contains q xs ≡ true) × (contains q ys ≡ true)) ⊎ Apart xs ys
meet [] ys = inr tt
meet (x ∷ xs) ys = elim (Bool-cases (contains x ys)) [
  | inl t ↦ inl (x, ground arith, t)
  | inr f ↦ elim (meet xs ys) [ inl (q, a, b) ↦ inl (q, ground arith, b) | inr r ↦ inr (f, r) ]
]

contains-append :
    (x : ℤ) (xs ys : List ℤ) → contains x (xs ++ ys) ≡ (contains x xs || contains x ys)
contains-append x [] ys = refl
contains-append x (y ∷ xs) ys = ground (arith, contains-append x xs ys)

IsDistinct-append :
    (xs ys : List ℤ) → IsDistinct xs → IsDistinct ys → Apart xs ys → IsDistinct (xs ++ ys)
IsDistinct-append [] ys d e a = e
IsDistinct-append (x ∷ xs) ys d e a =
    (ground (arith, contains-append x xs ys, d.0, a.0), IsDistinct-append xs ys d.1 e a.1)

AllIn-append : (xs ys zs : List ℤ) → AllIn xs zs → AllIn ys zs → AllIn (xs ++ ys) zs
AllIn-append [] ys zs a b = b
AllIn-append (x ∷ xs) ys zs a b = (a.0, AllIn-append xs ys zs a.1 b)

-- Two sets of members that are more than all together have a common member.
common_member :
    (xs ys members : List ℤ)
    → IsDistinct xs
    → IsDistinct ys
    → AllIn xs members
    → AllIn ys members
    → length members < length xs + length ys
    → (q : ℤ) × (contains q xs ≡ true) × (contains q ys ≡ true)
common_member xs ys members d e a b l = elim (meet xs ys) [
  | inl r ↦ r
  | inr apart ↦
      let total =
        length-AllIn (xs ++ ys) members (IsDistinct-append xs ys d e apart)
          (AllIn-append xs ys members a b) in
      let too_many : ⊥ = omega (arith, length-append xs ys) in elim too_many [ ]
]

-- Two majorities of a cluster have a common member.
pub majorities_meet :
    (xs ys members : List ℤ) (v w : ℤ)
    → IsDistinct members
    → contains v members ≡ true
    → contains w members ≡ true
    → IsDistinct xs
    → IsDistinct ys
    → AllIn xs members
    → AllIn ys members
    → majority (without v members) ≤ length xs
    → majority (without w members) ≤ length ys
    → (q : ℤ) × (contains q xs ≡ true) × (contains q ys ≡ true)
majorities_meet xs ys members v w d i j dx dy ax ay lx ly =
    let peers = length-without v members d i in
    let peers' = length-without w members d j in
    common_member xs ys members dx dy ax ay (omega arith)
