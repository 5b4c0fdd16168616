-- ===== src/SkipList/Order.antt =====
-- include/storage/skiplist.h: operator< of the keys is a strict total order that goes with ==.
use my_raft_kvdb.Base.{◌≡◌, refl, true, false, [], ◌∷◌, arith}
use my_raft_kvdb.SkipList.{less}
use my_raft_kvdb.Text.{Bytes, same_bytes}

pub same_bytes_refl : (s : Bytes) → same_bytes s s ≡ true
unfolding same_bytes
same_bytes_refl [] = refl
same_bytes_refl (b ∷ s) = ground (arith, same_bytes_refl s)

pub same_bytes_lem : (s t : Bytes) → same_bytes s t ≡ true → s ≡ t
unfolding same_bytes
same_bytes_lem [] [] h = refl
same_bytes_lem [] (c ∷ t) h = ground arith
same_bytes_lem (b ∷ s) [] h = ground arith
same_bytes_lem (b ∷ s) (c ∷ t) h = ground (arith, same_bytes_lem s t)

pub same_bytes_sym : (s t : Bytes) → same_bytes s t ≡ same_bytes t s
unfolding same_bytes
same_bytes_sym [] [] = refl
same_bytes_sym [] (c ∷ t) = refl
same_bytes_sym (b ∷ s) [] = refl
same_bytes_sym (b ∷ s) (c ∷ t) = ground (arith, same_bytes_sym s t)

pub less_irrefl : (s t : Bytes) → less s t ≡ true → same_bytes s t ≡ false
unfolding less same_bytes
less_irrefl [] [] h = ground arith
less_irrefl [] (c ∷ t) h = refl
less_irrefl (b ∷ s) [] h = refl
less_irrefl (b ∷ s) (c ∷ t) h = ground (arith, less_irrefl s t)

pub less_trans : (s t u : Bytes) → less s t ≡ true → less t u ≡ true → less s u ≡ true
unfolding less
less_trans [] [] u h k = k
less_trans [] (c ∷ t) [] h k = ground arith
less_trans [] (c ∷ t) (d ∷ u) h k = refl
less_trans (b ∷ s) [] u h k = ground arith
less_trans (b ∷ s) (c ∷ t) [] h k = ground arith
less_trans (b ∷ s) (c ∷ t) (d ∷ u) h k = ground (arith, less_trans s t u)

pub less_asymm : (s t : Bytes) → less s t ≡ true → less t s ≡ false
unfolding less
less_asymm [] [] h = ground arith
less_asymm [] (c ∷ t) h = refl
less_asymm (b ∷ s) [] h = ground arith
less_asymm (b ∷ s) (c ∷ t) h = ground (arith, less_asymm s t)

-- Keys that differ are ordered.
pub less_total : (s t : Bytes) → less s t ≡ false → same_bytes s t ≡ false → less t s ≡ true
unfolding less same_bytes
less_total [] [] h e = ground arith
less_total [] (c ∷ t) h e = ground arith
less_total (b ∷ s) [] h e = refl
less_total (b ∷ s) (c ∷ t) h e = ground (arith, less_total s t)

-- What is above a key that is not below `u` is not below `u`.
pub less_mono : (s t u : Bytes) → less s u ≡ false → less s t ≡ true → less t u ≡ false
less_mono s t u h k = ground (arith, less_trans s t u)
