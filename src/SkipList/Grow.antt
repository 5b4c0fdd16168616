-- ===== src/SkipList/Grow.antt =====
-- include/storage/skiplist.h: the nodes and pointers after insert has put a new node between the
-- elements below its key and the rest.
use my_raft_kvdb.Base.{
  ℕ, ◌≤◌, ◌≡◌, refl, ◌∙◌, false, some, [], ◌∷◌, ◌++◌, leb, leb→le, le→leb, ◌==◌, if◌then◌else◌,
  arith, inl, inr, Bool-cases,
}
use my_raft_kvdb.SkipList.{Ptr, Heap}
use my_raft_kvdb.SkipList.Cells.{
  Cell, Cells, node_of, has, next, last_at, Linked, nil, cons, next-append, has-append,
}
use my_raft_kvdb.SkipList.Preds.{is_last_at}

module _ (h h' : Heap) (c : Cell) (u : ℕ → Ptr) (ys : Cells) where
  -- The new node `c`, and the pointers of the levels it has.
  pub record Grown : Type 0 where
    pub node : (q : Ptr) → h'.node q ≡ (if q == c.ptr then some (node_of c) else h.node q)
    pub new_forward : (j : ℕ) → j ≤ c.top → h'.forward c.ptr j ≡ next j ys
    pub forward :
        (q : Ptr) (j : ℕ)
        → (q == c.ptr) ≡ false
        → h'.forward q j
          ≡ (if leb j c.top then if q == u j then some c.ptr else h.forward q j else h.forward q j)

  -- What is in front of the elements below the key.
  pub grown_front :
      Grown
      → (q : Ptr) (j : ℕ) (xs : Cells) → (q == c.ptr) ≡ false
      → has q xs ≡ false
      → h.forward q j ≡ next j (xs ++ ys)
      → (j ≤ c.top → u j ≡ last_at j q xs)
      → h'.forward q j ≡ next j (xs ++ (c ∷ ys))
  grown_front g q j xs a b f e = elim (Bool-cases (leb j c.top)) [
    | inl t ↦
        let e' : u j ≡ last_at j q xs = e (leb→le j c.top t) in
        ground (
          arith,
          g.forward q j a,
          is_last_at j q xs b,
          next-append j xs ys,
          next-append j xs (c ∷ ys),
        )
    | inr t ↦ ground (arith, g.forward q j a, next-append j xs ys, next-append j xs (c ∷ ys))
  ]

  -- The rest is as it was.
  grown_rest :
      Grown
      → (zs : Cells) → Linked h zs
      → has c.ptr zs ≡ false
      → ((j : ℕ) → j ≤ c.top → has (u j) zs ≡ false)
      → Linked h' zs
  grown_rest g [] k a b = nil
  grown_rest g (z ∷ zs) (cons holds k) a b =
      cons
        (record {
          node = ground (arith, g.node z.ptr, holds.node);
          forward = λ j l. elim (Bool-cases (leb j c.top)) [
            | inl t ↦
                let apart = b j (leb→le j c.top t) in
                ground (arith, g.forward z.ptr j, holds.forward j l)
            | inr t ↦ ground (arith, g.forward z.ptr j, holds.forward j l)
          ];
          apart = holds.apart;
        })
        (grown_rest g zs k (ground arith) (λ j l. let apart = b j l in ground arith))

  grown_new :
      Grown
      → Linked h ys
      → has c.ptr ys ≡ false
      → ((j : ℕ) → j ≤ c.top → has (u j) ys ≡ false)
      → Linked h' (c ∷ ys)
  grown_new g k a b =
      cons (record { node = ground (arith, g.node c.ptr); forward = g.new_forward; apart = a })
        (grown_rest g ys k a b)

  pub Linked-grown :
      Grown
      → (xs : Cells) → Linked h (xs ++ ys)
      → has c.ptr (xs ++ ys) ≡ false
      → ((j : ℕ) → j ≤ c.top → has (u j) ys ≡ false)
      → ((j : ℕ) → j ≤ c.top → (r : Ptr) × (u j ≡ last_at j r xs))
      → Linked h' (xs ++ (c ∷ ys))
  Linked-grown g [] k a b e = grown_new g k a b
  Linked-grown g (x ∷ xs) (cons holds k) a b e =
      cons
        (record {
          node = ground (arith, g.node x.ptr, holds.node);
          forward = λ j l.
              grown_front g x.ptr j xs (ground arith)
                (ground (arith, has-append x.ptr xs ys, holds.apart)) (holds.forward j l)
                (λ m. (e j m).1 ∙ rw (le→leb j x.top l) refl);
          apart = ground (arith, has-append x.ptr xs ys, has-append x.ptr xs (c ∷ ys), holds.apart);
        })
        (Linked-grown g xs k (ground arith) b
          (λ j m. (if leb j x.top then x.ptr else (e j m).0, (e j m).1)))
