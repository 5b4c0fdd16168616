-- ===== src/SkipList/Shrink.antt =====
-- include/storage/skiplist.h: the nodes and pointers after remove has taken an
-- element out.
use my_raft_kvdb.Base.{
  ℕ, ◌≤◌, ◌≡◌, refl, ◌∙◌, false, ◌&&◌, none, [], ◌∷◌, ◌++◌, leb, leb→le, le→leb, ◌==◌,
  if◌then◌else◌, arith, inl, inr, Bool-cases,
}
use my_raft_kvdb.SkipList.{Ptr, Heap}
use my_raft_kvdb.SkipList.Cells.{
  Cell, Cells, has, next, last_at, Linked, nil, cons, next-append, has-append,
}
use my_raft_kvdb.SkipList.Preds.{is_last_at}

module _ (h h' : Heap) (c : Cell) (u : ℕ → Ptr) (ys : Cells) where
  pub record Shrunk : Type 0 where
    pub node : (q : Ptr) → h'.node q ≡ (if q == c.ptr then none else h.node q)
    pub forward :
        (q : Ptr) (j : ℕ)
        → h'.forward q j ≡ (if leb j c.top && q == u j then next j ys else h.forward q j)

  pub shrunk_front :
      Shrunk
      → (q : Ptr) (j : ℕ) (xs : Cells) → has q xs ≡ false
      → h.forward q j ≡ next j (xs ++ (c ∷ ys))
      → (j ≤ c.top → u j ≡ last_at j q xs)
      → h'.forward q j ≡ next j (xs ++ ys)
  shrunk_front g q j xs b f e = elim (Bool-cases (leb j c.top)) [
    | inl t ↦
        let e' : u j ≡ last_at j q xs = e (leb→le j c.top t) in
        ground (
          arith,
          g.forward q j,
          is_last_at j q xs b,
          next-append j xs ys,
          next-append j xs (c ∷ ys),
        )
    | inr t ↦ ground (arith, g.forward q j, next-append j xs ys, next-append j xs (c ∷ ys))
  ]

  shrunk_rest :
      Shrunk
      → (zs : Cells) → Linked h zs
      → has c.ptr zs ≡ false
      → ((j : ℕ) → j ≤ c.top → has (u j) zs ≡ false)
      → Linked h' zs
  shrunk_rest g [] k a b = nil
  shrunk_rest g (z ∷ zs) (cons holds k) a b =
      cons
        (record {
          node = ground (arith, g.node z.ptr, holds.node);
          forward = λ j l. elim (Bool-cases (leb j c.top)) [
            | inl t ↦
                let apart = b j (leb→le j c.top t) in
                ground (arith, g.forward z.ptr j, holds.forward j l)
            | inr t ↦ ground (arith, g.forward z.ptr j, holds.forward j l)
          ];
          apart = holds.apart;
        })
        (shrunk_rest g zs k (ground arith) (λ j l. let apart = b j l in ground arith))

  pub Linked-shrunk :
      Shrunk
      → (xs : Cells) → Linked h (xs ++ (c ∷ ys))
      → ((j : ℕ) → j ≤ c.top → has (u j) (c ∷ ys) ≡ false)
      → ((j : ℕ) → j ≤ c.top → (r : Ptr) × (u j ≡ last_at j r xs))
      → Linked h' (xs ++ ys)
  Linked-shrunk g [] (cons holds k) b e =
      shrunk_rest g ys k holds.apart (λ j l. let apart = b j l in ground arith)
  Linked-shrunk g (x ∷ xs) (cons holds k) b e =
      let apart = holds.apart in
      let parts = has-append x.ptr xs (c ∷ ys) in
      cons
        (record {
          node = ground (arith, g.node x.ptr, holds.node);
          forward = λ j l.
              shrunk_front g x.ptr j xs (ground arith) (holds.forward j l)
                (λ m. (e j m).1 ∙ rw (le→leb j x.top l) refl);
          apart = ground (arith, has-append x.ptr xs ys);
        })
        (Linked-shrunk g xs k b (λ j m. (if leb j x.top then x.ptr else (e j m).0, (e j m).1)))
