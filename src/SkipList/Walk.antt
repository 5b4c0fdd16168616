-- ===== src/SkipList/Walk.antt =====
-- include/storage/skiplist.h: where the search loops end.
use my_raft_kvdb.Base.{
  ℕ, zero, suc, ◌<◌, ◌≤◌, ◌≡◌, refl, ◌∙◌, true, false, none, some, [], ◌∷◌, ◌++◌, length, leb,
  leb→le, arith, inl, inr, Bool-cases,
}
use my_raft_kvdb.SkipList.{Ptr, Node, Heap, less, get_forward, walk}
use my_raft_kvdb.SkipList.Cells.{Cells, node_of, next, last_at, Linked, cons, AllBelow, NoneBelow}
use my_raft_kvdb.Text.{Bytes}

-- One turn of the inner loop.
walk_stop :
    (fuel : ℕ) (key : Bytes) (level : ℕ) (p : Ptr) (h : Heap) (n : Node)
    → h.node p ≡ some n
    → level ≤ n.top
    → h.forward p level ≡ none
    → walk (suc fuel) key level p h ≡ some p
unfolding walk get_forward
walk_stop fuel key level p h n e l f = ground arith

walk_end :
    (fuel : ℕ) (key : Bytes) (level : ℕ) (p q : Ptr) (h : Heap) (n m : Node)
    → h.node p ≡ some n
    → level ≤ n.top
    → h.forward p level ≡ some q
    → h.node q ≡ some m
    → less m.key key ≡ false
    → walk (suc fuel) key level p h ≡ some p
unfolding walk get_forward
walk_end fuel key level p q h n m e l f e' b = ground arith

walk_on :
    (fuel : ℕ) (key : Bytes) (level : ℕ) (p q : Ptr) (h : Heap) (n m : Node)
    → h.node p ≡ some n
    → level ≤ n.top
    → h.forward p level ≡ some q
    → h.node q ≡ some m
    → less m.key key ≡ true
    → walk (suc fuel) key level p h ≡ walk fuel key level q h
unfolding walk get_forward
walk_on fuel key level p q h n m e l f e' b = ground arith

module _ (h : Heap) (key : Bytes) (bs : Cells) (rest_none : NoneBelow key bs) where
  -- A node whose pointers, up to a level, lead into the elements `ys` and `bs` behind it, where all
  -- of `ys` are below the key.
  pub record Place (level : ℕ) (p : Ptr) (ys : Cells) : Type 0 where
    pub node : Node
    pub holds : h.node p ≡ some node
    pub reach : level ≤ node.top
    pub forward : (j : ℕ) → j ≤ level → h.forward p j ≡ next j (ys ++ bs)
    pub linked : Linked h (ys ++ bs)
    pub below : AllBelow key ys

  -- Behind all elements below the key the loop stops.
  walk-rest :
      (fuel level : ℕ) (p : Ptr) (n : Node) (cs : Cells)
      → h.node p ≡ some n
      → level ≤ n.top
      → h.forward p level ≡ next level cs
      → Linked h cs
      → NoneBelow key cs
      → walk (suc fuel) key level p h ≡ some p
  walk-rest fuel level p n [] e l f k b = walk_stop fuel key level p h n e l f
  walk-rest fuel level p n (c ∷ cs) e l f (cons holds k) b = elim (Bool-cases (leb level c.top)) [
    | inl t ↦ walk_end fuel key level p c.ptr h n (node_of c) e l (f ∙ rw t refl) holds.node b.0
    | inr t ↦ walk-rest fuel level p n cs e l (f ∙ rw t refl) k b.1
  ]

  pub walk-last_at :
      (fuel level : ℕ) (p : Ptr) (n : Node) (ys : Cells)
      → h.node p ≡ some n
      → level ≤ n.top
      → h.forward p level ≡ next level (ys ++ bs)
      → Linked h (ys ++ bs)
      → AllBelow key ys
      → length ys < fuel
      → walk fuel key level p h ≡ some (last_at level p ys)
  walk-last_at zero level p n ys e l f k b s = elim s [ ]
  walk-last_at (suc fuel) level p n [] e l f k b s = walk-rest fuel level p n bs e l f k rest_none
  walk-last_at (suc fuel) level p n (c ∷ ys) e l f (cons holds k) b s =
      elim (Bool-cases (leb level c.top)) [
        | inl t ↦
            walk_on fuel key level p c.ptr h n (node_of c) e l (f ∙ rw t refl) holds.node b.0
            ∙ walk-last_at fuel level c.ptr (node_of c) ys holds.node (leb→le level c.top t)
                (holds.forward level (leb→le level c.top t)) k b.1 (omega arith)
            ∙ rw t refl
        | inr t ↦
            walk-last_at (suc fuel) level p n ys e l (f ∙ rw t refl) k b.1 (omega arith) ∙ rw t refl
      ]
