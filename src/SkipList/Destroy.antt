-- ===== src/SkipList/Destroy.antt =====
-- include/storage/skiplist.h: the destructor.
use my_raft_kvdb.Base.{
  ℕ, zero, suc, ◌<◌, ◌≡◌, refl, ap, ◌∙◌, false, Option, none, some, [], ◌∷◌, length, le→leb,
  if◌then◌else◌, arith,
}
use my_raft_kvdb.SkipList.{SkipList, Ptr, Heap, put_node, get_forward, free_nodes, destroy, rounds}
use my_raft_kvdb.SkipList.Cells.{Cells, node_of, has, next, Linked, nil, cons}
use my_raft_kvdb.SkipList.Splice.{get_forward-Reaches}
use my_raft_kvdb.SkipList.Valid.{IsSkipList}

Linked-free :
    (p : Ptr) (h : Heap) (cs : Cells)
    → Linked h cs
    → has p cs ≡ false
    → Linked (put_node p none h) cs
Linked-free p h [] k a = nil
Linked-free p h (c ∷ cs) (cons holds k) a =
    cons
      (record { node = ground (arith, holds.node); forward = holds.forward; apart = holds.apart })
      (Linked-free p h cs k (ground arith))

free_step :
    (fuel : ℕ) (p : Ptr) (o : Option Ptr) (h : Heap)
    → get_forward p 0 h ≡ some o
    → free_nodes (suc fuel) (some p) h ≡ free_nodes fuel o (put_node p none h)
unfolding free_nodes
free_step fuel p o h e = rw e refl

-- The loop deletes the elements, each once and none before its pointer is read.
free_nodes_lem :
    (fuel : ℕ) (cs : Cells) (h : Heap)
    → Linked h cs
    → length cs < fuel
    → (h' : Heap) × (free_nodes fuel (next 0 cs) h ≡ some h')
      × ((q : Ptr) → h'.node q ≡ (if has q cs then none else h.node q))
unfolding free_nodes
free_nodes_lem zero cs h k l = elim l [ ]
free_nodes_lem (suc fuel) [] h k l = (h, refl, λ q. refl)
free_nodes_lem (suc fuel) (c ∷ cs) h (cons holds k) l =
    let h1 = put_node c.ptr none h in
    let (h', e, f) =
      free_nodes_lem fuel cs h1 (Linked-free c.ptr h cs k holds.apart) (omega arith) in
    let read : get_forward c.ptr 0 h ≡ some (next 0 cs) =
      get_forward-Reaches h c.ptr 0
        (record { node = node_of c; holds = holds.node; reach = omega arith })
      ∙ ap some (holds.forward 0 (omega arith)) in
    (
      h',
      rw (le→leb 0 c.top (omega arith)) (free_step fuel c.ptr (next 0 cs) h read ∙ e),
      λ q. f q ∙ ground arith,
    )

-- The destructor never follows a pointer to a deleted node, and no node is left.
pub destroy_lem :
    (s : SkipList) (cs : Cells)
    → IsSkipList s cs
    → (h : Heap) × (destroy s ≡ some h) × ((q : Ptr) → h.node q ≡ none)
unfolding destroy
destroy_lem s cs v =
    let read : get_forward s.header 0 s.heap ≡ some (next 0 cs) =
      get_forward-Reaches s.heap s.header 0
        (record { node = v.header_node; holds = v.header_holds; reach = omega arith })
      ∙ ap some (v.header_forward 0 (omega arith)) in
    let (h, e, f) = free_nodes_lem (rounds s) cs s.heap v.linked (rw v.size_eq (omega arith)) in
    (put_node s.header none h, rw read (rw e refl), λ q. ground (arith, f q, v.owned q))
