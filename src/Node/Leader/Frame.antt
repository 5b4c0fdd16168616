-- ===== src/Node/Leader/Frame.antt =====
-- src/raft/raft_node.cpp, updateCommitIndex and handleAppendEntriesResponse: what they leave alone.
use my_raft_kvdb.Base.{
  ℕ, zero, suc, ◌≡◌, refl, arith, ℤ, ltb_ℤ, true, Option-cases, inl, inr, pred_ℤ, List, length, set,
  length-set, ◌≤ℤ◌, pos, suc_ℤ, [], ◌∷◌, Bool-cases, ◌<◌,
}
use my_raft_kvdb.Log.{LogEntry, last_log_index}
use my_raft_kvdb.Messages.{AppendEntriesReply}
use my_raft_kvdb.Node.{Env, RaftNode, is_leader}
use my_raft_kvdb.Node.Apply.{distance}
use my_raft_kvdb.Node.Election.{yield_to_term}
use my_raft_kvdb.Node.Leader.{
  backtrack, commit_loop, update_commit_index, peer_position, peer_replied,
  handle_append_entries_response,
}

module _ {S : Type 0} where
  pub commit_loop_eq :
      (fuel : ℕ) (i : ℤ) (n : RaftNode S)
      → commit_loop fuel i n ≡ record n { commit_index = (commit_loop fuel i n).commit_index }
  unfolding commit_loop
  commit_loop_eq zero i n = refl
  commit_loop_eq (suc fuel) i n = ground (arith, commit_loop_eq fuel (pred_ℤ i) n)

  -- Only the commit index changes.
  pub update_commit_index_eq :
      (n : RaftNode S)
      → update_commit_index n ≡ record n { commit_index = (update_commit_index n).commit_index }
  unfolding update_commit_index
  update_commit_index_eq n =
      let last = last_log_index n.log in
      ground (arith, commit_loop_eq (distance n.commit_index last) last n)

  commit_loop-ge :
      (fuel : ℕ) (i : ℤ) (n : RaftNode S) → n.commit_index ≤ℤ (commit_loop fuel i n).commit_index
  unfolding commit_loop
  commit_loop-ge zero i n = omega arith
  commit_loop-ge (suc fuel) i n = ground (arith, commit_loop-ge fuel (pred_ℤ i) n)

  pub update_commit_index-ge :
      (n : RaftNode S) → n.commit_index ≤ℤ (update_commit_index n).commit_index
  unfolding update_commit_index
  update_commit_index-ge n =
      let last = last_log_index n.log in
      ground (arith, commit_loop-ge (distance n.commit_index last) last n)

-- Every position of nextIndex_ is at least 1.
abbrev pub Positive : List ℤ → Type 0
Positive [] = Unit {0}
Positive (x ∷ xs) = (pos 1 ≤ℤ x) × Positive xs

pub Positive-set : (xs : List ℤ) (i : ℕ) (v : ℤ) → pos 1 ≤ℤ v → Positive xs → Positive (set xs i v)
Positive-set [] i v h ok = tt
Positive-set (x ∷ xs) zero v h ok = (h, ok.1)
Positive-set (x ∷ xs) (suc i) v h ok = (ok.0, Positive-set xs i v h ok.1)

pub suc-last-pos : (log : List LogEntry) → 0 < length log → pos 1 ≤ℤ suc_ℤ (last_log_index log)
suc-last-pos [] h = elim h [ ]
suc-last-pos (e ∷ log) h = omega arith

-- nextIndex_ never falls below 1.
pub backtrack-ge : (reply : AppendEntriesReply) (log : List LogEntry) → pos 1 ≤ℤ backtrack reply log
unfolding backtrack
backtrack-ge reply log = ground arith

module _ {S : Type 0} where
  -- A reply either makes the node yield to a newer term, or touches the replication state alone.
  pub data Replied (env : Env) (reply : AppendEntriesReply) (n : RaftNode S)
      : RaftNode S → Type 0 where
    yielded :
        ltb_ℤ n.current_term reply.term ≡ true
        → Replied env reply n (yield_to_term env reply.term n)
    kept :
        (c : ℤ) (next match : List ℤ)
        → n.commit_index ≤ℤ c
        → length next ≡ length n.next_index
        → length match ≡ length n.match_index
        → (0 < length n.log → Positive n.next_index → Positive next)
        → Replied env reply n
            (record n { commit_index = c; next_index = next; match_index = match })

  peer_replied-Replied :
      (env : Env) (i : ℕ) (reply : AppendEntriesReply) (n : RaftNode S)
      → Replied env reply n (peer_replied env i reply n).0
  unfolding peer_replied backtrack
  peer_replied-Replied env i reply n = elim (Bool-cases (ltb_ℤ n.current_term reply.term)) [
    | inl newer ↦ rw newer (yielded newer)
    | inr current ↦ rw current (elim (Bool-cases reply.success) [
      | inl ok ↦
          rw (ok, update_commit_index_eq _)
            (kept _ _ _ (update_commit_index-ge _) (length-set n.next_index i _)
              (length-set n.match_index i _)
              λ full h. Positive-set n.next_index i _ (suc-last-pos n.log full) h)
      | inr refused ↦ rw refused (
          kept n.commit_index _ n.match_index (omega arith) (length-set n.next_index i _) refl
            λ full h. Positive-set n.next_index i _ (backtrack-ge reply n.log) h)
    ])
  ]

  pub handle_append_entries_response-Replied :
      (env : Env) (id : ℤ) (reply : AppendEntriesReply) (n : RaftNode S)
      → Replied env reply n (handle_append_entries_response env id reply n).0
  unfolding handle_append_entries_response
  handle_append_entries_response-Replied env id reply n = elim (Bool-cases (is_leader n.state)) [
    | inl leads ↦ rw leads (elim (Option-cases (peer_position id n.peer_ids)) [
      | inl e ↦ rw (e, handle_append_entries_response) unchanged
      | inr (i, e) ↦ rw (e, handle_append_entries_response) (peer_replied-Replied env i reply n)
    ])
    | inr not_leading ↦ rw not_leading unchanged
  ]
    where
      unchanged : Replied env reply n n
      unchanged =
          kept n.commit_index n.next_index n.match_index (omega arith) refl refl (λ full h. h)
