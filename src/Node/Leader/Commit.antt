-- ===== src/Node/Leader/Commit.antt =====
-- src/raft/raft_node.cpp, updateCommitIndex: which entry a leader commits.
use native.Mathlib.Decide.{dec_le}
use my_raft_kvdb.Base.{
  ℕ, zero, suc, ◌+◌, ◌≤◌, ◌≡◌, refl, subst, ◌⊎◌, inl, inr, arith, true, false, Bool-cases, ℤ, pos,
  negsuc, pred_ℤ, pos_part, neg_part, ◌≤ℤ◌, ◌<ℤ◌, ltb_ℤ, ==ℤ_iff, eq_of_parts,
}
use my_raft_kvdb.Log.{term_at, last_log_index}
use my_raft_kvdb.Node.{leader, RaftNode, majority}
use my_raft_kvdb.Node.Apply.{distance}
use my_raft_kvdb.Node.Leader.{count_matches, can_commit, commit_loop, update_commit_index}

pred-eq : (i : ℤ) → pos_part (pred_ℤ i) + neg_part i + 1 ≡ pos_part i + neg_part (pred_ℤ i)
pred-eq (pos zero) = omega arith
pred-eq (pos (suc n)) = omega arith
pred-eq (negsuc n) = omega arith

pred-le : (i : ℤ) → pred_ℤ i ≤ℤ i
pred-le i = omega (arith, pred-eq i)

module _ {S : Type 0} where
  -- The entry is of the leader's term, and with the leader itself a majority has it, by matchIndex.
  abbrev pub IsCommittable : ℤ → RaftNode S → Type 0
  IsCommittable j n =
      (term_at n.log j ≡ n.current_term)
      × (majority n.peer_ids ≤ suc (count_matches j n.match_index))

  -- `c` is the highest index above the commit index, and up to `last`, that may be committed; or the
  -- commit index, if there is none.
  pub record IsNextCommit (n : RaftNode S) (last c : ℤ) : Type 0 where
    pub chosen : (c ≡ n.commit_index) ⊎ ((n.commit_index <ℤ c) × (c ≤ℤ last) × IsCommittable c n)
    pub highest : (j : ℤ) → c <ℤ j → j ≤ℤ last → ¬ IsCommittable j n

  can_commit_iff : (j : ℤ) (n : RaftNode S) → can_commit j n ≡ true → IsCommittable j n
  unfolding can_commit
  can_commit_iff j n h = ground (arith, ==ℤ_iff (term_at n.log j) n.current_term)

  can_commit-false : (j : ℤ) (n : RaftNode S) → can_commit j n ≡ false → ¬ IsCommittable j n
  unfolding can_commit
  can_commit-false j n h c = ground (arith, ==ℤ_iff (term_at n.log j) n.current_term)

  IsNextCommit-none :
      (n : RaftNode S) (i : ℤ) → i ≤ℤ n.commit_index → IsNextCommit n i n.commit_index
  IsNextCommit-none n i h = record {
    chosen = inl refl;
    highest = λ j above upto c. absurd (omega arith);
  }

  -- An index that may not be committed does not change the choice below it.
  IsNextCommit-skip :
      (n : RaftNode S) (i c : ℤ)
      → ¬ IsCommittable i n
      → IsNextCommit n (pred_ℤ i) c
      → IsNextCommit n i c
  IsNextCommit-skip n i c bad next = record {
    chosen = ground (arith, next.chosen, pred-le i);
    highest = λ j above upto.
        elim (dec_le (pos_part j + neg_part (pred_ℤ i)) (pos_part (pred_ℤ i) + neg_part j)) [
          | yes low ↦ next.highest j above low
          | no high ↦
              subst (λ k. ¬ IsCommittable k n) (eq_of_parts i j (omega (arith, pred-eq i))) bad
        ];
  }

  commit_loop_lem :
      (fuel : ℕ) (i : ℤ) (n : RaftNode S)
      → distance n.commit_index i ≤ fuel
      → IsNextCommit n i (commit_loop fuel i n).commit_index
  unfolding commit_loop
  commit_loop_lem zero i n h = IsNextCommit-none n i (omega arith)
  commit_loop_lem (suc fuel) i n h = elim (Bool-cases (ltb_ℤ n.commit_index i)) [
    | inr over ↦ rw over (IsNextCommit-none n i (ground arith))
    | inl more ↦ rw more (elim (Bool-cases (can_commit i n)) [
      | inl good ↦ rw good (record {
        chosen = inr (ground arith, omega arith, can_commit_iff i n good);
        highest = λ j above upto c. absurd (omega arith);
      })
      | inr bad ↦ rw bad (
          IsNextCommit-skip n i _ (can_commit-false i n bad)
            (commit_loop_lem fuel (pred_ℤ i) n (ground (arith, pred-eq i))))
    ])
  ]

  -- A leader's commit index becomes the highest index above it, up to the end of the log, whose entry
  -- is of the leader's own term and is by matchIndex on a majority of the nodes, the leader counted;
  -- it stays where there is none.
  pub update_commit_index_lem :
      (n : RaftNode S)
      → n.state ≡ leader
      → IsNextCommit n (last_log_index n.log) (update_commit_index n).commit_index
  unfolding update_commit_index
  update_commit_index_lem n leads = simp leads (
      commit_loop_lem (distance n.commit_index (last_log_index n.log)) (last_log_index n.log) n
        (omega arith))
