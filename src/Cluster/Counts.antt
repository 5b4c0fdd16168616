-- ===== src/Cluster/Counts.antt =====
-- src/raft/raft_node.cpp: a server that starts an election, counts a vote or wins keeps what
-- holds of it.
use my_raft_kvdb.Base.{
  ◌≡◌, refl, ap, sym, subst, ◌∙◌, ◌⊎◌, inl, inr, true, List, [], ◌∷◌, arith, ℤ, ◌<ℤ◌, ==ℤ_iff,
  Bool-cases, eq_of_parts,
}
use my_raft_kvdb.Cluster.Invariant.{
  In, vote_of, ballot_of, Standing, Running, Local, Standing-same, Local-more_elections,
}
use my_raft_kvdb.Cluster.Members.{IsDistinct}
use my_raft_kvdb.Cluster.Moves.{Started, Counted, StillRuns}
use my_raft_kvdb.Cluster.{Ballot}
use my_raft_kvdb.Messages.{RequestVoteReply}
use my_raft_kvdb.Node.{RaftNode, contains, set_insert, is_follower, is_leader, leader}
use my_raft_kvdb.Run.Votes.{Vote}
use my_raft_kvdb.Cluster.Ballots.{old_votes}

IsDistinct-set_insert : (x : ℤ) (xs : List ℤ) → IsDistinct xs → IsDistinct (set_insert x xs)
IsDistinct-set_insert x xs d = elim (Bool-cases (contains x xs)) [
  | inl t ↦ rw t d
  | inr f ↦ rw f (f, d)
]

contains-set_insert :
    (q x : ℤ) (xs : List ℤ) → contains q (set_insert x xs) ≡ true → (q ≡ x) ⊎ (contains q xs ≡ true)
contains-set_insert q x xs h = ground (arith, ==ℤ_iff q x)

module _ {S : Type 0} (members : List ℤ) (ballots : List Ballot) (elections : List Vote) (v : ℤ)
    (n m : RaftNode S) (l : Local members ballots elections v n) where
  started_newer : Started n m → n.current_term <ℤ m.current_term
  started_newer s = let e = s.newer in ground arith

  one_vote : (q : ℤ) → contains q (v ∷ []) ≡ true → q ≡ v
  one_vote q h = ground (arith, ==ℤ_iff q v)

  Running-Started : Started n m → Running (ballot_of v m.current_term v ∷ ballots) v m
  Running-Started s =
      let alone : m.votes_received ≡ v ∷ [] = s.votes ∙ ap (λ x. x ∷ []) l.id in
      record {
        term = s.term;
        vote = s.vote ∙ l.id;
        distinct = rw alone (refl, tt);
        counted = λ q c.
            inl (
              ap (λ x. ballot_of x m.current_term v)
                (one_vote q (ap (contains q) (sym alone) ∙ c)));
        own = λ b i k t. elim i [
          | inl e ↦ ap (λ (y : Ballot). y.candidate) e
          | inr j ↦
              let past = old_votes members ballots elections v n m l (started_newer s) b j k in
              let bad : ⊥ = ground (arith, t) in elim bad [ ]
        ];
      }

  pub Local-Started :
      Started n m → Local members (ballot_of v m.current_term v ∷ ballots) elections v m
  Local-Started s =
      let newer = started_newer s in
      let old = l.nonneg in
      record {
        id = s.ids.0 ∙ l.id;
        peers = s.ids.1 ∙ l.peers;
        nonneg = omega arith;
        standing = λ b j k. elim j [
          | inl e ↦ subst (λ a. Standing elections a m) (sym e) (inr (refl, inl (s.vote ∙ l.id)))
          | inr j' ↦ inl (old_votes members ballots elections v n m l newer b j' k)
        ];
        candidate = λ c. Running-Started s;
        active = λ a. omega arith;
        leading = λ c. let bad : ⊥ = ground (arith, s.role) in elim bad [ ];
      }

  -- A vote is counted only for the election that runs.
  Counted-term :
      (voter : ℤ) (reply : RequestVoteReply) → Counted voter reply n m → reply.term ≡ n.current_term
  Counted-term voter reply (ids, c, g, low, high, t, w) =
      let e = (l.candidate c).term in eq_of_parts reply.term n.current_term (ground arith)

  -- What a candidate has counted, with the vote that arrives.
  pub Counted-votes :
      (voter : ℤ) (reply : RequestVoteReply)
      → Counted voter reply n m
      → In (ballot_of voter reply.term v) ballots
      → IsDistinct (set_insert voter n.votes_received)
        × ((q : ℤ)
            → contains q (set_insert voter n.votes_received) ≡ true
            → In (ballot_of q n.current_term v) ballots)
  Counted-votes voter reply k j =
      let (ids, c, g, low, high, t, w) = k in
      let r = l.candidate c in
      let same = Counted-term voter reply k in
      (
        IsDistinct-set_insert voter n.votes_received r.distinct,
        λ q h. elim (contains-set_insert q voter n.votes_received h) [
          | inl e ↦ rw e (rw⁻¹ same j)
          | inr h' ↦ r.counted q h'
        ],
      )

  pub Local-Counted :
      (voter : ℤ) (reply : RequestVoteReply)
      → Counted voter reply n m
      → StillRuns voter n m
      → In (ballot_of voter reply.term v) ballots
      → Local members ballots elections v m
  Local-Counted voter reply k (s, e, r) j =
      let (ids, c, g, low, high, t, w) = k in
      let run = l.candidate c in
      let (distinct, counted) = Counted-votes voter reply k j in
      record {
        id = ids.0 ∙ l.id;
        peers = ids.1 ∙ l.peers;
        nonneg = rw t l.nonneg;
        standing = λ b i h. Standing-same elections b n m t w (l.standing b i h);
        candidate = λ c'. record {
          term = e ∙ run.term ∙ sym t;
          vote = w ∙ run.vote;
          distinct = rw r distinct;
          counted = λ q h. rw t (counted q (ap (contains q) (sym r) ∙ h));
          own = λ b i v' t'. run.own b i v' (t' ∙ t);
        };
        active = λ a. rw t (l.active (ap is_follower (sym s) ∙ a));
        leading = λ h. rw t (l.leading (ap is_leader (sym s) ∙ h));
      }

  pub Local-Won :
      (voter : ℤ) (reply : RequestVoteReply)
      → Counted voter reply n m
      → m.state ≡ leader
      → Local members ballots (vote_of m.current_term v ∷ elections) v m
  Local-Won voter reply (ids, c, g, low, high, t, w) s =
      let more = Local-more_elections members ballots (vote_of m.current_term v) elections v n l in
      record {
        id = ids.0 ∙ l.id;
        peers = ids.1 ∙ l.peers;
        nonneg = rw t l.nonneg;
        standing = λ b i h.
            Standing-same (vote_of m.current_term v ∷ elections) b n m t w (more.standing b i h);
        candidate = λ c'. let bad : ⊥ = ground arith in elim bad [ ];
        active = λ a. rw t (l.active (ground arith));
        leading = λ h. inl refl;
      }
