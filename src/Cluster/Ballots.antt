-- ===== src/Cluster/Ballots.antt =====
-- src/raft/raft_node.cpp: a server that votes, or is made to forget its vote, keeps what holds of it.
use my_raft_kvdb.Base.{
  ◌≡◌, ◌≢◌, refl, ap, sym, subst, ◌∙◌, ◌⊎◌, inl, inr, true, false, List, ◌∷◌, arith, ℤ, minus_one,
  ◌<ℤ◌, Bool-cases,
}
use my_raft_kvdb.Cluster.Invariant.{
  In, vote_of, ballot_of, Other, Standing, Running, Local, Local-follower, Standing_newer,
}
use my_raft_kvdb.Cluster.Moves.{SameIds, Reset, Granted}
use my_raft_kvdb.Cluster.{Ballot}
use my_raft_kvdb.Messages.{RequestVoteArgs, RequestVoteReply, AppendEntriesArgs}
use my_raft_kvdb.Node.{RaftNode, contains, is_follower, is_candidate, is_leader}
use my_raft_kvdb.Run.Votes.{Vote}

-- No two servers have won elections of one term.
abbrev pub Unique : List Vote → Type 0
Unique es = (e f : Vote) → In e es → In f es → e.term ≡ f.term → e.candidate ≡ f.candidate

module _ {S : Type 0} (members : List ℤ) (ballots : List Ballot) (elections : List Vote) (v : ℤ)
    (n m : RaftNode S) (l : Local members ballots elections v n) where
  -- The votes of a server, before it goes to a newer term.
  abbrev pub old_votes :
      n.current_term <ℤ m.current_term
      → (b : Ballot) → In b ballots
      → b.voter ≡ v
      → b.term <ℤ m.current_term
  old_votes t b i k = Standing_newer elections b n m t (l.standing b i k)

  Standing-Reset :
      (args : AppendEntriesArgs)
      → Unique elections
      → Other elections args.term v
      → Reset args n m
      → (b : Ballot) → b.voter ≡ v
      → In b ballots
      → Standing elections b n
      → Standing elections b m
  Standing-Reset args u o (ids, a, t, f, same) b k i (inl past) = inl (rw same past)
  Standing-Reset args u o (ids, a, t, f, same) b k i (inr (e, inr r)) = inr (e ∙ sym same, inr r)
  Standing-Reset args u (w, won, d) (ids, a, t, f, same) b k i (inr (e, inl c)) =
      elim (Bool-cases (is_candidate n.state)) [
        | inl runs ↦
            let r = l.candidate runs in
            let own = r.own b i k e in
            inr (
              e ∙ sym same,
              inr (
                own ∙ sym k,
                (w, subst (λ x. In (vote_of x w) elections) (t ∙ sym e) won, λ x. d (x ∙ k)),
              ),
            )
        | inr stands ↦
            let leads : is_leader n.state ≡ true = ground arith in
            let mine = l.leading leads in
            elim (d (u (vote_of args.term w) (vote_of n.current_term v) won mine t)) [ ]
      ]

  pub Local-Reset :
      (args : AppendEntriesArgs)
      → Unique elections
      → Other elections args.term v
      → Reset args n m
      → Local members ballots elections v m
  Local-Reset args u o r =
      let ((i, p), a, t, f, same) = r in
      Local-follower members ballots elections v n m l i p f (rw same l.nonneg)
        (λ b j k. Standing-Reset args u o r b k j (l.standing b j k))

  -- A vote for `x` in the term that the node then has.
  module _ (x : ℤ) where
    abbrev b0 : Ballot
    b0 = ballot_of v m.current_term x

    Standing-new : m.voted_for ≡ x → Standing elections b0 m
    Standing-new w = inr (refl, inl w)

    Local-newer_vote :
        m.node_id ≡ n.node_id
        → m.peer_ids ≡ n.peer_ids
        → is_follower m.state ≡ true
        → n.current_term <ℤ m.current_term
        → m.voted_for ≡ x
        → Local members (b0 ∷ ballots) elections v m
    Local-newer_vote i p f t w =
        let old = l.nonneg in
        let bare : Local members ballots elections v m =
          Local-follower members ballots elections v n m l i p f (omega arith)
            (λ b j k. inl (old_votes t b j k)) in
        record {
          id = bare.id;
          peers = bare.peers;
          nonneg = bare.nonneg;
          standing = λ b j k. elim j [
            | inl e ↦ subst (λ a. Standing elections a m) (sym e) (Standing-new w)
            | inr j' ↦ bare.standing b j' k
          ];
          candidate = λ c. let bad : true ≡ false = ground arith in ground arith;
          active = bare.active;
          leading = bare.leading;
        }

  Standing-again :
      (x : ℤ) (b : Ballot)
      → m.voted_for ≡ x
      → m.current_term ≡ n.current_term
      → (n.voted_for ≡ minus_one) ⊎ (n.voted_for ≡ x)
      → b.candidate ≢ minus_one
      → Standing elections b n
      → Standing elections b m
  Standing-again x b w t free d (inl past) = inl (rw t past)
  Standing-again x b w t free d (inr (e, inr r)) = inr (e ∙ sym t, inr r)
  Standing-again x b w t (inl free) d (inr (e, inl c)) = elim (d (sym c ∙ free)) [ ]
  Standing-again x b w t (inr same) d (inr (e, inl c)) = inr (e ∙ sym t, inl (w ∙ sym same ∙ c))

  -- A vote in the node's own term, where it had voted for nobody else.
  Running-again :
      (x : ℤ)
      → v ≢ minus_one
      → m.voted_for ≡ x
      → m.current_term ≡ n.current_term
      → (n.voted_for ≡ minus_one) ⊎ (n.voted_for ≡ x)
      → m.votes_received ≡ n.votes_received
      → m.current_election_term ≡ n.current_election_term
      → Running ballots v n
      → Running (ballot_of v m.current_term x ∷ ballots) v m
  Running-again x d w t (inl free) r e k = elim (d (sym k.vote ∙ free)) [ ]
  Running-again x d w t (inr same) r e k =
      let mine : x ≡ v = sym same ∙ k.vote in
      record {
        term = e ∙ k.term ∙ sym t;
        vote = w ∙ mine;
        distinct = rw r k.distinct;
        counted = λ q c. inr (
            subst (λ a. In (ballot_of q a v) ballots) (sym t)
              (k.counted q (ap (contains q) (sym r) ∙ c)));
        own = λ b i v' t'. elim i [
          | inl e' ↦ ap (λ (y : Ballot). y.candidate) e' ∙ mine
          | inr j ↦ k.own b j v' (t' ∙ t)
        ];
      }

  Local-same_vote :
      (x : ℤ)
      → v ≢ minus_one
      → ((b : Ballot) → In b ballots → b.candidate ≢ minus_one)
      → SameIds n m
      → m.voted_for ≡ x
      → m.current_term ≡ n.current_term
      → (n.voted_for ≡ minus_one) ⊎ (n.voted_for ≡ x)
      → m.state ≡ n.state
      → m.votes_received ≡ n.votes_received
      → m.current_election_term ≡ n.current_election_term
      → Local members (ballot_of v m.current_term x ∷ ballots) elections v m
  Local-same_vote x d ds (i, p) w t free s r e = record {
    id = i ∙ l.id;
    peers = p ∙ l.peers;
    nonneg = rw t l.nonneg;
    standing = λ b j k. elim j [
      | inl e' ↦ subst (λ a. Standing elections a m) (sym e') (Standing-new x w)
      | inr j' ↦ Standing-again x b w t free (ds b j') (l.standing b j' k)
    ];
    candidate = λ c. Running-again x d w t free r e (l.candidate (ap is_candidate (sym s) ∙ c));
    active = λ a. rw t (l.active (ap is_follower (sym s) ∙ a));
    leading = λ c. rw t (l.leading (ap is_leader (sym s) ∙ c));
  }

  pub Local-Granted :
      (args : RequestVoteArgs) (reply : RequestVoteReply)
      → v ≢ minus_one
      → ((b : Ballot) → In b ballots → b.candidate ≢ minus_one)
      → Granted args n m reply
      → Local members (ballot_of v args.term args.candidate_id ∷ ballots) elections v m
  Local-Granted args reply d ds ((i, p), w, t, r, inl (f, newer)) =
      subst (λ k. Local members (ballot_of v k args.candidate_id ∷ ballots) elections v m) t
        (Local-newer_vote args.candidate_id i p f (rw t newer) w)
  Local-Granted args reply d ds (ids, w, t, r, inr (same, free, s, votes, e)) =
      subst (λ k. Local members (ballot_of v k args.candidate_id ∷ ballots) elections v m) t
        (Local-same_vote args.candidate_id d ds ids w (t ∙ sym same) free s votes e)
