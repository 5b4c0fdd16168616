-- ===== src/Cluster/Voting.antt =====
-- src/raft_node_server.cpp, src/raft/raft_node.cpp: a cluster keeps what holds of it when a server
-- starts an election or answers a RequestVote.
use my_raft_kvdb.Base.{
  ℕ, zero, suc, ◌≡◌, ◌≢◌, ap, sym, subst, ◌∙◌, ◌⊎◌, inl, inr, true, false, some, List, [], ◌∷◌,
  arith, ℤ, minus_one, ◌==ℤ◌, ==ℤ_iff, Bool-cases, if◌then◌else◌,
}
use my_raft_kvdb.Cluster.Ballots.{Local-Granted, old_votes}
use my_raft_kvdb.Cluster.Counts.{Local-Started}
use my_raft_kvdb.Cluster.Invariant.{
  In, ballot_of, Other, Standing, Local, Local-Move, Local-other_ballot,
}
use my_raft_kvdb.Cluster.Members.{IsDistinct}
use my_raft_kvdb.Cluster.Moves.{
  Move, handle_request_vote-Granted, handle_request_vote-refused, start_election-Started, Granted,
}
use my_raft_kvdb.Cluster.Shared.{Shared, Shared-vote}
use my_raft_kvdb.Cluster.{
  Ballot, VoteAnswer, Cluster, element, set_node, answer_request, begin_election,
}
use my_raft_kvdb.Messages.{RequestVoteArgs, RequestVoteReply}
use my_raft_kvdb.Node.Election.{handle_request_vote, start_election}
use my_raft_kvdb.Node.{Env, RaftNode, contains}
use my_raft_kvdb.Run.Votes.{Vote}

pub In-element : {A : Type 0} (xs : List A) (i : ℕ) (x : A) → element xs i ≡ some x → In x xs
In-element [] i x e = ground arith
In-element (y ∷ xs) zero x e = inl (ground arith)
In-element (y ∷ xs) (suc i) x e = inr (In-element xs i x e)

not_minus_one :
    (members : List ℤ)
    → contains minus_one members ≡ false
    → (v : ℤ) → contains v members ≡ true
    → v ≢ minus_one
not_minus_one members named v h e =
    let bad : contains minus_one members ≡ true = rw e at h in ground arith

module _ {S : Type 0} (members : List ℤ) (distinct : IsDistinct members)
    (named : contains minus_one members ≡ false) where
  abbrev pub AllLocal : Cluster S → Type 0
  AllLocal c = (v : ℤ) → Local members c.ballots c.elections v (c.node v)

  abbrev pub IsCluster : Cluster S → Type 0
  IsCluster c = AllLocal c × Shared members c

  -- One server changes.
  pub at_node :
      (ballots : List Ballot) (elections : List Vote) (v : ℤ) (m : RaftNode S)
      (node : ℤ → RaftNode S)
      → Local members ballots elections v m
      → ((w : ℤ) → v ≢ w → Local members ballots elections w (node w))
      → (w : ℤ) → Local members ballots elections w (if w ==ℤ v then m else node w)
  at_node ballots elections v m node l h w = elim (Bool-cases (w ==ℤ v)) [
    | inl e ↦
        let same : w ≡ v = ground (arith, ==ℤ_iff w v) in
        rw e (subst (λ x. Local members ballots elections x m) (sym same) l)
    | inr e ↦
        rw e (h w (λ s. let bad : (w ==ℤ v) ≡ true = ground (arith, ==ℤ_iff w v) in ground arith))
  ]

  pub kept-Shared :
      (c : Cluster S) (node : ℤ → RaftNode S)
      → Shared members c
      → Shared members (record c { node = node })
  kept-Shared c node k = record {
    voters = k.voters;
    requested = k.requested;
    answered = k.answered;
    appended = k.appended;
    pairs = k.pairs;
    quorum = k.quorum;
    unique = k.unique;
  }

  pub moved :
      (c : Cluster S) (v : ℤ) (m : RaftNode S)
      → IsCluster c
      → Move (c.node v) m
      → IsCluster (set_node v m c)
  moved c v m (l, k) h = (
    at_node c.ballots c.elections v m c.node
        (Local-Move members c.ballots c.elections v (c.node v) m (l v) h) (λ w d. l w),
    kept-Shared c _ k,
  )

  pub begun :
      (c : Cluster S) (v : ℤ) (env : Env)
      → contains v members ≡ true
      → IsCluster c
      → IsCluster (begin_election v env c)
  unfolding begin_election
  begun c v env i (l, k) =
      let n = c.node v in
      let m = start_election env n in
      let s = start_election-Started env n in
      let b0 = ballot_of v m.current_term v in
      (
        at_node (b0 ∷ c.ballots) c.elections v m c.node
            (Local-Started members c.ballots c.elections v n m (l v) s)
            (λ w d. Local-other_ballot members b0 c.ballots c.elections w (c.node w) d (l w)),
        Shared-vote members c k b0 _ c.answers i i
            (λ b j h t.
              let past =
                old_votes members c.ballots c.elections v n m (l v)
                  (let e = s.newer in ground arith) b j h in
              let bad : ⊥ = ground (arith, t) in elim bad [ ])
            (λ a j. ((k.answered a j).0, λ g. inr ((k.answered a j).1 g))),
      )

  -- The reply to a RequestVote that is refused.
  answers_refused :
      (c : Cluster S) (a : VoteAnswer)
      → Shared members c
      → contains a.to members ≡ true
      → a.reply.vote_granted ≡ false
      → (b : VoteAnswer) → In b (a ∷ c.answers)
      → (contains b.to members ≡ true)
        × (b.reply.vote_granted ≡ true → In (ballot_of b.from b.reply.term b.to) c.ballots)
  answers_refused c a k i r b (inr j) = k.answered b j
  answers_refused c a k i r b (inl e) = (
    ap (λ (x : VoteAnswer). contains x.to members) e ∙ i,
    λ g.
        let bad : true ≡ false = sym g ∙ ap (λ (x : VoteAnswer). x.reply.vote_granted) e ∙ r in
        ground arith,
  )

  answers_granted :
      (c : Cluster S) (a : VoteAnswer) (b0 : Ballot)
      → Shared members c
      → contains a.to members ≡ true
      → ballot_of a.from a.reply.term a.to ≡ b0
      → (b : VoteAnswer) → In b (a ∷ c.answers)
      → (contains b.to members ≡ true)
        × (b.reply.vote_granted ≡ true → In (ballot_of b.from b.reply.term b.to) (b0 ∷ c.ballots))
  answers_granted c a b0 k i r b (inr j) = ((k.answered b j).0, λ g. inr ((k.answered b j).1 g))
  answers_granted c a b0 k i r b (inl e) = (
    ap (λ (x : VoteAnswer). contains x.to members) e ∙ i,
    λ g. inl (ap (λ (x : VoteAnswer). ballot_of x.from x.reply.term x.to) e ∙ r),
  )

  -- An earlier vote of the term that a server gives a vote in.
  earlier_vote :
      (c : Cluster S) (v : ℤ) (args : RequestVoteArgs) (m : RaftNode S) (reply : RequestVoteReply)
      → IsCluster c
      → Granted args (c.node v) m reply
      → (b : Ballot) → In b c.ballots
      → b.voter ≡ v
      → b.term ≡ args.term
      → Standing c.elections b (c.node v)
      → (b.candidate ≡ args.candidate_id)
        ⊎ (Other c.elections b.term b.voter × (b.candidate ≡ b.voter))
  earlier_vote c v args m reply (l, k) (ids, w, t, r, inl (f, newer)) b i h e s =
      let past = old_votes members c.ballots c.elections v (c.node v) m (l v) (rw t newer) b i h in
      let bad : ⊥ = ground (arith, e, t) in elim bad [ ]
  earlier_vote c v args m reply (l, k) (ids, w, t, r, inr (same, free, s1, s2, s3)) b i h e
        (inl past) =
      let bad : ⊥ = ground (arith, e, same) in elim bad [ ]
  earlier_vote c v args m reply (l, k) (ids, w, t, r, inr (same, inl free, s1, s2, s3)) b i h e
        (inr (_, inl x)) =
      elim (not_minus_one members named b.candidate (k.voters b i).1 (sym x ∙ free)) [ ]
  earlier_vote c v args m reply (l, k) (ids, w, t, r, inr (same, inr old, s1, s2, s3)) b i h e
        (inr (_, inl x)) =
      inl (sym x ∙ old)
  earlier_vote c v args m reply (l, k) (ids, w, t, r, inr (same, free, s1, s2, s3)) b i h e
        (inr (_, inr (x, o))) =
      inr (o, x)

  pub answered :
      (c : Cluster S) (v : ℤ) (env : Env) (args : RequestVoteArgs)
      → contains v members ≡ true
      → contains args.candidate_id members ≡ true
      → IsCluster c
      → IsCluster (answer_request v env args c)
  unfolding answer_request
  answered c v env args i j (l, k) =
      let n = c.node v in
      let (m, reply) = handle_request_vote env args n in
      let a : VoteAnswer = record { from = v; to = args.candidate_id; reply = reply } in
      elim (Bool-cases reply.vote_granted) [
        | inr r ↦
            let (l', k') = moved c v m (l, k) (handle_request_vote-refused env args n r) in
            rw r (
              l',
              record {
                voters = k.voters;
                requested = k.requested;
                answered = answers_refused c a k j r;
                appended = k.appended;
                pairs = k.pairs;
                quorum = k.quorum;
                unique = k.unique;
              },
            )
        | inl g ↦
            let granted = handle_request_vote-Granted env args n g in
            let b0 = ballot_of v args.term args.candidate_id in
            rw g (
              at_node (b0 ∷ c.ballots) c.elections v m c.node
                  (Local-Granted members c.ballots c.elections v n m (l v) args reply
                    (not_minus_one members named v i)
                    (λ b h. not_minus_one members named b.candidate (k.voters b h).1) granted)
                  (λ w d. Local-other_ballot members b0 c.ballots c.elections w (c.node w) d (l w)),
              Shared-vote members c k b0 _ (a ∷ c.answers) i j
                  (λ b h e t.
                    earlier_vote c v args m reply (l, k) granted b h e t ((l v).standing b h e))
                  (answers_granted c a b0 k j (
                    let (ids, w, t, r, rest) = granted in
                    ap (λ x. ballot_of v x args.candidate_id) r)),
            )
      ]
