-- ===== src/Cluster/Shared.antt =====
-- src/raft_node_server.cpp, src/raft/raft_node.cpp: what holds of the votes, the elections and the
-- messages of a cluster, and why a term has one winner.
use my_raft_kvdb.Base.{
  ◌≡◌, refl, ap, sym, subst, ◌∙◌, ◌⊎◌, inl, inr, true, List, [], ◌∷◌, arith, ℤ, pos, length, ◌≤◌,
}
use my_raft_kvdb.Cluster.Ballots.{Unique}
use my_raft_kvdb.Cluster.Invariant.{In, vote_of, ballot_of, Other, Other-more, Running}
use my_raft_kvdb.Cluster.Members.{IsDistinct, AllIn, majorities_meet}
use my_raft_kvdb.Cluster.{Ballot, VoteAnswer, Append, Cluster, without}
use my_raft_kvdb.Messages.{RequestVoteArgs}
use my_raft_kvdb.Node.{RaftNode, contains, majority}
use my_raft_kvdb.Run.Votes.{Vote}

-- Two votes of one server in a term are for one candidate, or one of them is for itself and another
-- server has won the term.
abbrev pub Pairs : List Ballot → List Vote → Type 0
Pairs bs es =
    (a b : Ballot)
    → In a bs
    → In b bs
    → a.voter ≡ b.voter
    → a.term ≡ b.term
    → (a.candidate ≡ b.candidate)
      ⊎ (Other es a.term a.voter × ((a.candidate ≡ a.voter) ⊎ (b.candidate ≡ b.voter)))

pub Pairs-vote :
    (b0 : Ballot) (bs : List Ballot) (es : List Vote)
    → Pairs bs es
    → ((b : Ballot)
        → In b bs
        → b.voter ≡ b0.voter
        → b.term ≡ b0.term
        → (b.candidate ≡ b0.candidate) ⊎ (Other es b.term b.voter × (b.candidate ≡ b.voter)))
    → Pairs (b0 ∷ bs) es
Pairs-vote b0 bs es p h a b (inl i) (inl j) v t = inl (ap (λ (y : Ballot). y.candidate) (i ∙ sym j))
Pairs-vote b0 bs es p h a b (inr i) (inr j) v t = p a b i j v t
Pairs-vote b0 bs es p h a b (inr i) (inl j) v t =
    elim (h a i (v ∙ ap (λ (y : Ballot). y.voter) j) (t ∙ ap (λ (y : Ballot). y.term) j)) [
      | inl c ↦ inl (c ∙ ap (λ (y : Ballot). y.candidate) (sym j))
      | inr (o, c) ↦ inr (o, inl c)
    ]
Pairs-vote b0 bs es p h a b (inl i) (inr j) v t =
    elim (h b j (sym v ∙ ap (λ (y : Ballot). y.voter) i) (sym t ∙ ap (λ (y : Ballot). y.term) i)) [
      | inl c ↦ inl (ap (λ (y : Ballot). y.candidate) i ∙ sym c)
      | inr (o, c) ↦ inr (
        subst (λ x. Other es x a.voter) (sym t) (subst (λ x. Other es b.term x) (sym v) o),
        inr c,
      )
    ]

Pairs-more : (e : Vote) (bs : List Ballot) (es : List Vote) → Pairs bs es → Pairs bs (e ∷ es)
Pairs-more e bs es p a b i j v t = elim (p a b i j v t) [
  | inl c ↦ inl c
  | inr (o, c) ↦ inr (Other-more e es a.term a.voter o, c)
]

AllIn-of : (xs ys : List ℤ) → ((q : ℤ) → contains q xs ≡ true → contains q ys ≡ true) → AllIn xs ys
AllIn-of [] ys h = tt
AllIn-of (x ∷ xs) ys h = (h x (ground arith), AllIn-of xs ys (λ q i. h q (ground arith)))

module _ (members : List ℤ) where
  -- The votes of a majority for the winner.
  pub record Quorum (bs : List Ballot) (e : Vote) : Type 0 where
    pub set : List ℤ
    pub distinct : IsDistinct set
    pub large : majority (without e.candidate members) ≤ length set
    pub winner : contains e.candidate members ≡ true
    pub votes : (q : ℤ) → contains q set ≡ true → In (ballot_of q e.term e.candidate) bs

  pub record Shared {S : Type 0} (c : Cluster S) : Type 0 where
    pub voters :
        (b : Ballot)
        → In b c.ballots
        → (contains b.voter members ≡ true) × (contains b.candidate members ≡ true)
    pub requested : (r : RequestVoteArgs) → In r c.requests → contains r.candidate_id members ≡ true
    pub answered :
        (a : VoteAnswer)
        → In a c.answers
        → (contains a.to members ≡ true)
          × (a.reply.vote_granted ≡ true → In (ballot_of a.from a.reply.term a.to) c.ballots)
    pub appended :
        (m : Append)
        → In m c.appends
        → (contains m.to members ≡ true)
          × ((m.args.term ≡ pos 0) ⊎ Other c.elections m.args.term m.to)
    pub pairs : Pairs c.ballots c.elections
    pub quorum : (e : Vote) → In e c.elections → Quorum c.ballots e
    pub unique : Unique c.elections

  Quorum-more : (b : Ballot) (bs : List Ballot) (e : Vote) → Quorum bs e → Quorum (b ∷ bs) e
  Quorum-more b bs e k = record {
    set = k.set;
    distinct = k.distinct;
    large = k.large;
    winner = k.winner;
    votes = λ q h. inr (k.votes q h);
  }

  module _ {S : Type 0} (c : Cluster S) (k : Shared c) where
    -- A vote by a server of the cluster for a server of the cluster.
    pub Shared-vote :
        (b0 : Ballot) (node : ℤ → RaftNode S) (answers : List VoteAnswer)
        → contains b0.voter members ≡ true
        → contains b0.candidate members ≡ true
        → ((b : Ballot)
            → In b c.ballots
            → b.voter ≡ b0.voter
            → b.term ≡ b0.term
            → (b.candidate ≡ b0.candidate)
              ⊎ (Other c.elections b.term b.voter × (b.candidate ≡ b.voter)))
        → ((a : VoteAnswer)
            → In a answers
            → (contains a.to members ≡ true)
              × (a.reply.vote_granted ≡ true
                  → In (ballot_of a.from a.reply.term a.to) (b0 ∷ c.ballots)))
        → Shared (record c { node = node; answers = answers; ballots = b0 ∷ c.ballots })
    Shared-vote b0 node answers i j h a = record {
      voters = λ b m. elim m [
        | inl e ↦ (
          ap (λ (y : Ballot). contains y.voter members) e ∙ i,
          ap (λ (y : Ballot). contains y.candidate members) e ∙ j,
        )
        | inr m' ↦ k.voters b m'
      ];
      requested = k.requested;
      answered = a;
      appended = k.appended;
      pairs = Pairs-vote b0 c.ballots c.elections k.pairs h;
      quorum = λ e m. Quorum-more b0 c.ballots e (k.quorum e m);
      unique = k.unique;
    }

    -- A server with a majority of votes is the only one that wins its term.
    only_winner :
        IsDistinct members
        → (v : ℤ) (n : RaftNode S) (term : ℤ) → Running c.ballots v n
        → term ≡ n.current_term
        → Quorum c.ballots (vote_of term v)
        → (e : Vote) → In e c.elections
        → e.term ≡ term
        → e.candidate ≡ v
    only_winner d v n term r t q e i same =
        let p = k.quorum e i in
        let inside =
          λ (s : List ℤ) (x : Vote)
              (votes : (q : ℤ)
                → contains q s ≡ true
                → In (ballot_of q x.term x.candidate) c.ballots).
            AllIn-of s members (λ y h. (k.voters (ballot_of y x.term x.candidate) (votes y h)).0) in
        let (y, hp, hq) =
          majorities_meet p.set q.set members e.candidate v d p.winner q.winner p.distinct
            q.distinct (inside p.set e p.votes) (inside q.set (vote_of term v) q.votes) p.large
            q.large in
        let first = p.votes y hp in
        let second = q.votes y hq in
        elim (k.pairs (ballot_of y e.term e.candidate) (ballot_of y term v) first second refl
          same) [
            | inl agree ↦ agree
            | inr ((w, won, differs), inl himself) ↦
                elim (differs (k.unique (vote_of e.term w) e won i refl ∙ himself)) [ ]
            | inr (o, inr mine) ↦ r.own (ballot_of y e.term e.candidate) first (sym mine) (same ∙ t)
          ]

    Unique-won :
        (v : ℤ) (term : ℤ)
        → ((e : Vote) → In e c.elections → e.term ≡ term → e.candidate ≡ v)
        → Unique (vote_of term v ∷ c.elections)
    Unique-won v term h e f (inl i) (inl j) t = ap (λ (y : Vote). y.candidate) (i ∙ sym j)
    Unique-won v term h e f (inr i) (inr j) t = k.unique e f i j t
    Unique-won v term h e f (inr i) (inl j) t =
        h e i (t ∙ ap (λ (y : Vote). y.term) j) ∙ ap (λ (y : Vote). y.candidate) (sym j)
    Unique-won v term h e f (inl i) (inr j) t =
        ap (λ (y : Vote). y.candidate) i ∙ sym (h f j (sym t ∙ ap (λ (y : Vote). y.term) i))

    pub Shared-won :
        IsDistinct members
        → (v : ℤ) (n : RaftNode S) (term : ℤ) (node : ℤ → RaftNode S) → Running c.ballots v n
        → term ≡ n.current_term
        → Quorum c.ballots (vote_of term v)
        → Shared (record c { node = node; elections = vote_of term v ∷ c.elections })
    Shared-won d v n term node r t q = record {
      voters = k.voters;
      requested = k.requested;
      answered = k.answered;
      appended = λ m i. (
        (k.appended m i).0,
        elim (k.appended m i).1 [
          | inl z ↦ inl z
          | inr o ↦ inr (Other-more (vote_of term v) c.elections m.args.term m.to o)
        ],
      );
      pairs = Pairs-more (vote_of term v) c.ballots c.elections k.pairs;
      quorum =
          λ e i. elim i [ inl same ↦ subst (Quorum c.ballots) (sym same) q | inr j ↦ k.quorum e j ];
      unique = Unique-won v term (only_winner d v n term r t q);
    }
