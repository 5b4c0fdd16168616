-- ===== src/Cluster/Invariant.antt =====
-- src/raft/raft_node.cpp, src/raft_node_server.cpp: what holds of the servers of a cluster and of the
-- messages between them.
use my_raft_kvdb.Base.{
  ◌≡◌, ◌≢◌, ap, sym, ◌∙◌, ◌⊎◌, inl, inr, true, false, List, [], ◌∷◌, arith, ℤ, pos, ◌<ℤ◌, ◌≤ℤ◌,
}
use my_raft_kvdb.Cluster.{Ballot, without}
use my_raft_kvdb.Cluster.Members.{IsDistinct}
use my_raft_kvdb.Cluster.Moves.{Move, Stayed}
use my_raft_kvdb.Node.{RaftNode, contains, is_follower, is_candidate, is_leader}
use my_raft_kvdb.Run.Votes.{Vote}

abbrev pub In : {A : Type 0} → A → List A → Type 0
In x [] = ⊥
In x (y ∷ ys) = (x ≡ y) ⊎ In x ys

abbrev pub vote_of : ℤ → ℤ → Vote
vote_of term candidate = record { term = term; candidate = candidate }

abbrev pub ballot_of : ℤ → ℤ → ℤ → Ballot
ballot_of voter term candidate = record { voter = voter; term = term; candidate = candidate }

-- Another server than `v` has won an election of the term.
abbrev pub Other : List Vote → ℤ → ℤ → Type 0
Other elections term v = (leader : ℤ) × In (vote_of term leader) elections × (leader ≢ v)

abbrev pub Other-more :
    (e : Vote) (elections : List Vote) (term v : ℤ)
    → Other elections term v
    → Other (e ∷ elections) term v
Other-more e elections term v (l, i, d) = (l, inr i, d)

module _ {S : Type 0} where
  -- A vote of a past term, or one that the node knows of, or one for itself that an AppendEntries of
  -- the winner has made it forget.
  abbrev pub Standing : List Vote → Ballot → RaftNode S → Type 0
  Standing elections b n =
      (b.term <ℤ n.current_term)
      ⊎ ((b.term ≡ n.current_term)
          × ((n.voted_for ≡ b.candidate)
              ⊎ ((b.candidate ≡ b.voter) × Other elections b.term b.voter)))

  pub record Running (ballots : List Ballot) (v : ℤ) (n : RaftNode S) : Type 0 where
    pub term : n.current_election_term ≡ n.current_term
    pub vote : n.voted_for ≡ v
    pub distinct : IsDistinct n.votes_received
    pub counted :
        (q : ℤ) → contains q n.votes_received ≡ true → In (ballot_of q n.current_term v) ballots
    pub own : (b : Ballot) → In b ballots → b.voter ≡ v → b.term ≡ n.current_term → b.candidate ≡ v

  pub record Local (members : List ℤ) (ballots : List Ballot) (elections : List Vote) (v : ℤ)
      (n : RaftNode S) : Type 0 where
    pub id : n.node_id ≡ v
    pub peers : n.peer_ids ≡ without v members
    pub nonneg : pos 0 ≤ℤ n.current_term
    pub standing : (b : Ballot) → In b ballots → b.voter ≡ v → Standing elections b n
    pub candidate : is_candidate n.state ≡ true → Running ballots v n
    pub active : is_follower n.state ≡ false → pos 1 ≤ℤ n.current_term
    pub leading : is_leader n.state ≡ true → In (vote_of n.current_term v) elections

  follower_no_candidate :
      (n : RaftNode S) → is_follower n.state ≡ true → is_candidate n.state ≡ true → ⊥
  follower_no_candidate n f c = ground arith

  follower_no_leader : (n : RaftNode S) → is_follower n.state ≡ true → is_leader n.state ≡ true → ⊥
  follower_no_leader n f l = ground arith

  -- A follower has only its identity, its term and its votes to keep.
  pub Local-follower :
      (members : List ℤ) (ballots : List Ballot) (elections : List Vote) (v : ℤ) (n m : RaftNode S)
      → Local members ballots elections v n
      → m.node_id ≡ n.node_id
      → m.peer_ids ≡ n.peer_ids
      → is_follower m.state ≡ true
      → pos 0 ≤ℤ m.current_term
      → ((b : Ballot) → In b ballots → b.voter ≡ v → Standing elections b m)
      → Local members ballots elections v m
  Local-follower members ballots elections v n m l i p f t s = record {
    id = i ∙ l.id;
    peers = p ∙ l.peers;
    nonneg = t;
    standing = s;
    candidate = λ c. elim (follower_no_candidate m f c) [ ];
    active = λ a. let bad : true ≡ false = sym f ∙ a in ground arith;
    leading = λ c. elim (follower_no_leader m f c) [ ];
  }

  pub Standing-same :
      (elections : List Vote) (b : Ballot) (n m : RaftNode S)
      → m.current_term ≡ n.current_term
      → m.voted_for ≡ n.voted_for
      → Standing elections b n
      → Standing elections b m
  Standing-same elections b n m t w (inl past) = inl (rw t past)
  Standing-same elections b n m t w (inr (e, inl c)) = inr (e ∙ sym t, inl (w ∙ c))
  Standing-same elections b n m t w (inr (e, inr r)) = inr (e ∙ sym t, inr r)

  pub Standing_newer :
      (elections : List Vote) (b : Ballot) (n m : RaftNode S)
      → n.current_term <ℤ m.current_term
      → Standing elections b n
      → b.term <ℤ m.current_term
  Standing_newer elections b n m t (inl past) = omega arith
  Standing_newer elections b n m t (inr (e, r)) = ground arith

  Running-same :
      (ballots : List Ballot) (v : ℤ) (n m : RaftNode S)
      → Stayed n m
      → Running ballots v n
      → Running ballots v m
  Running-same ballots v n m (t, w, s, r, e) k = record {
    term = e ∙ k.term ∙ sym t;
    vote = w ∙ k.vote;
    distinct = rw r k.distinct;
    counted = λ q c. rw t (k.counted q (ap (contains q) (sym r) ∙ c));
    own = λ b i v' t'. k.own b i v' (t' ∙ t);
  }

  Local-Stayed :
      (members : List ℤ) (ballots : List Ballot) (elections : List Vote) (v : ℤ) (n m : RaftNode S)
      → Local members ballots elections v n
      → m.node_id ≡ n.node_id
      → m.peer_ids ≡ n.peer_ids
      → Stayed n m
      → Local members ballots elections v m
  Local-Stayed members ballots elections v n m l i p (t, w, s, r, e) = record {
    id = i ∙ l.id;
    peers = p ∙ l.peers;
    nonneg = rw t l.nonneg;
    standing = λ b j k. Standing-same elections b n m t w (l.standing b j k);
    candidate =
        λ c. Running-same ballots v n m (t, w, s, r, e) (l.candidate (ap is_candidate (sym s) ∙ c));
    active = λ a. rw t (l.active (ap is_follower (sym s) ∙ a));
    leading = λ c. rw t (l.leading (ap is_leader (sym s) ∙ c));
  }

  pub Local-Move :
      (members : List ℤ) (ballots : List Ballot) (elections : List Vote) (v : ℤ) (n m : RaftNode S)
      → Local members ballots elections v n
      → Move n m
      → Local members ballots elections v m
  Local-Move members ballots elections v n m l ((i, p), inl s) =
      Local-Stayed members ballots elections v n m l i p s
  Local-Move members ballots elections v n m l ((i, p), inr (inl (f, t, w))) =
      Local-follower members ballots elections v n m l i p f (rw t l.nonneg)
        (λ b j k. Standing-same elections b n m t w (l.standing b j k))
  Local-Move members ballots elections v n m l ((i, p), inr (inr (f, t))) =
      let old = l.nonneg in
      Local-follower members ballots elections v n m l i p f (omega arith)
        (λ b j k. inl (Standing_newer elections b n m t (l.standing b j k)))

  -- A vote of another server.
  pub Local-other_ballot :
      (members : List ℤ) (b : Ballot) (ballots : List Ballot) (elections : List Vote) (v : ℤ)
      (n : RaftNode S)
      → b.voter ≢ v
      → Local members ballots elections v n
      → Local members (b ∷ ballots) elections v n
  Local-other_ballot members b ballots elections v n d l = record {
    id = l.id;
    peers = l.peers;
    nonneg = l.nonneg;
    standing = λ a i k. elim i [
      | inl e ↦ elim (d (ap (λ (x : Ballot). x.voter) (sym e) ∙ k)) [ ]
      | inr j ↦ l.standing a j k
    ];
    candidate = λ c.
        let r = l.candidate c in
        record {
          term = r.term;
          vote = r.vote;
          distinct = r.distinct;
          counted = λ q h. inr (r.counted q h);
          own = λ a i k t. elim i [
            | inl e ↦ elim (d (ap (λ (x : Ballot). x.voter) (sym e) ∙ k)) [ ]
            | inr j ↦ r.own a j k t
          ];
        };
    active = l.active;
    leading = l.leading;
  }

  Standing-more :
      (e : Vote) (elections : List Vote) (b : Ballot) (n : RaftNode S)
      → Standing elections b n
      → Standing (e ∷ elections) b n
  Standing-more e elections b n (inl past) = inl past
  Standing-more e elections b n (inr (t, inl c)) = inr (t, inl c)
  Standing-more e elections b n (inr (t, inr (c, o))) =
      inr (t, inr (c, Other-more e elections b.term b.voter o))

  -- An election that is won.
  pub Local-more_elections :
      (members : List ℤ) (ballots : List Ballot) (e : Vote) (elections : List Vote) (v : ℤ)
      (n : RaftNode S)
      → Local members ballots elections v n
      → Local members ballots (e ∷ elections) v n
  Local-more_elections members ballots e elections v n l = record {
    id = l.id;
    peers = l.peers;
    nonneg = l.nonneg;
    standing = λ b i k. Standing-more e elections b n (l.standing b i k);
    candidate = l.candidate;
    active = l.active;
    leading = λ c. inr (l.leading c);
  }
