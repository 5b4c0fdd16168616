-- ===== src/Cluster/Deliver.antt =====
-- src/raft_node_server.cpp, src/raft/raft_node.cpp: a cluster keeps what holds of it when a reply
-- or an AppendEntries arrives, or a message is sent.
use my_raft_kvdb.Base.{
  ℕ, zero, suc, ◌≡◌, ◌≢◌, ap, sym, subst, ◌∙◌, ◌⊎◌, inl, inr, true, false, some, List, [], ◌∷◌,
  arith, ℤ, pos, minus_one, ◌==ℤ◌, ==ℤ_iff, Bool-cases, if◌then◌else◌,
}
use my_raft_kvdb.Cluster.Ballots.{Local-Reset}
use my_raft_kvdb.Cluster.Counts.{Local-Counted, Local-Won, Counted-votes}
use my_raft_kvdb.Cluster.Invariant.{In, vote_of, ballot_of, Other, Local-more_elections}
use my_raft_kvdb.Cluster.Members.{IsDistinct, contains-without}
use my_raft_kvdb.Cluster.Moves.{
  handle_append_entries-cases, handle_vote_response-open, handle_vote_response-won,
}
use my_raft_kvdb.Cluster.Shared.{Shared-won}
use my_raft_kvdb.Cluster.{
  VoteAnswer, Append, Cluster, without, element, vote_request, take_answer, receive_append,
}
use my_raft_kvdb.Messages.{RequestVoteArgs}
use my_raft_kvdb.Node.Append.{handle_append_entries}
use my_raft_kvdb.Node.Election.{handle_vote_response}
use my_raft_kvdb.Node.Leader.{create_append_entries_args}
use my_raft_kvdb.Node.{Env, RaftNode, contains, is_leader, set_insert}
use my_raft_kvdb.Cluster.Voting.{IsCluster, at_node, kept-Shared, moved}

contains-element : (xs : List ℤ) (i : ℕ) (x : ℤ) → element xs i ≡ some x → contains x xs ≡ true
contains-element [] i x e = ground arith
contains-element (y ∷ xs) zero x e = ground arith
contains-element (y ∷ xs) (suc i) x e = ground (arith, contains-element xs i x)

module _ {S : Type 0} (members : List ℤ) (distinct : IsDistinct members)
    (named : contains minus_one members ≡ false) where
  -- A candidate counts a vote.
  pub tallied :
      (c : Cluster S) (env : Env) (a : VoteAnswer)
      → contains a.to members ≡ true
      → (a.reply.vote_granted ≡ true → In (ballot_of a.from a.reply.term a.to) c.ballots)
      → IsCluster members distinct named c
      → IsCluster members distinct named (take_answer env a c)
  unfolding take_answer
  tallied c env a i given (l, k) =
      let n = c.node a.to in
      let (m, elected) = handle_vote_response env a.from a.reply n in
      elim (Bool-cases elected) [
        | inr e ↦ rw e (elim (handle_vote_response-open env a.from a.reply n e) [
          | inl move ↦ moved members distinct named c a.to m (l, k) move
          | inr (counted, runs) ↦
              let (ids, cand, g, low, high, t, vote) = counted in
              (
                at_node members distinct named c.ballots c.elections a.to m c.node
                    (Local-Counted members c.ballots c.elections a.to n m (l a.to) a.from a.reply
                      counted runs (given g))
                    (λ w d. l w),
                kept-Shared members distinct named c (λ w. if w ==ℤ a.to then m else c.node w) k,
              )
        ])
        | inl e ↦
            let (counted, leads, large) = handle_vote_response-won env a.from a.reply n e in
            let (ids, cand, g, low, high, t, vote) = counted in
            let run = (l a.to).candidate cand in
            let (apart, votes) =
              Counted-votes members c.ballots c.elections a.to n m (l a.to) a.from a.reply counted
                (given g) in
            rw e (
              at_node members distinct named c.ballots (vote_of m.current_term a.to ∷ c.elections)
                  a.to m c.node
                  (Local-Won members c.ballots c.elections a.to n m (l a.to) a.from a.reply counted
                    leads)
                  (λ w d.
                    Local-more_elections members c.ballots (vote_of m.current_term a.to) c.elections
                      w (c.node w) (l w)),
              Shared-won members c k distinct a.to n m.current_term _ run t (record {
                set = set_insert a.from n.votes_received;
                distinct = apart;
                large = rw⁻¹ (l a.to).peers large;
                winner = i;
                votes = λ q h. subst (λ x. In (ballot_of q x a.to) c.ballots) (sym t) (votes q h);
              }),
            )
      ]

  pub received :
      (c : Cluster S) (env : Env) (a : Append)
      → IsCluster members distinct named c
      → (a.args.term ≡ pos 0) ⊎ Other c.elections a.args.term a.to
      → IsCluster members distinct named (receive_append env a c)
  unfolding receive_append
  received c env a (l, k) sent =
      let n = c.node a.to in
      let m = (handle_append_entries env a.args n).0 in
      elim (handle_append_entries-cases env a.args n) [
        | inl move ↦ moved members distinct named c a.to m (l, k) move
        | inr reset ↦
            let (ids, stands, same, f, t) = reset in
            let active = (l a.to).active stands in
            let other : Other c.elections a.args.term a.to = elim sent [
              | inl zero_term ↦ let bad : ⊥ = ground arith in elim bad [ ]
              | inr o ↦ o
            ] in
            (
              at_node members distinct named c.ballots c.elections a.to m c.node
                  (Local-Reset members c.ballots c.elections a.to n m (l a.to) a.args k.unique other
                    reset)
                  (λ w d. l w),
              kept-Shared members distinct named c (λ w. if w ==ℤ a.to then m else c.node w) k,
            )
      ]

  pub asked :
      (c : Cluster S) (v index term : ℤ)
      → contains v members ≡ true
      → IsCluster members distinct named c
      → IsCluster members distinct named
          (record c { requests = vote_request index term (c.node v) ∷ c.requests })
  asked c v index term i (l, k) = (
    l,
    record {
      voters = k.voters;
      requested = λ r j. elim j [
        | inl e ↦
            ap (λ (x : RequestVoteArgs). contains x.candidate_id members) e
            ∙ ap (λ x. contains x members) (l v).id
            ∙ i
        | inr j' ↦ k.requested r j'
      ];
      answered = k.answered;
      appended = k.appended;
      pairs = k.pairs;
      quorum = k.quorum;
      unique = k.unique;
    },
  )

  create-term :
      (i : ℕ) (n : RaftNode S)
      → ((create_append_entries_args i n).term ≡ pos 0)
        ⊎ ((is_leader n.state ≡ true) × ((create_append_entries_args i n).term ≡ n.current_term))
  unfolding create_append_entries_args
  create-term i n = ground arith

  pub sent :
      (c : Cluster S) (v : ℤ) (i : ℕ) (peer : ℤ)
      → contains v members ≡ true
      → element (c.node v).peer_ids i ≡ some peer
      → IsCluster members distinct named c
      → IsCluster members distinct named (record c {
        appends = record { to = peer; args = create_append_entries_args i (c.node v) } ∷ c.appends;
      })
  sent c v i peer j e (l, k) =
      let inside : contains peer (without v members) ≡ true =
        ap (contains peer) (sym (l v).peers) ∙ contains-element (c.node v).peer_ids i peer e in
      let parts = contains-without peer v members in
      let apart : v ≢ peer =
        λ s. (let bad : (peer ==ℤ v) ≡ true = ground (arith, ==ℤ_iff peer v) in ground arith) in
      let fresh : ((create_append_entries_args i (c.node v)).term ≡ pos 0)
          ⊎ Other c.elections (create_append_entries_args i (c.node v)).term peer =
        elim (create-term i (c.node v)) [
          | inl z ↦ inl z
          | inr (leads, t) ↦
              inr
                (v, subst (λ x. In (vote_of x v) c.elections) (sym t) ((l v).leading leads), apart)
        ] in
      (
        l,
        record {
          voters = k.voters;
          requested = k.requested;
          answered = k.answered;
          appended = λ m h. elim h [
            | inl same ↦
                subst
                  (λ (x : Append).
                    (contains x.to members ≡ true)
                    × ((x.args.term ≡ pos 0) ⊎ Other c.elections x.args.term x.to))
                  (sym same) (ground arith, fresh)
            | inr h' ↦ k.appended m h'
          ];
          pairs = k.pairs;
          quorum = k.quorum;
          unique = k.unique;
        },
      )
