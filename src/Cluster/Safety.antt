-- ===== src/Cluster/Safety.antt =====
-- src/raft_node_server.cpp, src/raft/raft_node.cpp: election safety of a cluster, over all orders of
-- timeouts, messages, local calls and restarts.
use my_raft_kvdb.Base.{
  ◌≡◌, refl, inl, inr, Bool, true, false, ◌&&◌, List, [], ◌∷◌, arith, ℤ, minus_one, Option-cases,
  if◌then◌else◌,
}
use my_raft_kvdb.Cluster.Ballots.{Unique}
use my_raft_kvdb.Cluster.Invariant.{vote_of}
use my_raft_kvdb.Cluster.Members.{IsDistinct}
use my_raft_kvdb.Cluster.Moves.{Move-step, Move-start_again}
use my_raft_kvdb.Cluster.{
  Cluster, Action, time_out, ask, answer, tally, send, receive, local, start_again, element,
  set_node, start_again_node, answer_request, begin_election, act, run_actions, new_cluster,
  is_local,
}
use my_raft_kvdb.Node.{Env, contains, new_node, is_leader}
use my_raft_kvdb.Run.{step}
use my_raft_kvdb.Cluster.Voting.{IsCluster, In-element, moved, begun, answered}
use my_raft_kvdb.Cluster.Deliver.{tallied, received, asked, sent}

module _ {S : Type 0} (members : List ℤ) (distinct : IsDistinct members)
    (named : contains minus_one members ≡ false) where
  guarded :
      (c : Cluster S) (b : Bool) (c' : Cluster S)
      → IsCluster members distinct named c
      → (b ≡ true → IsCluster members distinct named c')
      → IsCluster members distinct named (if b then c' else c)
  guarded c true c' k h = h refl
  guarded c false c' k h = k

  act-IsCluster :
      (a : Action) (c : Cluster S)
      → IsCluster members distinct named c
      → IsCluster members distinct named (act members a c)
  unfolding act
  act-IsCluster (time_out v env) c k =
      guarded c (contains v members) (begin_election v env c) k
        (λ i. begun members distinct named c v env i k)
  act-IsCluster (ask v index term) c k =
      guarded c (contains v members) _ k (λ i. asked members distinct named c v index term i k)
  act-IsCluster (answer v i env) c k = elim (Option-cases (element c.requests i)) [
    | inl e ↦ rw (e, act) k
    | inr (args, e) ↦
        rw (e, act)
          (guarded c (contains v members) (answer_request v env args c) k (λ j.
            answered members distinct named c v env args j
              (k.1.requested args (In-element c.requests i args e)) k))
  ]
  act-IsCluster (tally i env) c k = elim (Option-cases (element c.answers i)) [
    | inl e ↦ rw (e, act) k
    | inr (a, e) ↦
        let known = k.1.answered a (In-element c.answers i a e) in
        rw (e, act) (tallied members distinct named c env a known.0 known.1 k)
  ]
  act-IsCluster (send v i) c k = elim (Option-cases (element (c.node v).peer_ids i)) [
    | inl e ↦ rw (e, act) k
    | inr (peer, e) ↦
        rw (e, act)
          (guarded c (contains v members) _ k (λ j. sent members distinct named c v i peer j e k))
  ]
  act-IsCluster (receive i env) c k = elim (Option-cases (element c.appends i)) [
    | inl e ↦ rw (e, act) k
    | inr (m, e) ↦
        rw (e, act)
          (received members distinct named c env m k
            (k.1.appended m (In-element c.appends i m e)).1)
  ]
  act-IsCluster (local v e) c k =
      guarded c (contains v members && is_local e) (set_node v (step e (c.node v)) c) k (λ j.
        moved members distinct named c v (step e (c.node v)) k
          (Move-step e (c.node v) (ground arith)))
  act-IsCluster (start_again v env) c k =
      guarded c (contains v members) (set_node v (start_again_node env (c.node v)) c) k (λ j.
        moved members distinct named c v (start_again_node env (c.node v)) k
          (Move-start_again env (c.node v)))

  run-IsCluster :
      (actions : List Action) (c : Cluster S)
      → IsCluster members distinct named c
      → IsCluster members distinct named (run_actions members actions c)
  unfolding run_actions
  run-IsCluster [] c k = k
  run-IsCluster (a ∷ actions) c k = run-IsCluster actions (act members a c) (act-IsCluster a c k)

  new_cluster-IsCluster :
      (env : Env) (machine : S) → IsCluster members distinct named (new_cluster members env machine)
  unfolding new_node
  new_cluster-IsCluster env machine = (
    λ v. record {
      id = refl;
      peers = refl;
      nonneg = omega arith;
      standing = λ b i. elim i [ ];
      candidate = λ c. ground arith;
      active = λ a. ground arith;
      leading = λ h. ground arith;
    },
    record {
      voters = λ b i. elim i [ ];
      requested = λ r i. elim i [ ];
      answered = λ a i. elim i [ ];
      appended = λ m i. elim i [ ];
      pairs = λ a b i. elim i [ ];
      quorum = λ e i. elim i [ ];
      unique = λ e f i. elim i [ ];
    },
  )

  -- Servers with distinct identifiers other than -1 start as the constructor leaves them. After any
  -- timeouts, requests, replies, AppendEntries (late, repeated, out of order or lost), local calls
  -- and restarts with the saved term, vote and log, no two servers have won elections of one term,
  -- and no two are leader in one term.
  pub election_safety :
      (env : Env) (machine : S) (actions : List Action)
      → let c = run_actions members actions (new_cluster members env machine) in
        Unique c.elections
        × ((v w : ℤ)
            → is_leader (c.node v).state ≡ true
            → is_leader (c.node w).state ≡ true
            → (c.node v).current_term ≡ (c.node w).current_term
            → v ≡ w)
  election_safety env machine actions =
      let c = run_actions members actions (new_cluster members env machine) in
      let (l, k) =
        run-IsCluster actions (new_cluster members env machine)
          (new_cluster-IsCluster env machine) in
      (
        k.unique,
        λ v w i j t.
            k.unique (vote_of (c.node v).current_term v) (vote_of (c.node w).current_term w)
              ((l v).leading i) ((l w).leading j) t,
      )
