-- ===== src/Server/Counting.antt =====
-- src/raft_node_server.cpp: the answers to requests for votes, as the thread pool brings them.
use my_raft_kvdb.Base.{
  ℕ, zero, suc, ◌≤◌, ◌<◌, ◌+◌, ◌≡◌, refl, sym, subst, ◌∙◌, Bool, true, false, Option, none, some,
  List, [], ◌∷◌, length, arith, inl, inr, ℤ, ◌==ℤ◌, if◌then◌else◌, ◌⊎◌,
}
use my_raft_kvdb.Messages.{RequestVoteArgs, RequestVoteReply}
use my_raft_kvdb.Node.{Env, RaftNode, leader, candidate, contains, majority}
use my_raft_kvdb.Node.Election.{handle_vote_response, count_vote, become_leader}
use my_raft_kvdb.Run.{run}
use my_raft_kvdb.Server.{Addresses, ask_vote, ask_all, Network, Process, work, run_task, vote_task}
use my_raft_kvdb.Text.{Bytes}

-- What comes back from an address, and how many of the addresses grant their votes.
abbrev pub answer : Network → RequestVoteArgs → Bytes → Option RequestVoteReply
answer w args address = if w.connects address then w.vote address args else none

abbrev granted : Option RequestVoteReply → ℕ
granted none = 0
granted (some reply) = if reply.vote_granted then 1 else 0

abbrev pub grants : Network → RequestVoteArgs → Addresses → ℕ
grants w args [] = 0
grants w args ((i, a) ∷ addresses) = granted (answer w args a) + grants w args addresses

abbrev pub NotIn : ℤ → Addresses → Type 0
NotIn i [] = Unit {0}
NotIn i ((j, a) ∷ addresses) = ((j ==ℤ i) ≡ false) × NotIn i addresses

abbrev pub IsApart : Addresses → Type 0
IsApart [] = Unit {0}
IsApart ((i, a) ∷ addresses) = NotIn i addresses × IsApart addresses

-- None of the addresses has voted.
abbrev pub Fresh : Addresses → List ℤ → Type 0
Fresh [] votes = Unit {0}
Fresh ((i, a) ∷ addresses) votes = (contains i votes ≡ false) × Fresh addresses votes

Fresh-cons :
    (i : ℤ) (addresses : Addresses) (votes : List ℤ)
    → NotIn i addresses
    → Fresh addresses votes
    → Fresh addresses (i ∷ votes)
Fresh-cons i [] votes a f = tt
Fresh-cons i ((j, b) ∷ addresses) votes a f =
    (ground (arith, a.0, f.0), Fresh-cons i addresses votes a.1 f.1)

module _ {S : Type 0} where
  -- A candidate that is still short of a majority.
  pub record IsCounting (term : ℤ) (addresses : Addresses) (k : ℕ) (n : RaftNode S) : Type 0 where
    pub is_candidate : n.state ≡ candidate
    pub of_term : n.current_election_term ≡ term
    pub fresh : Fresh addresses n.votes_received
    pub short : length n.votes_received < majority n.peer_ids
    pub enough : majority n.peer_ids ≤ length n.votes_received + k

  -- In the term, the node leads, or it can still win by the votes of the addresses that are left.
  abbrev pub IsAhead : ℤ → Addresses → ℕ → RaftNode S → Type 0
  IsAhead term addresses k n =
      (n.current_term ≡ term) × ((n.state ≡ leader) ⊎ IsCounting term addresses k n)

  -- What a reply for the node's own term leaves.
  record Counted (i : ℤ) (granted : Bool) (n m : RaftNode S) : Type 0 where
    same_term : m.current_term ≡ n.current_term
    same_peers : m.peer_ids ≡ n.peer_ids
    outcome :
        (m.state ≡ leader)
        ⊎ ((m.state ≡ candidate)
            × (m.current_election_term ≡ n.current_election_term)
            × (m.votes_received ≡ (if granted then i ∷ n.votes_received else n.votes_received))
            × (granted ≡ true → suc (length n.votes_received) < majority n.peer_ids))

  handle_vote_response-Counted :
      (env : Env) (i : ℤ) (reply : RequestVoteReply) (n : RaftNode S)
      → n.state ≡ candidate
      → reply.term ≡ n.current_term
      → n.current_election_term ≡ n.current_term
      → contains i n.votes_received ≡ false
      → Counted i reply.vote_granted n (handle_vote_response env i reply n).0
  unfolding handle_vote_response count_vote become_leader
  handle_vote_response-Counted env i reply n c t e f = record {
    same_term = ground arith;
    same_peers = ground arith;
    outcome = ground arith;
  }

  leader_stays :
      (env : Env) (i : ℤ) (reply : RequestVoteReply) (n : RaftNode S)
      → n.state ≡ leader
      → (handle_vote_response env i reply n).0 ≡ n
  unfolding handle_vote_response
  leader_stays env i reply n l = rw l refl

  Counted-IsAhead :
      (i : ℤ) (a : Bytes) (addresses : Addresses) (k : ℕ) (granted : Bool) (n m : RaftNode S)
      → NotIn i addresses
      → Counted i granted n m
      → IsCounting n.current_term ((i, a) ∷ addresses) ((if granted then 1 else 0) + k) n
      → IsAhead n.current_term addresses k m
  Counted-IsAhead i a addresses k granted n m apart d c = elim d.outcome [
    | inl won ↦ (d.same_term, inl won)
    | inr (s, e, v, short) ↦
        (d.same_term, inr (counting granted s (e ∙ c.of_term) v short c.short c.enough))
  ]
    where
      counting :
          (g : Bool)
          → m.state ≡ candidate
          → m.current_election_term ≡ n.current_term
          → m.votes_received ≡ (if g then i ∷ n.votes_received else n.votes_received)
          → (g ≡ true → suc (length n.votes_received) < majority n.peer_ids)
          → length n.votes_received < majority n.peer_ids
          → majority n.peer_ids ≤ length n.votes_received + ((if g then 1 else 0) + k)
          → IsCounting n.current_term addresses k m
      counting true s e v short was enough = record {
        is_candidate = s;
        of_term = e;
        fresh = rw v (Fresh-cons i addresses n.votes_received apart c.fresh.1);
        short = rw (v, d.same_peers) (short refl);
        enough = rw (v, d.same_peers) (omega (arith, enough));
      }
      counting false s e v short was enough = record {
        is_candidate = s;
        of_term = e;
        fresh = rw v c.fresh.1;
        short = rw (v, d.same_peers) was;
        enough = rw (v, d.same_peers) (omega (arith, enough));
      }

  drop_first :
      (term : ℤ) (i : ℤ) (a : Bytes) (addresses : Addresses) (k : ℕ) (n : RaftNode S)
      → IsAhead term ((i, a) ∷ addresses) k n
      → IsAhead term addresses k n
  drop_first term i a addresses k n (t, inl l) = (t, inl l)
  drop_first term i a addresses k n (t, inr c) = (
    t,
    inr (record {
      is_candidate = c.is_candidate;
      of_term = c.of_term;
      fresh = c.fresh.1;
      short = c.short;
      enough = c.enough;
    }),
  )

  reply-IsAhead :
      (env : Env) (i : ℤ) (a : Bytes) (addresses : Addresses) (k : ℕ) (reply : RequestVoteReply)
      (term : ℤ) (n : RaftNode S)
      → NotIn i addresses
      → reply.term ≡ term
      → IsAhead term ((i, a) ∷ addresses) ((if reply.vote_granted then 1 else 0) + k) n
      → IsAhead term addresses k (handle_vote_response env i reply n).0
  reply-IsAhead env i a addresses k reply term n apart t (same, inl l) =
      rw (leader_stays env i reply n l) (same, inl l)
  reply-IsAhead env i a addresses k reply term n apart t (same, inr c) =
      subst (λ u. IsAhead u addresses k (handle_vote_response env i reply n).0) same
        (Counted-IsAhead i a addresses k reply.vote_granted n (handle_vote_response env i reply n).0
          apart
          (handle_vote_response-Counted env i reply n c.is_candidate (t ∙ sym same)
            (c.of_term ∙ sym same) c.fresh.0)
          (subst
            (λ u. IsCounting u ((i, a) ∷ addresses) ((if reply.vote_granted then 1 else 0) + k) n)
            (sym same) c))

  vote_task-IsAhead :
      (env : Env) (w : Network) (args : RequestVoteArgs) (i : ℤ) (a : Bytes) (addresses : Addresses)
      (k : ℕ) (n : RaftNode S)
      → NotIn i addresses
      → ((reply : RequestVoteReply) → answer w args a ≡ some reply → reply.term ≡ args.term)
      → IsAhead args.term ((i, a) ∷ addresses) (granted (answer w args a) + k) n
      → IsAhead args.term addresses k (run_task env w [] (ask_vote i a args) n)
  unfolding run_task vote_task run
  vote_task-IsAhead env w args i a addresses k n apart answers ahead = go (answer w args a) refl
    where
      go :
          (o : Option RequestVoteReply)
          → answer w args a ≡ o
          → IsAhead args.term addresses k (run_task env w [] (ask_vote i a args) n)
      go none e =
          rw (e, run_task, vote_task)
            (drop_first args.term i a addresses k n (
              subst (λ j. IsAhead args.term ((i, a) ∷ addresses) j n) (omega arith)
                (subst (λ o. IsAhead args.term ((i, a) ∷ addresses) (granted o + k) n) e ahead)))
      go (some reply) e =
          rw (e, run_task, vote_task)
            (reply-IsAhead env i a addresses k reply args.term n apart (answers reply e)
              (subst (λ o. IsAhead args.term ((i, a) ∷ addresses) (granted o + k) n) e ahead))

  -- Workers that take as many tasks, with no other calls between.
  abbrev pub works : Env → Network → ℕ → Process S → Process S
  works env w zero p = p
  works env w (suc k) p = works env w k (work env w [] p)

  pub works-IsAhead :
      (env : Env) (w : Network) (args : RequestVoteArgs) (addresses : Addresses) (n : RaftNode S)
      → IsApart addresses
      → ((a : Bytes) (reply : RequestVoteReply)
          → answer w args a ≡ some reply
          → reply.term ≡ args.term)
      → IsAhead args.term addresses (grants w args addresses) n
      → let p =
          works env w (length addresses) (record { node = n; tasks = ask_all args addresses }) in
        IsAhead args.term [] 0 p.node × (p.tasks ≡ [])
  unfolding ask_all work
  works-IsAhead env w args [] n apart answers ahead = (ahead, refl)
  works-IsAhead env w args ((i, a) ∷ addresses) n apart answers ahead =
      works-IsAhead env w args addresses (run_task env w [] (ask_vote i a args) n) apart.1 answers (
        vote_task-IsAhead env w args i a addresses (grants w args addresses) n apart.0 (answers a)
          ahead)

  pub IsAhead-leader : (term : ℤ) (n : RaftNode S) → IsAhead term [] 0 n → n.state ≡ leader
  IsAhead-leader term n (t, inl l) = l
  IsAhead-leader term n (t, inr c) =
      let never : ⊥ = omega (arith, c.short, c.enough) in elim never [ ]
