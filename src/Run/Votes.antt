-- ===== src/Run/Votes.antt =====
-- src/raft/raft_node.cpp: a node votes for at most one candidate in a term.
use my_raft_kvdb.Base.{
  ◌≡◌, ◌≢◌, refl, ◌⊎◌, arith, true, Option, none, some, List, [], ◌∷◌, ℤ, minus_one, suc_ℤ, ◌<ℤ◌,
  if◌then◌else◌, ==ℤ_iff,
}
use my_raft_kvdb.Messages.{AppendEntriesReply}
use my_raft_kvdb.Node.{Env, RaftNode, is_follower, persist_save_part, persist_clear_part}
use my_raft_kvdb.Node.Apply.Frame.{apply_committed_entries-SameRaft}
use my_raft_kvdb.Node.Append.Frame.{
  handle_append_entries-current_term, handle_append_entries-voted_for,
}
use my_raft_kvdb.Node.Election.{
  handle_request_vote, start_election, handle_vote_response, become_follower, yield_to_term,
}
use my_raft_kvdb.Node.Leader.{append_log_entry}
use my_raft_kvdb.Node.Leader.Frame.{
  Replied, yielded, kept, handle_append_entries_response-Replied, update_commit_index_eq,
}
use my_raft_kvdb.Run.{
  Event, request_vote, append_entries, election_timeout, vote_response, append_response, step_down,
  client_command, commit_check, apply_entries, heartbeat_sent, persist_save, persist_clear, step,
}

-- A vote that a node has given: the term and the candidate.
pub record Vote : Type 0 where
  pub term : ℤ
  pub candidate : ℤ

abbrev pub add_vote : Option Vote → List Vote → List Vote
add_vote none vs = vs
add_vote (some v) vs = v ∷ vs

-- Every vote of the list for the term of `v` is for the candidate of `v`.
abbrev pub Agrees : Vote → List Vote → Type 0
Agrees v [] = Unit {0}
Agrees v (w ∷ ws) = (w.term ≡ v.term → w.candidate ≡ v.candidate) × Agrees v ws

-- No two votes of the list are for one term and two candidates.
abbrev pub IsConsistent : List Vote → Type 0
IsConsistent [] = Unit {0}
IsConsistent (v ∷ vs) = Agrees v vs × IsConsistent vs

add_vote-Agrees :
    (v : Vote) (o : Option Vote) (vs : List Vote)
    → ((w : Vote) → o ≡ some w → w.term ≡ v.term → w.candidate ≡ v.candidate)
    → Agrees v vs
    → Agrees v (add_vote o vs)
add_vote-Agrees v none vs h ok = ok
add_vote-Agrees v (some w) vs h ok = (h w refl, ok)

add_vote-IsConsistent :
    (o : Option Vote) (vs : List Vote)
    → ((v : Vote) → o ≡ some v → Agrees v vs)
    → IsConsistent vs
    → IsConsistent (add_vote o vs)
add_vote-IsConsistent none vs h ok = ok
add_vote-IsConsistent (some v) vs h ok = (h v refl, ok)

module _ {S : Type 0} where
  -- The vote that a call gives: to the sender of a RequestVote, or to itself in a new election.
  pub vote : Event → RaftNode S → Option Vote
  vote (request_vote env args) n =
      if (handle_request_vote env args n).1.vote_granted
      then some (record { term = args.term; candidate = args.candidate_id })
      else none
  vote (election_timeout env) n =
      some (record { term = suc_ℤ n.current_term; candidate = n.node_id })
  vote _ n = none

  -- The votes of a run, oldest first.
  pub votes : List Event → RaftNode S → List Vote
  votes [] n = []
  votes (e ∷ es) n = add_vote (vote e n) (votes es (step e n))

  -- What the guarantee needs of a call: candidates have identifiers other than -1, and no leader of
  -- the node's own term makes a candidate or leader step down.
  abbrev pub IsOrderly : Event → RaftNode S → Type 0
  IsOrderly (request_vote env args) n = args.candidate_id ≢ minus_one
  IsOrderly (election_timeout env) n = n.node_id ≢ minus_one
  IsOrderly (append_entries env args) n =
      (is_follower n.state ≡ true) ⊎ (args.term ≢ n.current_term)
  IsOrderly _ n = Unit

  abbrev pub IsOrderlyRun : List Event → RaftNode S → Type 0
  IsOrderlyRun [] n = Unit
  IsOrderlyRun (e ∷ es) n = IsOrderly e n × IsOrderlyRun es (step e n)

  -- The node still knows of the vote, or its term has passed.
  abbrev Bound : Vote → RaftNode S → Type 0
  Bound v n =
      (v.term <ℤ n.current_term)
      ⊎ ((v.term ≡ n.current_term) × (v.candidate ≡ n.voted_for) × (v.candidate ≢ minus_one))

  Bound-Replied :
      {env : Env} {reply : AppendEntriesReply} {n m : RaftNode S} (v : Vote)
      → Replied env reply n m
      → Bound v n
      → Bound v m
  unfolding yield_to_term
  Bound-Replied v (yielded h) b = ground arith
  Bound-Replied v (kept _ _ _ _ _ _ _) b = b

  Bound-step :
      (v : Vote) (e : Event) (n : RaftNode S) → IsOrderly e n → Bound v n → Bound v (step e n)
  unfolding step
  Bound-step v (request_vote env args) n o b =
      unfold handle_request_vote in ground (arith, ==ℤ_iff n.voted_for args.candidate_id)
  Bound-step v (append_entries env args) n o b =
      rw (handle_append_entries-current_term, handle_append_entries-voted_for) (ground arith)
  Bound-step v (election_timeout env) n o b = unfold start_election in ground arith
  Bound-step v (vote_response env id reply) n o b = unfold handle_vote_response in ground arith
  Bound-step v (append_response env id reply) n o b =
      Bound-Replied v (handle_append_entries_response-Replied env id reply n) b
  Bound-step v (step_down env term) n o b = unfold become_follower in ground arith
  Bound-step v (client_command command) n o b = unfold append_log_entry in ground arith
  Bound-step v commit_check n o b = rw update_commit_index_eq b
  Bound-step v apply_entries n o b = ground (arith, apply_committed_entries-SameRaft n)
  Bound-step v (heartbeat_sent env) n o b = b
  Bound-step v persist_save n o b = unfold persist_save_part in ground arith
  Bound-step v persist_clear n o b = unfold persist_clear_part in b

  Bound-vote :
      (v : Vote) (e : Event) (n : RaftNode S)
      → IsOrderly e n
      → vote e n ≡ some v
      → Bound v (step e n)
  unfolding vote step
  Bound-vote v (request_vote env args) n o h = unfold handle_request_vote in ground arith
  Bound-vote v (election_timeout env) n o h = unfold start_election in ground arith
  Bound-vote v _ n o h = cc

  vote-Bound :
      (v w : Vote) (e : Event) (n : RaftNode S)
      → IsOrderly e n
      → Bound v n
      → vote e n ≡ some w
      → w.term ≡ v.term
      → w.candidate ≡ v.candidate
  unfolding vote
  vote-Bound v w (request_vote env args) n o b h same =
      unfold handle_request_vote in ground (arith, ==ℤ_iff n.voted_for args.candidate_id)
  vote-Bound v w (election_timeout env) n o b h same = ground arith
  vote-Bound v w _ n o b h same = cc

  votes-Agrees :
      (v : Vote) (es : List Event) (n : RaftNode S)
      → IsOrderlyRun es n
      → Bound v n
      → Agrees v (votes es n)
  unfolding votes
  votes-Agrees v [] n o b = tt
  votes-Agrees v (e ∷ es) n o b =
      add_vote-Agrees v (vote e n) (votes es (step e n)) (λ w. vote-Bound v w e n o.0 b)
        (votes-Agrees v es (step e n) o.1 (Bound-step v e n o.0 b))

  -- In a run in which every candidate's identifier differs from -1 and no AppendEntries of the
  -- node's own term finds it a candidate or leader, the votes that the node gives, its own
  -- candidacies included, never name two candidates for one term.
  pub votes-IsConsistent :
      (es : List Event) (n : RaftNode S) → IsOrderlyRun es n → IsConsistent (votes es n)
  unfolding votes
  votes-IsConsistent [] n o = tt
  votes-IsConsistent (e ∷ es) n o =
      add_vote-IsConsistent (vote e n) (votes es (step e n))
        (λ v h. votes-Agrees v es (step e n) o.1 (Bound-vote v e n o.0 h))
        (votes-IsConsistent es (step e n) o.1)
