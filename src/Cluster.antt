-- ===== src/Cluster.antt =====
-- src/raft_node_server.cpp with src/raft/raft_node.cpp: the servers of a cluster and the messages
-- between them. Every request and every reply stays in a list, so that a message can be delivered
-- late, more than once, out of order, or never; an action out of range does nothing. `ballots` and
-- `elections` are not part of the program: they record every vote given, to oneself included, and
-- every election won.
pub mod Members
pub mod Moves
pub mod Invariant
pub mod Ballots
pub mod Counts
pub mod Shared
pub mod Voting
pub mod Deliver
pub mod Safety
use my_raft_kvdb.Base.{
  ℕ, zero, suc, Bool, true, false, not, ◌&&◌, Option, none, some, List, [], ◌∷◌, if◌then◌else◌, ℤ,
  minus_one, ◌==ℤ◌, get_or, length,
}
use my_raft_kvdb.Log.{last_log_index, last_log_term, LogEntry}
use my_raft_kvdb.Messages.{RequestVoteArgs, RequestVoteReply, AppendEntriesArgs, AppendEntriesReply}
use my_raft_kvdb.Node.{Env, RaftNode, contains, new_node}
use my_raft_kvdb.Node.Append.{handle_append_entries}
use my_raft_kvdb.Node.Election.{handle_request_vote, start_election, handle_vote_response}
use my_raft_kvdb.Node.Leader.{create_append_entries_args}
use my_raft_kvdb.Run.{
  Event, request_vote, append_entries, election_timeout, vote_response, append_response, step_down,
  client_command, commit_check, apply_entries, heartbeat_sent, persist_save, persist_clear, step,
}
use my_raft_kvdb.Run.Votes.{Vote}

pub record Ballot : Type 0 where
  pub voter : ℤ
  pub term : ℤ
  pub candidate : ℤ

-- A reply to a RequestVote, with who sends it and the candidate that had asked.
pub record VoteAnswer : Type 0 where
  pub from : ℤ
  pub to : ℤ
  pub reply : RequestVoteReply

-- An AppendEntries and the peer that it goes to.
pub record Append : Type 0 where
  pub to : ℤ
  pub args : AppendEntriesArgs

pub record Cluster (S : Type 0) : Type 0 where
  pub node : ℤ → RaftNode S
  pub requests : List RequestVoteArgs
  pub answers : List VoteAnswer
  pub appends : List Append
  pub ballots : List Ballot
  pub elections : List Vote

-- What a server, or the network for it, does next.
pub data Action : Type 0 where
  time_out : ℤ → Env → Action
  ask : ℤ → ℤ → ℤ → Action
  answer : ℤ → ℕ → Env → Action
  tally : ℕ → Env → Action
  send : ℤ → ℕ → Action
  receive : ℕ → Env → Action
  local : ℤ → Event → Action
  start_again : ℤ → Env → Action

-- The peers of a server: the members of the cluster but for itself.
abbrev pub without : ℤ → List ℤ → List ℤ
without v [] = []
without v (x ∷ xs) = let rest = without v xs in if x ==ℤ v then rest else x ∷ rest

abbrev pub element {ℓ} : {A : Type ℓ} → List A → ℕ → Option A
element [] i = none
element (x ∷ xs) zero = some x
element (x ∷ xs) (suc i) = element xs i

-- The calls that no message of the cluster's elections and of a leader makes.
abbrev pub is_local : Event → Bool
is_local (request_vote env args) = false
is_local (append_entries env args) = false
is_local (election_timeout env) = false
is_local (vote_response env id reply) = false
is_local _ = true

abbrev pub cast : ℤ → RequestVoteArgs → Bool → List Ballot → List Ballot
cast v args true ballots =
    record { voter = v; term = args.term; candidate = args.candidate_id } ∷ ballots
cast v args false ballots = ballots

module _ {S : Type 0} where
  abbrev pub set_node : ℤ → RaftNode S → Cluster S → Cluster S
  set_node v n c = record c { node = λ w. if w ==ℤ v then n else c.node w }

  -- The request that sendRequestVotesToPeers makes. It reads the role, the term and the log under a
  -- lock each, so that the node need not be candidate any more, and `index` and `term` are what the
  -- log showed at their moments.
  abbrev pub vote_request : ℤ → ℤ → RaftNode S → RequestVoteArgs
  vote_request index term n = record {
    term = n.current_term;
    candidate_id = n.node_id;
    last_log_index = index;
    last_log_term = term;
  }

  -- A process that starts again, with what its state file has (Run/Restart).
  abbrev pub start_again_node : Env → RaftNode S → RaftNode S
  start_again_node env n = record (new_node env n.node_id n.peer_ids n.machine) {
    current_term = n.current_term;
    voted_for = n.voted_for;
    log = n.log;
  }

  -- handleRequestVote of the server `v`.
  unfoldable pub answer_request : ℤ → Env → RequestVoteArgs → Cluster S → Cluster S
  answer_request v env args c =
      let (n, reply) = handle_request_vote env args (c.node v) in
      record (set_node v n c) {
        answers = record { from = v; to = args.candidate_id; reply = reply } ∷ c.answers;
        ballots = cast v args reply.vote_granted c.ballots;
      }

  abbrev pub won : ℤ → RaftNode S → Bool → List Vote → List Vote
  won v n true elections = record { term = n.current_term; candidate = v } ∷ elections
  won v n false elections = elections

  -- handleVoteResponse of the server that had asked.
  unfoldable pub take_answer : Env → VoteAnswer → Cluster S → Cluster S
  take_answer env a c =
      let (n, elected) = handle_vote_response env a.from a.reply (c.node a.to) in
      record (set_node a.to n c) { elections = won a.to n elected c.elections }

  unfoldable pub begin_election : ℤ → Env → Cluster S → Cluster S
  begin_election v env c =
      let n = start_election env (c.node v) in
      record (set_node v n c) {
        ballots = record { voter = v; term = n.current_term; candidate = v } ∷ c.ballots;
      }

  unfoldable pub receive_append : Env → Append → Cluster S → Cluster S
  receive_append env m c = set_node m.to (handle_append_entries env m.args (c.node m.to)).0 c

  module _ (members : List ℤ) where
    unfoldable pub act : Action → Cluster S → Cluster S
    act (time_out v env) c = if contains v members then begin_election v env c else c
    act (ask v index term) c =
        if contains v members
        then record c { requests = vote_request index term (c.node v) ∷ c.requests }
        else c
    act (answer v i env) c = elim (element c.requests i) [
      | none ↦ c
      | some args ↦ if contains v members then answer_request v env args c else c
    ]
    act (tally i env) c = elim (element c.answers i) [ none ↦ c | some a ↦ take_answer env a c ]
    act (send v i) c = elim (element (c.node v).peer_ids i) [
      | none ↦ c
      | some peer ↦
          if contains v members
          then record c {
            appends =
                record { to = peer; args = create_append_entries_args i (c.node v) } ∷ c.appends;
          }
          else c
    ]
    act (receive i env) c = elim (element c.appends i) [
      | none ↦ c
      | some m ↦ receive_append env m c
    ]
    act (local v e) c =
        if contains v members && is_local e then set_node v (step e (c.node v)) c else c
    act (start_again v env) c =
        if contains v members then set_node v (start_again_node env (c.node v)) c else c

    unfoldable pub run_actions : List Action → Cluster S → Cluster S
    run_actions [] c = c
    run_actions (a ∷ actions) c = run_actions actions (act a c)

    -- Every server as its constructor leaves it.
    abbrev pub new_cluster : Env → S → Cluster S
    new_cluster env machine = record {
      node = λ v. new_node env v (without v members) machine;
      requests = [];
      answers = [];
      appends = [];
      ballots = [];
      elections = [];
    }
