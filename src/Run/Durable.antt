-- ===== src/Run/Durable.antt =====
-- src/raft/raft_node.cpp: which calls leave the state on disk, and how a command's entry is left out.
use my_raft_kvdb.Base.{
  if◌then◌else◌, ◌≡◌, refl, arith, Bool, true, false, some, List, [], ◌∷◌, ◌++◌, length, ℤ, pos,
  inl, inr, Bool-cases, ltb_ℤ, ◌&&◌, minus_one, subst, sym, suc_ℤ,
}
use my_raft_kvdb.Messages.{RequestVoteReply, AppendEntriesReply}
use my_raft_kvdb.Node.{
  leader, candidate, persist_state, is_candidate, Env, RaftNode, persist_save_part,
  persist_clear_part,
}
use my_raft_kvdb.Persister.{serialize_state}
use my_raft_kvdb.Text.{Bytes}
use my_raft_kvdb.Node.Election.{
  start_election, handle_vote_response, become_follower, yield_to_term,
}
use my_raft_kvdb.Node.Leader.{append_log_entry}
use my_raft_kvdb.Node.Leader.Frame.{
  Replied, yielded, kept, handle_append_entries_response-Replied, update_commit_index_eq,
}
use my_raft_kvdb.Run.{
  Event, request_vote, append_entries, election_timeout, vote_response, append_response, step_down,
  client_command, commit_check, apply_entries, heartbeat_sent, persist_save, persist_clear, step,
  run,
}
use my_raft_kvdb.Run.Saved.{
  IsSaved, IsHealthy, file_of, persist_state-IsSaved, IsSaved-of_eq, request_vote-IsSaved,
  append_entries-IsSaved, apply_committed_entries-IsSaved,
}

-- Every call but a client's command.
abbrev pub IsSynchronous : Event → Type 0
IsSynchronous (client_command command) = ⊥
IsSynchronous _ = Unit

abbrev pub AllSynchronous : List Event → Type 0
AllSynchronous [] = Unit {0}
AllSynchronous (e ∷ es) = IsSynchronous e × AllSynchronous es

module _ {S : Type 0} where
  Replied-IsSaved :
      {env : Env} {reply : AppendEntriesReply} {n m : RaftNode S}
      → Replied env reply n m
      → IsSaved n
      → IsSaved m
  unfolding yield_to_term
  Replied-IsSaved (yielded h) s = persist_state-IsSaved _ s.healthy
  Replied-IsSaved (kept c next match a b d e) s = IsSaved-of_eq refl refl refl refl s

  vote_response_newer :
      (env : Env) (id : ℤ) (reply : RequestVoteReply) (n : RaftNode S)
      → (is_candidate n.state && ltb_ℤ n.current_term reply.term) ≡ true
      → (handle_vote_response env id reply n).0 ≡ yield_to_term env reply.term n
  unfolding handle_vote_response
  vote_response_newer env id reply n h = ground arith

  abbrev SameFile : RaftNode S → RaftNode S → Type 0
  SameFile n m =
      (m.persister ≡ n.persister)
      × (m.current_term ≡ n.current_term)
      × (m.voted_for ≡ n.voted_for)
      × (m.log ≡ n.log)

  vote_response_same :
      (env : Env) (id : ℤ) (reply : RequestVoteReply) (n : RaftNode S)
      → (is_candidate n.state && ltb_ℤ n.current_term reply.term) ≡ false
      → SameFile n (handle_vote_response env id reply n).0
  unfolding handle_vote_response
  vote_response_same env id reply n h = ground arith

  become_follower-IsSaved :
      (env : Env) (term : ℤ) (n : RaftNode S) → IsSaved n → IsSaved (become_follower env term n)
  unfolding become_follower
  become_follower-IsSaved env term n s = elim (Bool-cases (ltb_ℤ n.current_term term)) [
    | inl newer ↦ rw newer (
        IsSaved-of_eq {n = persist_state (record n { current_term = term; voted_for = minus_one })}
          refl refl refl refl (persist_state-IsSaved _ s.healthy))
    | inr old ↦ rw old (IsSaved-of_eq refl refl refl refl s)
  ]

  if-IsSaved : (b : Bool) (m n : RaftNode S) → IsSaved m → IsSaved n → IsSaved (if b then m else n)
  if-IsSaved true m n sm sn = sm
  if-IsSaved false m n sm sn = sn

  persist_save-IsSaved : (n : RaftNode S) → IsSaved n → IsSaved (persist_save_part n)
  unfolding persist_save_part
  persist_save-IsSaved n s =
      if-IsSaved n.needs_persist (persist_state n) n (persist_state-IsSaved n s.healthy) s

  vote_response-IsSaved :
      (env : Env) (id : ℤ) (reply : RequestVoteReply) (n : RaftNode S)
      → IsSaved n
      → IsSaved (handle_vote_response env id reply n).0
  vote_response-IsSaved env id reply n s =
      elim (Bool-cases (is_candidate n.state && ltb_ℤ n.current_term reply.term)) [
        | inl newer ↦
            subst IsSaved (sym (vote_response_newer env id reply n newer))
              (unfold yield_to_term in persist_state-IsSaved _ s.healthy)
        | inr same ↦
            let f = vote_response_same env id reply n same in IsSaved-of_eq f.0 f.1 f.2 f.3 s
      ]

  step-IsSaved : (e : Event) (n : RaftNode S) → IsSynchronous e → IsSaved n → IsSaved (step e n)
  unfolding step
  step-IsSaved (request_vote env args) n h s = request_vote-IsSaved env args n s
  step-IsSaved (append_entries env args) n h s = append_entries-IsSaved env args n s
  step-IsSaved (election_timeout env) n h s =
      unfold start_election in
      IsSaved-of_eq refl refl refl refl (
        persist_state-IsSaved
          (record n {
            state = candidate;
            current_term = suc_ℤ n.current_term;
            voted_for = n.node_id;
            leader_id = minus_one;
          })
          s.healthy)
  step-IsSaved (vote_response env id reply) n h s = vote_response-IsSaved env id reply n s
  step-IsSaved (append_response env id reply) n h s =
      Replied-IsSaved (handle_append_entries_response-Replied env id reply n) s
  step-IsSaved (step_down env term) n h s = become_follower-IsSaved env term n s
  step-IsSaved (client_command command) n h s = absurd h
  step-IsSaved commit_check n h s = rw update_commit_index_eq (IsSaved-of_eq refl refl refl refl s)
  step-IsSaved apply_entries n h s = apply_committed_entries-IsSaved n s
  step-IsSaved (heartbeat_sent env) n h s = IsSaved-of_eq refl refl refl refl s
  step-IsSaved persist_save n h s = persist_save-IsSaved n s
  step-IsSaved persist_clear n h s =
      unfold persist_clear_part in IsSaved-of_eq refl refl refl refl s

  -- While the file system works, no call but a client's command ever leaves the term, the vote or the
  -- log of the node other than they stand in its state file, if they stood there before.
  pub run-IsSaved :
      (es : List Event) (n : RaftNode S) → AllSynchronous es → IsSaved n → IsSaved (run es n)
  unfolding run
  run-IsSaved [] n h s = s
  run-IsSaved (e ∷ es) n h s = run-IsSaved es (step e n) h.1 (step-IsSaved e n h.0 s)

  -- A round of the persistence thread that a client's command at a leader comes into: the entry is in
  -- the log and not in the file, the flag is down, and the next round saves nothing.
  pub save_lost :
      (command : Bytes) (n : RaftNode S)
      → n.state ≡ leader
      → n.needs_persist ≡ true
      → IsHealthy n.persister
      → let m = run (persist_save ∷ client_command command ∷ persist_clear ∷ persist_save ∷ []) n in
        (m.log
          ≡ n.log
            ++ record { term = n.current_term; command = command; index = pos (length n.log) } ∷ [])
        × (file_of m.persister ≡ some (serialize_state n.current_term n.voted_for n.log))
        × (m.needs_persist ≡ false)
  unfolding run step persist_save_part persist_clear_part append_log_entry
  save_lost command n leads needed healthy =
      let saved = persist_state-IsSaved n healthy in
      (ground arith, ground (arith, saved.on_disk), ground arith)
