-- ===== src/Run/Saved.antt =====
-- src/raft/raft_node.cpp: when the state file holds the node's term, vote and log.
use my_raft_kvdb.Base.{
  ◌≡◌, refl, ap, ◌∙◌, arith, Bool, false, Option, none, some, List, [], ◌∷◌, ℤ, inl, inr,
  Bool-cases, subst, sym, ltb_ℤ, suc_ℤ, Option-cases,
}
use my_raft_kvdb.Log.{LogEntry}
use my_raft_kvdb.Messages.{AppendEntriesArgs, RequestVoteArgs}
use my_raft_kvdb.Node.{Env, RaftNode, is_follower, saved_persister, persist_state}
use my_raft_kvdb.Persister.{Persister, serialize_state, save_raft_state}
use my_raft_kvdb.Text.{Bytes}
use my_raft_kvdb.Node.Apply.{apply_committed_entries}
use my_raft_kvdb.Node.Apply.Frame.{apply_committed_entries-SameRaft}
use my_raft_kvdb.Node.Append.{
  merge_log, merge_one, log_conflict, merge_entries, advance_commit, take_entries, accept_leader,
  handle_append_entries,
}
use my_raft_kvdb.Node.Election.{observe_vote_term, can_grant, handle_request_vote}

-- The state file, if the node has a persister and no fault of the file system lies ahead.
abbrev pub file_of : Option Persister → Option Bytes
file_of none = none
file_of (some p) = elim p.outcomes [ [] ↦ p.state_file | o ∷ rest ↦ none ]

abbrev pub IsHealthy : Option Persister → Type 0
IsHealthy none = ⊥
IsHealthy (some p) = p.outcomes ≡ []

module _ {S : Type 0} where
  -- The file system works, and the state file holds the term, the vote and the log.
  pub record IsSaved (n : RaftNode S) : Type 0 where
    pub healthy : IsHealthy n.persister
    pub on_disk : file_of n.persister ≡ some (serialize_state n.current_term n.voted_for n.log)

  -- A save makes it so.
  saved_persister-IsSaved :
      (o : Option Persister) (n : RaftNode S)
      → IsHealthy o
      → IsHealthy (saved_persister o n)
        × (file_of (saved_persister o n) ≡ some (serialize_state n.current_term n.voted_for n.log))
  unfolding saved_persister save_raft_state
  saved_persister-IsSaved none n h = absurd h
  saved_persister-IsSaved (some p) n h = ground arith

  -- persistState() on a healthy node.
  pub persist_state-IsSaved : (n : RaftNode S) → IsHealthy n.persister → IsSaved (persist_state n)
  persist_state-IsSaved n h =
      let r = saved_persister-IsSaved n.persister n h in record { healthy = r.0; on_disk = r.1 }

  -- Only the persister, the term, the vote and the log matter.
  pub IsSaved-of_eq :
      {n m : RaftNode S}
      → m.persister ≡ n.persister
      → m.current_term ≡ n.current_term
      → m.voted_for ≡ n.voted_for
      → m.log ≡ n.log
      → IsSaved n
      → IsSaved m
  IsSaved-of_eq p t v l s = record {
    healthy = subst IsHealthy (sym p) s.healthy;
    on_disk = rw (p, t, v, l) s.on_disk;
  }

  observe_vote_term-IsSaved : (t : ℤ) (n : RaftNode S) → IsSaved n → IsSaved (observe_vote_term t n)
  unfolding observe_vote_term
  observe_vote_term-IsSaved t n s = elim (Bool-cases (ltb_ℤ n.current_term t)) [
    | inl newer ↦ rw newer (persist_state-IsSaved _ s.healthy)
    | inr old ↦ rw old s
  ]

  pub request_vote-IsSaved :
      (env : Env) (args : RequestVoteArgs) (n : RaftNode S)
      → IsSaved n
      → IsSaved (handle_request_vote env args n).0
  unfolding handle_request_vote
  request_vote-IsSaved env args n s =
      let s' = observe_vote_term-IsSaved args.term n s in
      elim (Bool-cases (ltb_ℤ args.term n.current_term)) [
        | inl stale ↦ rw stale s
        | inr fresh ↦ rw fresh (elim (Bool-cases (can_grant args (observe_vote_term args.term n))) [
          | inl grants ↦ rw grants (persist_state-IsSaved _ s'.healthy)
          | inr refuses ↦ rw refuses s'
        ])
      ]

-- If the loop over the new entries did not raise its flag, it has not changed the log.
merge_one-unmodified :
    (i : ℤ) (e : LogEntry) (acc : List LogEntry × Bool)
    → (merge_one i e acc).1 ≡ false
    → merge_one i e acc ≡ acc
unfolding merge_one
merge_one-unmodified i e (log, m) h = ground arith

merge_entries-unmodified :
    (i : ℤ) (es : List LogEntry) (acc : List LogEntry × Bool)
    → (merge_entries i es acc).1 ≡ false
    → merge_entries i es acc ≡ acc
unfolding merge_entries
merge_entries-unmodified i [] acc h = refl
merge_entries-unmodified i (e ∷ es) acc h =
    let rest = merge_entries-unmodified (suc_ℤ i) es (merge_one i e acc) h in
    rest ∙ merge_one-unmodified i e acc (ap (λ (a : List LogEntry × Bool). a.1) (sym rest) ∙ h)

module _ {S : Type 0} where
  merge_log-IsSaved :
      (args : AppendEntriesArgs) (n : RaftNode S) → IsSaved n → IsSaved (merge_log args n)
  unfolding merge_log
  merge_log-IsSaved args n s =
      let start : ℤ = suc_ℤ args.prev_log_index in
      elim (Bool-cases (merge_entries start args.entries (n.log, false)).1) [
        | inl changed ↦ rw changed (persist_state-IsSaved _ s.healthy)
        | inr same ↦ rw same (
            IsSaved-of_eq refl refl refl
              (ap (λ (a : List LogEntry × Bool). a.0)
                (merge_entries-unmodified start args.entries (n.log, false) same))
              s)
      ]

  pub apply_committed_entries-IsSaved :
      (n : RaftNode S) → IsSaved n → IsSaved (apply_committed_entries n).0
  apply_committed_entries-IsSaved n s =
      let f = apply_committed_entries-SameRaft n in
      IsSaved-of_eq f.persister f.current_term f.voted_for f.log s

  advance_commit-IsSaved : (c : ℤ) (n : RaftNode S) → IsSaved n → IsSaved (advance_commit c n).0
  unfolding advance_commit
  advance_commit-IsSaved c n s = elim (Bool-cases (ltb_ℤ n.commit_index c)) [
    | inl more ↦
        rw more
          (apply_committed_entries-IsSaved _ (record { healthy = s.healthy; on_disk = s.on_disk }))
    | inr done ↦ rw done s
  ]

  take_entries-IsSaved :
      (args : AppendEntriesArgs) (n : RaftNode S) → IsSaved n → IsSaved (take_entries args n).0
  unfolding take_entries
  take_entries-IsSaved args n s =
      let done =
        advance_commit-IsSaved args.leader_commit (merge_log args n) (merge_log-IsSaved args n s) in
      elim (Bool-cases (advance_commit args.leader_commit (merge_log args n)).1) [
        | inl threw ↦ rw threw done
        | inr went ↦ rw went done
      ]

  accept_leader-IsSaved :
      (env : Env) (args : AppendEntriesArgs) (n : RaftNode S)
      → IsSaved n
      → IsSaved (accept_leader env args n)
  unfolding accept_leader
  accept_leader-IsSaved env args n s = elim (Bool-cases (is_follower n.state)) [
    | inl follows ↦ rw follows (persist_state-IsSaved _ s.healthy)
    | inr leads ↦ rw leads (persist_state-IsSaved _ s.healthy)
  ]

  pub append_entries-IsSaved :
      (env : Env) (args : AppendEntriesArgs) (n : RaftNode S)
      → IsSaved n
      → IsSaved (handle_append_entries env args n).0
  unfolding handle_append_entries
  append_entries-IsSaved env args n s = elim (Bool-cases (ltb_ℤ args.term n.current_term)) [
    | inl stale ↦ rw stale s
    | inr fresh ↦ rw fresh (elim (Option-cases (log_conflict args (accept_leader env args n).log)) [
      | inl fits ↦
          rw (fits, handle_append_entries)
            (take_entries-IsSaved args (accept_leader env args n)
              (accept_leader-IsSaved env args n s))
      | inr (c, refused) ↦ rw (refused, handle_append_entries) (accept_leader-IsSaved env args n s)
    ])
  ]
