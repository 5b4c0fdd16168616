-- ===== src/Node/Append/Conflict.antt =====
-- src/raft/raft_node.cpp, handleAppendEntries: the replies of a refusal.
use my_raft_kvdb.Base.{
  ℕ, zero, suc, ◌≤◌, ◌-◌, ap, sym, subst, if◌then◌else◌, ◌∙◌, ◌==ℤ◌, inl, inr, Bool-cases, ◌<◌, ◌≡◌,
  ◌≢◌, refl, ◌⊎◌, arith, false, true, none, some, ltb_ℤ, ◌<ℤ◌, ◌≤ℤ◌, Option-cases, List, length, ℤ,
  pos, minus_one, ==ℤ_iff,
}
use native.Mathlib.Decide.{dec_le}
use mathlib.Core.Option.{some-injective}
use my_raft_kvdb.Log.{LogEntry, term_at}
use my_raft_kvdb.Messages.{AppendEntriesArgs, AppendEntriesReply}
use my_raft_kvdb.Node.Append.Outcome.{succeeded}
use my_raft_kvdb.Node.{Env, RaftNode}
use my_raft_kvdb.Node.Append.{
  conflict_start, log_conflict, accept_leader, take_entries, handle_append_entries,
}

-- `c` is the first position, from 1 on, of the run of entries of term `t` that ends at `p`.
pub record IsRunStart (log : List LogEntry) (t : ℤ) (c p : ℕ) : Type 0 where
  pub positive : 0 < c
  pub below : c ≤ p
  pub in_run : (j : ℕ) → c ≤ j → j ≤ p → term_at log (pos j) ≡ t
  pub first : (c ≡ 1) ⊎ (term_at log (pos (c - 1)) ≢ t)

-- A position next to a run, and of the same term, extends it.
IsRunStart-suc :
    (log : List LogEntry) (t : ℤ) (c p : ℕ)
    → IsRunStart log t c p
    → term_at log (pos (suc p)) ≡ t
    → IsRunStart log t c (suc p)
IsRunStart-suc log t c p r e = record {
  positive = r.positive;
  below = omega (arith, r.below);
  in_run = λ j above upto. elim (dec_le j p) [
    | yes inside ↦ r.in_run j above inside
    | no outside ↦ ap (λ k. term_at log (pos k)) (omega arith) ∙ e
  ];
  first = r.first;
}

IsRunStart-self :
    (log : List LogEntry) (t : ℤ) (p : ℕ)
    → 0 < p
    → term_at log (pos p) ≡ t
    → (p ≡ 1) ⊎ (term_at log (pos (p - 1)) ≢ t)
    → IsRunStart log t p p
IsRunStart-self log t p h e first = record {
  positive = h;
  below = omega arith;
  in_run = λ j above upto. ap (λ k. term_at log (pos k)) (omega arith) ∙ e;
  first = first;
}

conflict_start-one : (log : List LogEntry) (t : ℤ) → conflict_start log t 1 ≡ 1
unfolding conflict_start
conflict_start-one log t = ground arith

conflict_start-suc :
    (log : List LogEntry) (t : ℤ) (p : ℕ)
    → conflict_start log t (suc (suc p))
      ≡ (if term_at log (pos (suc p)) ==ℤ t then conflict_start log t (suc p) else suc (suc p))
unfolding conflict_start
conflict_start-suc log t p = ground arith

conflict_start_lem :
    (log : List LogEntry) (t : ℤ) (p : ℕ)
    → term_at log (pos (suc p)) ≡ t
    → IsRunStart log t (conflict_start log t (suc p)) (suc p)
conflict_start_lem log t zero e =
    rw conflict_start-one (IsRunStart-self log t 1 (omega arith) e (inl refl))
conflict_start_lem log t (suc p) e = elim (Bool-cases (term_at log (pos (suc p)) ==ℤ t)) [
  | inl more ↦
      rw (conflict_start-suc, more)
        (IsRunStart-suc log t (conflict_start log t (suc p)) (suc p)
          (conflict_start_lem log t p ((==ℤ_iff (term_at log (pos (suc p))) t).0 more)) e)
  | inr done ↦
      rw (conflict_start-suc, done)
        (IsRunStart-self log t (suc (suc p)) (omega arith) e (inr (ends done)))
]
  where
    ends : (term_at log (pos (suc p)) ==ℤ t) ≡ false → term_at log (pos (suc (suc p) - 1)) ≢ t
    ends done same = ground (arith, ==ℤ_iff (term_at log (pos (suc p))) t)

log_conflict_lem :
    (args : AppendEntriesArgs) (log : List LogEntry) (p : ℕ) (index term : ℤ)
    → args.prev_log_index ≡ pos (suc p)
    → log_conflict args log ≡ some (index, term)
    → ((length log ≤ suc p) × (index ≡ pos (length log)) × (term ≡ minus_one))
      ⊎ ((suc p < length log)
          × (term ≡ term_at log (pos (suc p)))
          × (term ≢ args.prev_log_term)
          × (c : ℕ) × (index ≡ pos c)
          × IsRunStart log term c (suc p))
unfolding log_conflict
log_conflict_lem args log p index term prev h = elim (dec_le (length log) (suc p)) [
  | yes short ↦ inl (ground arith)
  | no long ↦
      let found : ℤ = term_at log (pos (suc p)) in
      let run : IsRunStart log found (conflict_start log found (suc p)) (suc p) =
        conflict_start_lem log found p refl in
      let same : term ≡ found = ground arith in
      inr (
        omega arith,
        same,
        ground (arith, ==ℤ_iff found args.prev_log_term),
        conflict_start log found (suc p),
        ground arith,
        subst (λ t. IsRunStart log t (conflict_start log found (suc p)) (suc p)) (sym same) run,
      )
]

module _ {S : Type 0} where
  log-accept_leader :
      (env : Env) (args : AppendEntriesArgs) (n : RaftNode S)
      → (accept_leader env args n).log ≡ n.log
  unfolding accept_leader
  log-accept_leader env args n = ground arith

  current_term-accept_leader :
      (env : Env) (args : AppendEntriesArgs) (n : RaftNode S)
      → (accept_leader env args n).current_term ≡ args.term
  unfolding accept_leader
  current_term-accept_leader env args n = ground arith

  reply_to_old :
      (env : Env) (args : AppendEntriesArgs) (n : RaftNode S)
      → ltb_ℤ args.term n.current_term ≡ true
      → (handle_append_entries env args n).1
        ≡ some (record {
          term = n.current_term;
          success = false;
          conflict_index = minus_one;
          conflict_term = minus_one;
        })
  unfolding handle_append_entries
  reply_to_old env args n h = rw h refl

  reply_to_conflict :
      (env : Env) (args : AppendEntriesArgs) (n : RaftNode S) (index term : ℤ)
      → ltb_ℤ args.term n.current_term ≡ false
      → log_conflict args n.log ≡ some (index, term)
      → (handle_append_entries env args n).1
        ≡ some (record {
          term = args.term;
          success = false;
          conflict_index = index;
          conflict_term = term;
        })
  unfolding handle_append_entries
  reply_to_conflict env args n index term h c =
      let there : log_conflict args (accept_leader env args n).log ≡ some (index, term) =
        ap (log_conflict args) (log-accept_leader env args n) ∙ c in
      rw h (rw there (rw current_term-accept_leader refl))

  succeeded-take_entries :
      (args : AppendEntriesArgs) (n : RaftNode S) → succeeded (take_entries args n).1 ≡ true
  unfolding take_entries
  succeeded-take_entries args n = ground arith

  reply_to_match :
      (env : Env) (args : AppendEntriesArgs) (n : RaftNode S)
      → ltb_ℤ args.term n.current_term ≡ false
      → log_conflict args n.log ≡ none
      → succeeded (handle_append_entries env args n).1 ≡ true
  unfolding handle_append_entries
  reply_to_match env args n h c =
      let there : log_conflict args (accept_leader env args n).log ≡ none =
        ap (log_conflict args) (log-accept_leader env args n) ∙ c in
      rw h (rw there (succeeded-take_entries args (accept_leader env args n)))

  -- The three refusals, for a previous index p + 1: of an old term, of a log that is too short, and of
  -- an entry of another term at p + 1.
  abbrev pub Refused : AppendEntriesArgs → RaftNode S → ℕ → AppendEntriesReply → Type 0
  Refused args n p reply =
      ((args.term <ℤ n.current_term)
        × (reply.term ≡ n.current_term)
        × (reply.conflict_index ≡ minus_one)
        × (reply.conflict_term ≡ minus_one))
      ⊎ ((n.current_term ≤ℤ args.term)
          × (reply.term ≡ args.term)
          × (length n.log ≤ suc p)
          × (reply.conflict_index ≡ pos (length n.log))
          × (reply.conflict_term ≡ minus_one))
      ⊎ ((n.current_term ≤ℤ args.term)
          × (reply.term ≡ args.term)
          × (suc p < length n.log)
          × (reply.conflict_term ≡ term_at n.log (pos (suc p)))
          × (reply.conflict_term ≢ args.prev_log_term)
          × (c : ℕ) × (reply.conflict_index ≡ pos c)
          × IsRunStart n.log reply.conflict_term c (suc p))

  -- For a previous index p + 1 > 0, a reply of handleAppendEntries without success is one of three:
  -- to a message of an older term it names the node's term and -1 twice; otherwise it names the
  -- message's term, and for a log that ends before p + 1 the log's size and the term -1, or for an
  -- entry at p + 1 that is not of the leader's term the term of that entry, with the first
  -- position, from 1 on, of the run of entries of this term that ends at p + 1.
  pub Refused-handle_append_entries :
      (env : Env) (args : AppendEntriesArgs) (n : RaftNode S) (p : ℕ) (reply : AppendEntriesReply)
      → args.prev_log_index ≡ pos (suc p)
      → (handle_append_entries env args n).1 ≡ some reply
      → reply.success ≡ false
      → Refused args n p reply
  Refused-handle_append_entries env args n p reply prev e failed =
      elim (Bool-cases (ltb_ℤ args.term n.current_term)) [
        | inl old ↦
            subst (Refused args n p) (some-injective _ _ (sym (reply_to_old env args n old) ∙ e))
              (inl (ground arith, refl, refl, refl))
        | inr h ↦ elim (Option-cases (log_conflict args n.log)) [
          | inl c ↦
              let good : reply.success ≡ true =
                sym (ap succeeded e) ∙ reply_to_match env args n h c in
              let bad : true ≡ false = sym good ∙ failed in
              let never : ⊥ = ground arith in elim never [ ]
          | inr ((index, term), c) ↦
              let newer : n.current_term ≤ℤ args.term = ground arith in
              subst (Refused args n p)
                (some-injective _ _ (sym (reply_to_conflict env args n index term h c) ∙ e))
                (elim (log_conflict_lem args n.log p index term prev c) [
                  | inl (short, i, t) ↦ inr (inl (newer, refl, short, i, t))
                  | inr (long, same, other, start, at, run) ↦
                      inr (inr (newer, refl, long, same, other, start, at, run))
                ])
        ]
      ]
