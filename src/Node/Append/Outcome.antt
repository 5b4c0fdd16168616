-- ===== src/Node/Append/Outcome.antt =====
-- src/raft/raft_node.cpp, handleAppendEntries: when a message is accepted, and what it leaves in
-- the log.
use my_raft_kvdb.Base.{
  ℕ, suc, ◌≤◌, ◌<◌, ◌≡◌, arith, Bool, true, false, ◌||◌, ◌&&◌, Option, none, some, List, ◌++◌,
  if◌then◌else◌, length, take, drop, ltb, ◌==◌, ℤ, pos, ◌==ℤ◌, leb_ℤ,
}
use my_raft_kvdb.Log.{LogEntry, term_at}
use my_raft_kvdb.Messages.{AppendEntriesArgs, AppendEntriesReply}
use my_raft_kvdb.Node.{Env, RaftNode}
use my_raft_kvdb.Node.Append.{
  accept_leader, log_conflict, merge_log, take_entries, handle_append_entries,
}
use my_raft_kvdb.Node.Append.Frame.{log-advance_commit}
use my_raft_kvdb.Node.Append.Merge.{stamps, overlay, merge_entries_lem}

-- The log holds an entry of term `t` at position `p`; the position of the sentinel always matches.
abbrev pub holds_previous : ℕ → ℤ → List LogEntry → Bool
holds_previous p t log = p == 0 || ltb p (length log) && term_at log (pos p) ==ℤ t

-- The log after entries have been laid behind position `p`.
abbrev pub splice : ℕ → List LogEntry → List LogEntry → List LogEntry
splice p es log = take (suc p) log ++ overlay (drop (suc p) log) (stamps (suc p) es)

abbrev pub is_none {ℓ} : {A : Type ℓ} → Option A → Bool
is_none none = true
is_none (some a) = false

log_conflict-none :
    (args : AppendEntriesArgs) (log : List LogEntry) (p : ℕ)
    → args.prev_log_index ≡ pos p
    → is_none (log_conflict args log) ≡ holds_previous p args.prev_log_term log
unfolding log_conflict
log_conflict-none args log p e = rw e (ground arith)

abbrev pub succeeded : Option AppendEntriesReply → Bool
succeeded none = true
succeeded (some r) = r.success

module _ {S : Type 0} where
  log-merge_log :
      (args : AppendEntriesArgs) (n : RaftNode S) (p : ℕ)
      → args.prev_log_index ≡ pos p
      → suc p ≤ length n.log
      → (merge_log args n).log ≡ splice p args.entries n.log
  unfolding merge_log
  log-merge_log args n p e h = ground (arith, merge_entries_lem (suc p) args.entries n.log h)

  log-take_entries :
      (args : AppendEntriesArgs) (n : RaftNode S)
      → (take_entries args n).0.log ≡ (merge_log args n).log
  unfolding take_entries
  log-take_entries args n = ground (arith, log-advance_commit args.leader_commit (merge_log args n))

  -- Is the message of this or a newer term, and does the log hold the entry before the new ones?
  abbrev pub accepts : ℕ → AppendEntriesArgs → RaftNode S → Bool
  accepts p args n = leb_ℤ n.current_term args.term && holds_previous p args.prev_log_term n.log

  -- For a previous index p >= 0 and a log that is not empty: the log after handleAppendEntries is
  -- the old one, unless the message is accepted; then it is the old one up to p, and behind it the
  -- old entries up to the first conflict with the new ones, and the new ones from there on.
  pub log-handle_append_entries :
      (env : Env) (args : AppendEntriesArgs) (n : RaftNode S) (p : ℕ)
      → args.prev_log_index ≡ pos p
      → 0 < length n.log
      → (handle_append_entries env args n).0.log
        ≡ (if accepts p args n then splice p args.entries n.log else n.log)
  unfolding handle_append_entries accept_leader
  log-handle_append_entries env args n p e h = ground (
    arith,
    log_conflict-none args n.log p e,
    log-take_entries args (accept_leader env args n),
    log-merge_log args (accept_leader env args n) p e,
  )

  -- For a previous index p >= 0: a reply reports success exactly where the message is accepted, and
  -- no reply (an exception of the callback) comes only from an accepted one.
  pub succeeded-handle_append_entries :
      (env : Env) (args : AppendEntriesArgs) (n : RaftNode S) (p : ℕ)
      → args.prev_log_index ≡ pos p
      → succeeded (handle_append_entries env args n).1 ≡ accepts p args n
  unfolding handle_append_entries accept_leader take_entries
  succeeded-handle_append_entries env args n p e = ground (arith, log_conflict-none args n.log p e)
