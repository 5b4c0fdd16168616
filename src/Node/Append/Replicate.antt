-- ===== src/Node/Append/Replicate.antt =====
-- src/raft/raft_node.cpp: createAppendEntriesArgs on a leader and handleAppendEntries on a follower,
-- together: replicated logs, and messages that arrive twice.
use Prim.Native.Nat.add
use my_raft_kvdb.Base.{
  ℕ, zero, suc, ◌+◌, ◌≤◌, ◌<◌, ◌≡◌, refl, ap, arith, true, List, [], ◌∷◌, ◌++◌, if◌then◌else◌,
  length, take, drop, get_or, ltb, pos, ==ℤ_iff, ◌≤ℤ◌, take_all, take-append_left, drop-append_left,
  length-take, length-append, take-append-drop, get_or-take, subst,
}
use my_raft_kvdb.Log.{LogEntry, term_at, empty_entry}
use my_raft_kvdb.Messages.{AppendEntriesArgs}
use my_raft_kvdb.Node.{leader, Env, RaftNode}
use my_raft_kvdb.Node.Append.{handle_append_entries}
use my_raft_kvdb.Node.Append.Frame.{handle_append_entries-current_term}
use my_raft_kvdb.Node.Append.Merge.{stamps, overlay}
use my_raft_kvdb.Node.Append.Outcome.{
  splice, accepts, succeeded, log-handle_append_entries, succeeded-handle_append_entries,
}
use my_raft_kvdb.Node.Leader.{create_append_entries_args}

overlay_self : (es : List LogEntry) → overlay es es ≡ es
overlay_self [] = refl
overlay_self (e ∷ es) = ground (arith, overlay_self es)

-- Laying the same entries twice is laying them once.
overlay_twice : (rest es : List LogEntry) → overlay (overlay rest es) es ≡ overlay rest es
overlay_twice rest [] = refl
overlay_twice [] (e ∷ es) = overlay_self (e ∷ es)
overlay_twice (r ∷ rest) (e ∷ es) = ground (arith, overlay_twice rest es, overlay_self es)

splice-splice :
    (p : ℕ) (es log : List LogEntry)
    → suc p ≤ length log
    → splice p es (splice p es log) ≡ splice p es log
splice-splice p es log h =
    let kept : List LogEntry = take (suc p) log in
    let added : List LogEntry = overlay (drop (suc p) log) (stamps (suc p) es) in
    ground (
      arith,
      length-take (suc p) log,
      take-append_left kept added,
      drop-append_left kept added,
      overlay_twice (drop (suc p) log) (stamps (suc p) es),
    )

module _ {S : Type 0} where
  -- An accepted or refused AppendEntries that is delivered again, with nothing between, leaves the
  -- log as the first delivery left it.
  log-twice :
      (first second : Env) (args : AppendEntriesArgs) (n : RaftNode S) (p : ℕ)
      → args.prev_log_index ≡ pos p
      → 0 < length n.log
      → (handle_append_entries second args (handle_append_entries first args n).0).0.log
        ≡ (handle_append_entries first args n).0.log
  log-twice first second args n p e h =
      let m : RaftNode S = (handle_append_entries first args n).0 in
      ground (
        arith,
        log-handle_append_entries first args n p e h,
        log-handle_append_entries second args m p e,
        handle_append_entries-current_term first args n,
        splice-splice p args.entries n.log,
      )

-- Where two logs hold entries of one term at one position, they hold the same entry.
abbrev pub Agree : List LogEntry → List LogEntry → Type 0
Agree [] es = Unit {0}
Agree (r ∷ rest) [] = Unit {0}
Agree (r ∷ rest) (e ∷ es) = (r.term ≡ e.term → r ≡ e) × Agree rest es

-- Every entry carries its position as its index.
abbrev pub IsIndexed : ℕ → List LogEntry → Type 0
IsIndexed p [] = Unit {0}
IsIndexed p (e ∷ es) = (e.index ≡ pos p) × IsIndexed (suc p) es

stamps-IsIndexed : (p : ℕ) (es : List LogEntry) → IsIndexed p es → stamps p es ≡ es
stamps-IsIndexed p [] h = refl
stamps-IsIndexed p (e ∷ es) h = ground (arith, stamps-IsIndexed (suc p) es h.1)

drop-IsIndexed : (k p : ℕ) (es : List LogEntry) → IsIndexed p es → IsIndexed (k + p) (drop k es)
drop-IsIndexed zero p es h = rw add.zero h
drop-IsIndexed (suc k) p [] h = tt
drop-IsIndexed (suc k) p (e ∷ es) h =
    subst (λ q. IsIndexed q (drop k es)) (omega arith) (drop-IsIndexed k (suc p) es h.1)

take-overlay : (rest es : List LogEntry) → Agree rest es → take (length es) (overlay rest es) ≡ es
take-overlay rest [] h = refl
take-overlay [] (e ∷ es) h = take_all (length (e ∷ es)) (e ∷ es) (omega arith)
take-overlay (r ∷ rest) (e ∷ es) h =
    ground (arith, take-overlay rest es h.1, take_all (length es) es, ==ℤ_iff r.term e.term)

take-append_more :
    (k : ℕ) (xs ys : List LogEntry) → take (length xs + k) (xs ++ ys) ≡ xs ++ take k ys
take-append_more k [] ys = rw add.zero
take-append_more k (x ∷ xs) ys = rw add.suc (ap (◌∷◌ x) (take-append_more k xs ys))

-- If follower and leader have the log up to p in common, laying the rest of the leader's log behind
-- p gives the follower the whole of the leader's log.
splice-take :
    (p : ℕ) (log of_leader : List LogEntry)
    → p < length of_leader
    → take (suc p) log ≡ take (suc p) of_leader
    → Agree (drop (suc p) log) (drop (suc p) of_leader)
    → IsIndexed 0 of_leader
    → take (length of_leader) (splice p (drop (suc p) of_leader) log) ≡ of_leader
splice-take p log of_leader h same agree indexed =
    let new : List LogEntry = drop (suc p) of_leader in
    let kept : List LogEntry = take (suc p) of_leader in
    ground (
      arith,
      stamps-IsIndexed (suc p) new
          (subst (λ q. IsIndexed q new) (omega arith) (drop-IsIndexed (suc p) 0 of_leader indexed)),
      take-overlay (drop (suc p) log) new agree,
      take-append-drop (suc p) of_leader,
      length-append kept new,
      take-append_more (length new) kept (overlay (drop (suc p) log) new),
    )

-- A common log up to p has a common entry at p.
same_entry :
    (p : ℕ) (log of_leader : List LogEntry)
    → p < length of_leader
    → take (suc p) log ≡ take (suc p) of_leader
    → (p < length log) × (get_or log p empty_entry ≡ get_or of_leader p empty_entry)
same_entry p log of_leader h same = (
  omega (arith, ap length same, length-take (suc p) log, length-take (suc p) of_leader),
  ground
      (arith, get_or-take (suc p) log p empty_entry, get_or-take (suc p) of_leader p empty_entry),
)

module _ {S : Type 0} where
  -- What a leader sends to a peer whose nextIndex is p + 1.
  create_append_entries_args_lem :
      (i p : ℕ) (l : RaftNode S)
      → l.state ≡ leader
      → i < length l.peer_ids
      → get_or l.next_index i (pos 0) ≡ pos (suc p)
      → p < length l.log
      → create_append_entries_args i l ≡ record {
        term = l.current_term;
        leader_id = l.node_id;
        prev_log_index = pos p;
        prev_log_term = if ltb 0 p then term_at l.log (pos p) else pos 0;
        entries = drop (suc p) l.log;
        leader_commit = l.commit_index;
      }
  unfolding create_append_entries_args
  create_append_entries_args_lem i p l leads known next short = rw (leads, next) (ground arith)

  -- A leader whose entries carry their positions sends to a peer the entries from its nextIndex p +
  -- 1 on. A node of the same or an older term that has the leader's log up to p, and in whose log
  -- behind p entries of equal terms are equal, accepts them, and its log then begins with the
  -- leader's whole log.
  pub replicate_log :
      (env : Env) (i p : ℕ) (l n : RaftNode S)
      → l.state ≡ leader
      → i < length l.peer_ids
      → get_or l.next_index i (pos 0) ≡ pos (suc p)
      → p < length l.log
      → IsIndexed 0 l.log
      → n.current_term ≤ℤ l.current_term
      → take (suc p) n.log ≡ take (suc p) l.log
      → Agree (drop (suc p) n.log) (drop (suc p) l.log)
      → (succeeded (handle_append_entries env (create_append_entries_args i l) n).1 ≡ true)
        × (take (length l.log) (handle_append_entries env (create_append_entries_args i l) n).0.log
            ≡ l.log)
  replicate_log env i p l n leads known next short indexed term same agree =
      let args : AppendEntriesArgs = create_append_entries_args i l in
      let (inside, entry) = same_entry p n.log l.log short same in
      let sent = create_append_entries_args_lem i p l leads known next short in
      let accepted : accepts p args n ≡ true = rw sent (ground (arith, entry, inside)) in
      (
        ground (
          arith,
          sent,
          accepted,
          succeeded-handle_append_entries env args n p
              (ap (λ (a : AppendEntriesArgs). a.prev_log_index) sent),
        ),
        ground (
          arith,
          sent,
          accepted,
          log-handle_append_entries env args n p
              (ap (λ (a : AppendEntriesArgs). a.prev_log_index) sent) (omega arith),
          splice-take p n.log l.log short same agree indexed,
        ),
      )
