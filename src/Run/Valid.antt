-- ===== src/Run/Valid.antt =====
-- src/raft/raft_node.cpp: what holds of a node's fields after any calls, so that its vectors are read
-- in range: the log is not empty, the indices are not negative, the leader's vectors are as
-- long as peerIds_ and nextIndex_ stays at 1 or above. The entry
-- at position 0 is the sentinel, as long as no message asks for entries from there on.
use my_raft_kvdb.Base.{
  pos_part, ℕ, zero, suc, ◌<◌, ◌≡◌, refl, sym, subst, arith, if◌then◌else◌, true, ◌++◌, Bool, false,
  List, [], ◌∷◌, length, length-append, length-replicate, replicate, take, ℤ, pos, suc_ℤ, ◌≤ℤ◌,
}
use my_raft_kvdb.Log.{LogEntry, last_log_index}
use my_raft_kvdb.Messages.{AppendEntriesArgs, RequestVoteReply, AppendEntriesReply}
use my_raft_kvdb.Node.{
  Env, RaftNode, new_node, sentinel, set_insert, persist_save_part, persist_clear_part,
}
use my_raft_kvdb.Node.Apply.{apply_one, apply_loop, apply_committed_entries, distance}
use my_raft_kvdb.Node.Apply.Frame.{apply_committed_entries-SameRaft}
use my_raft_kvdb.Node.Append.{
  merge_one, merge_entries, merge_log, advance_commit, take_entries, accept_leader,
  handle_append_entries, min_ℤ,
}
use my_raft_kvdb.Node.Append.Outcome.{accepts, splice, log-handle_append_entries}
use my_raft_kvdb.Node.Election.{
  handle_request_vote, start_election, handle_vote_response, count_vote, become_leader,
  become_follower, yield_to_term,
}
use my_raft_kvdb.Node.Leader.{append_log_entry}
use my_raft_kvdb.Node.Leader.Frame.{
  Positive, Replied, yielded, kept, handle_append_entries_response-Replied, update_commit_index_eq,
  update_commit_index-ge, suc-last-pos,
}
use my_raft_kvdb.Run.{
  Event, request_vote, append_entries, election_timeout, vote_response, append_response, step_down,
  client_command, commit_check, apply_entries, heartbeat_sent, persist_save, persist_clear, step,
  run,
}

merge_one-nonempty :
    (i : ℤ) (e : LogEntry) (acc : List LogEntry × Bool)
    → 0 < length acc.0
    → 0 < length (merge_one i e acc).0
unfolding merge_one
merge_one-nonempty i e (log, m) h = ground (
  arith,
  length-append log (record e { index = i } ∷ []),
  length-append (take (pos_part i) log) (record e { index = i } ∷ []),
)

merge_entries-nonempty :
    (es : List LogEntry) (i : ℤ) (acc : List LogEntry × Bool)
    → 0 < length acc.0
    → 0 < length (merge_entries i es acc).0
unfolding merge_entries
merge_entries-nonempty [] i acc h = h
merge_entries-nonempty (e ∷ es) i acc h =
    merge_entries-nonempty es (suc_ℤ i) (merge_one i e acc) (merge_one-nonempty i e acc h)

Positive-replicate : (k : ℕ) (v : ℤ) → pos 1 ≤ℤ v → Positive (replicate k v)
Positive-replicate zero v h = tt
Positive-replicate (suc k) v h = (h, Positive-replicate k v h)

last_log_index-ge : (log : List LogEntry) → 0 < length log → pos 0 ≤ℤ last_log_index log
last_log_index-ge [] h = elim h [ ]
last_log_index-ge (e ∷ log) h = omega arith

-- The first entry of the log is the sentinel of the constructor.
abbrev pub HasSentinel : List LogEntry → Type 0
HasSentinel [] = ⊥
HasSentinel (e ∷ es) = e ≡ sentinel

HasSentinel-nonempty : (log : List LogEntry) → HasSentinel log → 0 < length log
HasSentinel-nonempty [] h = elim h [ ]
HasSentinel-nonempty (e ∷ es) h = omega arith

HasSentinel-append : (log es : List LogEntry) → HasSentinel log → HasSentinel (log ++ es)
HasSentinel-append [] es h = elim h [ ]
HasSentinel-append (e ∷ log) es h = h

HasSentinel-splice :
    (p : ℕ) (es log : List LogEntry) → HasSentinel log → HasSentinel (splice p es log)
HasSentinel-splice p es [] h = elim h [ ]
HasSentinel-splice p es (e ∷ log) h = h

if-HasSentinel :
    (b : Bool) (log log' : List LogEntry)
    → HasSentinel log
    → HasSentinel log'
    → HasSentinel (if b then log else log')
if-HasSentinel true log log' h h' = h
if-HasSentinel false log log' h h' = h'

pos_part-pos : (i : ℤ) → pos 0 ≤ℤ i → pos (pos_part i) ≡ i
pos_part-pos i h = ground arith

-- Every AppendEntries has a previous index of 0 or above.
abbrev pub IsBehind : Event → Type 0
IsBehind (append_entries env args) = pos 0 ≤ℤ args.prev_log_index
IsBehind _ = Unit

abbrev pub AreBehind : List Event → Type 0
AreBehind [] = Unit {0}
AreBehind (e ∷ es) = IsBehind e × AreBehind es

module _ {S : Type 0} where
  pub record IsValid (n : RaftNode S) : Type 0 where
    pub nonempty : 0 < length n.log
    pub committed : pos 0 ≤ℤ n.commit_index
    pub applied : pos 0 ≤ℤ n.last_applied
    pub next_length : length n.next_index ≡ length n.peer_ids
    pub match_length : length n.match_index ≡ length n.peer_ids
    pub next_positive : Positive n.next_index

  apply_one-applied : (n : RaftNode S) → n.last_applied ≤ℤ (apply_one n).0.last_applied
  unfolding apply_one
  apply_one-applied n = ground arith

  apply_loop-applied :
      (fuel : ℕ) (n : RaftNode S) → n.last_applied ≤ℤ (apply_loop fuel n).0.last_applied
  unfolding apply_loop
  apply_loop-applied zero n = omega arith
  apply_loop-applied (suc fuel) n =
      ground (arith, apply_one-applied n, apply_loop-applied fuel (apply_one n).0)

  last_applied-apply_committed_entries :
      (n : RaftNode S) → n.last_applied ≤ℤ (apply_committed_entries n).0.last_applied
  unfolding apply_committed_entries
  last_applied-apply_committed_entries n =
      apply_loop-applied (distance n.last_applied n.commit_index) n

  apply_committed_entries-IsValid :
      (n : RaftNode S) → IsValid n → IsValid (apply_committed_entries n).0
  apply_committed_entries-IsValid n v =
      ground (arith, apply_committed_entries-SameRaft n, last_applied-apply_committed_entries n)

  advance_commit-IsValid : (c : ℤ) (n : RaftNode S) → IsValid n → IsValid (advance_commit c n).0
  unfolding advance_commit
  advance_commit-IsValid c n v = ground (
    arith,
    apply_committed_entries-IsValid (record n { commit_index = min_ℤ c (last_log_index n.log) }),
    last_log_index-ge n.log,
  )

  merge_log-IsValid :
      (args : AppendEntriesArgs) (n : RaftNode S) → IsValid n → IsValid (merge_log args n)
  unfolding merge_log
  merge_log-IsValid args n v = ground (
    arith,
    merge_entries-nonempty args.entries (suc_ℤ args.prev_log_index) (n.log, false) v.nonempty,
  )

  take_entries-IsValid :
      (args : AppendEntriesArgs) (n : RaftNode S) → IsValid n → IsValid (take_entries args n).0
  unfolding take_entries
  take_entries-IsValid args n v = ground (
    arith,
    advance_commit-IsValid args.leader_commit (merge_log args n) (merge_log-IsValid args n v),
  )

  accept_leader-IsValid :
      (env : Env) (args : AppendEntriesArgs) (n : RaftNode S)
      → IsValid n
      → IsValid (accept_leader env args n)
  unfolding accept_leader
  accept_leader-IsValid env args n v = ground arith

  handle_append_entries-IsValid :
      (env : Env) (args : AppendEntriesArgs) (n : RaftNode S)
      → IsValid n
      → IsValid (handle_append_entries env args n).0
  unfolding handle_append_entries
  handle_append_entries-IsValid env args n v = ground (
    arith,
    accept_leader-IsValid env args n,
    take_entries-IsValid args (accept_leader env args n),
  )

  become_leader-IsValid : (env : Env) (n : RaftNode S) → IsValid n → IsValid (become_leader env n)
  unfolding become_leader
  become_leader-IsValid env n v = ground (
    arith,
    length-replicate (length n.peer_ids) (suc_ℤ (last_log_index n.log)),
    length-replicate (length n.peer_ids) (pos 0),
    Positive-replicate (length n.peer_ids) (suc_ℤ (last_log_index n.log))
        (suc-last-pos n.log v.nonempty),
  )

  handle_vote_response-IsValid :
      (env : Env) (id : ℤ) (reply : RequestVoteReply) (n : RaftNode S)
      → IsValid n
      → IsValid (handle_vote_response env id reply n).0
  unfolding handle_vote_response count_vote yield_to_term
  handle_vote_response-IsValid env id reply n v = ground (
    arith,
    become_leader-IsValid env (record n { votes_received = set_insert id n.votes_received }),
  )

  Replied-IsValid :
      {env : Env} {reply : AppendEntriesReply} {n m : RaftNode S}
      → Replied env reply n m
      → IsValid n
      → IsValid m
  unfolding yield_to_term
  Replied-IsValid (yielded h) v = ground arith
  Replied-IsValid (kept c next match a b d e) v = ground (arith, e v.nonempty v.next_positive)

  step-IsValid : (e : Event) (n : RaftNode S) → IsValid n → IsValid (step e n)
  unfolding step
  step-IsValid (request_vote env args) n v = unfold handle_request_vote in ground arith
  step-IsValid (append_entries env args) n v = handle_append_entries-IsValid env args n v
  step-IsValid (election_timeout env) n v = unfold start_election in ground arith
  step-IsValid (vote_response env id reply) n v = handle_vote_response-IsValid env id reply n v
  step-IsValid (append_response env id reply) n v =
      Replied-IsValid (handle_append_entries_response-Replied env id reply n) v
  step-IsValid (step_down env term) n v = unfold become_follower in ground arith
  step-IsValid (client_command command) n v =
      unfold append_log_entry in
      ground (
        arith,
        length-append n.log
            (record { term = n.current_term; command = command; index = pos (length n.log) } ∷ []),
      )
  step-IsValid commit_check n v =
      rw update_commit_index_eq (ground (arith, update_commit_index-ge n))
  step-IsValid apply_entries n v = apply_committed_entries-IsValid n v
  step-IsValid (heartbeat_sent env) n v = ground arith
  step-IsValid persist_save n v = unfold persist_save_part in ground arith
  step-IsValid persist_clear n v = unfold persist_clear_part in ground arith

  abbrev pub IsInOrder : RaftNode S → Type 0
  IsInOrder n = IsValid n × HasSentinel n.log

  handle_append_entries-HasSentinel :
      (env : Env) (args : AppendEntriesArgs) (n : RaftNode S)
      → pos 0 ≤ℤ args.prev_log_index
      → HasSentinel n.log
      → HasSentinel (handle_append_entries env args n).0.log
  handle_append_entries-HasSentinel env args n b h =
      let p = pos_part args.prev_log_index in
      let e : args.prev_log_index ≡ pos p = sym (pos_part-pos args.prev_log_index b) in
      rw (log-handle_append_entries env args n p e (HasSentinel-nonempty n.log h)) (
        if-HasSentinel (accepts p args n) (splice p args.entries n.log) n.log
          (HasSentinel-splice p args.entries n.log h) h)

  Replied-log :
      {env : Env} {reply : AppendEntriesReply} {n m : RaftNode S}
      → Replied env reply n m
      → m.log ≡ n.log
  unfolding yield_to_term
  Replied-log (yielded h) = refl
  Replied-log (kept c next match a b d e) = refl

  step-HasSentinel :
      (e : Event) (n : RaftNode S) → IsBehind e → HasSentinel n.log → HasSentinel (step e n).log
  unfolding step
  step-HasSentinel (request_vote env args) n b h = unfold handle_request_vote in ground arith
  step-HasSentinel (append_entries env args) n b h =
      handle_append_entries-HasSentinel env args n b h
  step-HasSentinel (election_timeout env) n b h = unfold start_election in h
  step-HasSentinel (vote_response env id reply) n b h =
      unfold handle_vote_response count_vote yield_to_term become_leader in ground arith
  step-HasSentinel (append_response env id reply) n b h =
      subst HasSentinel (sym (Replied-log (handle_append_entries_response-Replied env id reply n)))
        h
  step-HasSentinel (step_down env term) n b h = unfold become_follower in ground arith
  step-HasSentinel (client_command command) n b h =
      let new : LogEntry = record {
        term = n.current_term;
        command = command;
        index = pos (length n.log);
      } in
      unfold append_log_entry in ground (arith, HasSentinel-append n.log (new ∷ []) h)
  step-HasSentinel commit_check n b h = rw update_commit_index_eq h
  step-HasSentinel apply_entries n b h =
      subst HasSentinel (sym (apply_committed_entries-SameRaft n).log) h
  step-HasSentinel (heartbeat_sent env) n b h = h
  step-HasSentinel persist_save n b h = unfold persist_save_part in ground arith
  step-HasSentinel persist_clear n b h = unfold persist_clear_part in h

  -- After any calls, in any order, of which no AppendEntries has a negative prevLogIndex, on a node
  -- whose fields are in order, they are in order: the log begins with the constructor's sentinel,
  -- commitIndex_ and lastApplied_ are not negative, nextIndex_ and matchIndex_ have one element for
  -- each peer, and no element of nextIndex_ is below 1.
  pub run-IsValid :
      (es : List Event) (n : RaftNode S) → AreBehind es → IsInOrder n → IsInOrder (run es n)
  unfolding run
  run-IsValid [] n b v = v
  run-IsValid (e ∷ es) n b v =
      run-IsValid es (step e n) b.1 (step-IsValid e n v.0, step-HasSentinel e n b.0 v.1)

  -- The constructor puts the fields in order.
  pub new_node-IsValid :
      (env : Env) (id : ℤ) (peers : List ℤ) (s : S) → IsInOrder (new_node env id peers s)
  unfolding new_node
  new_node-IsValid env id peers s = (
    ground (
      arith,
      length-replicate (length peers) (pos 1),
      length-replicate (length peers) (pos 0),
      Positive-replicate (length peers) (pos 1),
    ),
    refl,
  )
