-- ===== src/Node/Leader.antt =====
-- src/raft/raft_node.cpp: what a leader does. New entries, the arguments of AppendEntries, the
-- replies to it, and the commit index.
pub mod Frame
pub mod Commit
pub mod Stale
use my_raft_kvdb.Base.{
  ℕ, zero, suc, Bool, true, false, ◌&&◌, ◌||◌, not, Option, none, some, List, [], ◌∷◌, ◌++◌, leb,
  if◌then◌else◌, length, get_or, set, drop, ℤ, pos, minus_one, suc_ℤ, pred_ℤ, pos_part, ◌==ℤ◌,
  ltb_ℤ, leb_ℤ,
}
use my_raft_kvdb.Log.{LogEntry, term_at, last_log_index}
use my_raft_kvdb.Messages.{AppendEntriesArgs, AppendEntriesReply}
use my_raft_kvdb.Text.{Bytes}
use my_raft_kvdb.Node.{Env, RaftNode, is_leader, majority}
use my_raft_kvdb.Node.Apply.{distance}
use my_raft_kvdb.Node.Election.{yield_to_term}

-- The position of a node in peerIds_: the first loop of handleAppendEntriesResponse.
unfoldable pub peer_position : ℤ → List ℤ → Option ℕ
peer_position id [] = none
peer_position id (p ∷ rest) =
    let later = peer_position id rest in
    if p ==ℤ id then some 0 else elim later [ none ↦ none | some i ↦ some (suc i) ]

-- The last position >= 1 with an entry of the term; -1 if there is none.
unfoldable pub last_index_of_term : List LogEntry → ℤ → ℕ → ℤ
last_index_of_term log term zero = minus_one
last_index_of_term log term (suc i) =
    if term_at log (pos (suc i)) ==ℤ term then pos (suc i) else last_index_of_term log term i

-- The matches that reach `index`: the inner loop of updateCommitIndex, without the leader itself.
unfoldable pub count_matches : ℤ → List ℤ → ℕ
count_matches index [] = 0
count_matches index (m ∷ rest) =
    if leb_ℤ index m then suc (count_matches index rest) else count_matches index rest

-- Where to go on with a peer that refused: the branch on a failed reply.
unfoldable pub backtrack : AppendEntriesReply → List LogEntry → ℤ
unfolding last_index_of_term
backtrack reply log =
    let found = last_index_of_term log reply.conflict_term (pos_part (last_log_index log)) in
    let next =
      if reply.conflict_term ==ℤ minus_one
      then reply.conflict_index
      else if not (found ==ℤ minus_one)
      then suc_ℤ found
      else reply.conflict_index in
    if ltb_ℤ next (pos 1) then pos 1 else next

-- AppendEntriesArgs()
abbrev pub empty_args : AppendEntriesArgs
empty_args = record {
  term = pos 0;
  leader_id = pos 0;
  prev_log_index = pos 0;
  prev_log_term = pos 0;
  entries = [];
  leader_commit = pos 0;
}

-- The entries from a position on. A negative position is undefined in C++; here it sends all.
abbrev pub entries_from : ℤ → List LogEntry → List LogEntry
entries_from i log = drop (pos_part i) log

module _ {S : Type 0} where
  -- The two tests of a round of updateCommitIndex.
  unfoldable pub can_commit : ℤ → RaftNode S → Bool
  unfolding count_matches
  can_commit index n =
      term_at n.log index ==ℤ n.current_term
      && leb (majority n.peer_ids) (suc (count_matches index n.match_index))

  -- The outer loop: from `index` down, while it is above commitIndex_.
  unfoldable pub commit_loop : ℕ → ℤ → RaftNode S → RaftNode S
  unfolding can_commit
  commit_loop zero index n = n
  commit_loop (suc fuel) index n =
      let rest = commit_loop fuel (pred_ℤ index) n in
      if ltb_ℤ n.commit_index index
      then (if can_commit index n then record n { commit_index = index } else rest)
      else n

  unfoldable pub update_commit_index : RaftNode S → RaftNode S
  update_commit_index n =
      if not (is_leader n.state)
      then n
      else commit_loop (distance n.commit_index (last_log_index n.log)) (last_log_index n.log) n

  -- The reply of the peer at a known position of peerIds_.
  unfoldable pub peer_replied : Env → ℕ → AppendEntriesReply → RaftNode S → RaftNode S × Bool
  peer_replied env i reply n =
      if ltb_ℤ n.current_term reply.term
      then (yield_to_term env reply.term n, false)
      else if reply.success
      then (
        update_commit_index (record n {
          match_index = set n.match_index i (last_log_index n.log);
          next_index = set n.next_index i (suc_ℤ (last_log_index n.log));
        }),
        true,
      )
      else (record n { next_index = set n.next_index i (backtrack reply n.log) }, false)

  unfoldable pub handle_append_entries_response :
      Env → ℤ → AppendEntriesReply → RaftNode S → RaftNode S × Bool
  handle_append_entries_response env id reply n =
      if not (is_leader n.state) then (n, false) else elim (peer_position id n.peer_ids) [
        | none ↦ (n, false)
        | some i ↦ peer_replied env i reply n
      ]

  -- The new index, or -1 where the node is not the leader.
  unfoldable pub append_log_entry : Bytes → RaftNode S → RaftNode S × ℤ
  append_log_entry command n = if not (is_leader n.state) then (n, minus_one) else (
    record n {
      log =
          n.log
          ++ record { term = n.current_term; command = command; index = pos (length n.log) } ∷ [];
      needs_persist = true;
    },
    pos (length n.log),
  )

  -- createAppendEntriesArgs
  unfoldable pub create_append_entries_args : ℕ → RaftNode S → AppendEntriesArgs
  create_append_entries_args i n =
      let next = get_or n.next_index i (pos 0) in
      let prev = pred_ℤ next in
      if not (is_leader n.state) || leb (length n.peer_ids) i then empty_args else record {
        term = n.current_term;
        leader_id = n.node_id;
        prev_log_index = prev;
        prev_log_term =
            (if ltb_ℤ (pos 0) prev && ltb_ℤ prev (pos (length n.log))
              then term_at n.log prev
              else pos 0);
        entries = entries_from next n.log;
        leader_commit = n.commit_index;
      }
