-- ===== src/Node/Submit/Single.antt =====
-- src/raft/raft_node.cpp: a command that a client gives to the only node of a cluster.
use my_raft_kvdb.Base.{
  ℕ, suc, ◌≡◌, refl, ap, Bool, true, false, [], ◌∷◌, ◌++◌, if◌then◌else◌, length, get_or,
  length-append, get_or-append_middle, ℤ, ltb_ℤ, pos, arith,
}
use my_raft_kvdb.Log.{LogEntry, empty_entry}
use my_raft_kvdb.Node.{RaftNode, leader, Answer, returned, thrown}
use my_raft_kvdb.Node.Apply.{
  complete, distance, run_callback, deliver, apply_one, apply_loop, apply_committed_entries,
}
use my_raft_kvdb.Node.Leader.{append_log_entry}
use my_raft_kvdb.Node.Submit.{
  Submitted, answered, raised, submit_append, submit_commit, submit_register, submit_apply,
  submit_finish, submit_rest, submit_command, find_pending,
}
use my_raft_kvdb.Text.{Bytes}

-- What the client gets for an answer of the callback.
abbrev pub submitted : Answer → Submitted
submitted (returned r) = answered r
submitted (thrown _) = raised

module _ {S : Type 0} where
  apply_loop_one :
      (m : RaftNode S) (k : ℕ) (command : Bytes)
      → m.last_applied ≡ pos k
      → m.commit_index ≡ pos (suc k)
      → length m.log ≡ suc (suc k)
      → (get_or m.log (suc k) empty_entry).command ≡ command
      → apply_loop 1 m
        ≡ deliver
            (run_callback m.apply_callback command m.machine)
            (record m { last_applied = pos (suc k) })
  unfolding apply_loop apply_one
  apply_loop_one m k command a c l e = ground arith

  apply_one_round :
      (m : RaftNode S) (k : ℕ) (command : Bytes)
      → m.last_applied ≡ pos k
      → m.commit_index ≡ pos (suc k)
      → length m.log ≡ suc (suc k)
      → (get_or m.log (suc k) empty_entry).command ≡ command
      → apply_committed_entries m
        ≡ deliver
            (run_callback m.apply_callback command m.machine)
            (record m { last_applied = pos (suc k) })
  unfolding apply_committed_entries
  apply_one_round m k command a c l e =
      let d : distance m.last_applied m.commit_index ≡ 1 = ground arith in
      rw d (apply_loop_one m k command a c l e)

  -- The node behind the append.
  abbrev appended : Bytes → ℕ → RaftNode S → RaftNode S
  appended command k n = record n {
    log = n.log ++ record { term = n.current_term; command = command; index = pos (suc k) } ∷ [];
    needs_persist = true;
  }

  -- The node when the callback is called.
  abbrev waiting : Bytes → ℕ → RaftNode S → RaftNode S
  waiting command k n =
      submit_register (pos (suc k)) command
        (record (appended command k n) { commit_index = pos (suc k) })

  -- What is left to do with the callback's answer.
  finish : ℤ → RaftNode S × Bool → RaftNode S × Submitted
  finish index (m, threw) = if threw then (m, raised) else submit_finish index m

  submit_append_lem :
      (command : Bytes) (n : RaftNode S) (k : ℕ)
      → n.state ≡ leader
      → length n.log ≡ suc k
      → submit_append command n ≡ (appended command k n, pos (suc k))
  unfolding submit_append append_log_entry
  submit_append_lem command n k e l = rw (e, l) refl

  submit_rest_lem :
      (command : Bytes) (index : ℤ) (n : RaftNode S)
      → n.peer_ids ≡ []
      → submit_rest command index n
        ≡ finish index (
            apply_committed_entries
              (submit_register index command (record n { commit_index = index })))
  unfolding submit_rest submit_commit submit_apply submit_register finish
  submit_rest_lem command index n p = rw p refl

  submit_command-waiting :
      (command : Bytes) (n : RaftNode S) (k : ℕ)
      → n.state ≡ leader
      → n.peer_ids ≡ []
      → length n.log ≡ suc k
      → submit_command command n
        ≡ finish (pos (suc k)) (apply_committed_entries (waiting command k n))
  unfolding submit_command
  submit_command-waiting command n k e p l =
      let not_negative : ltb_ℤ (pos (suc k)) (pos 0) ≡ false = ground arith in
      rw (submit_append_lem command n k e l)
        (rw not_negative (submit_rest_lem command (pos (suc k)) (appended command k n) p))

  finish-deliver :
      (a : Answer) (s : S) (command : Bytes) (n : RaftNode S) (k : ℕ)
      → let (m, result) =
          finish
            (pos (suc k))
            (deliver (a, s) (record (waiting command k n) { last_applied = pos (suc k) })) in
        (result ≡ submitted a)
        × (m.machine ≡ s)
        × (m.last_applied ≡ pos (suc k))
        × (m.commit_index ≡ pos (suc k))
        × (m.log
            ≡ n.log
              ++ record { term = n.current_term; command = command; index = pos (suc k) } ∷ [])
  unfolding finish deliver submit_finish submit_register find_pending complete
  finish-deliver (returned r) s command n k = ground arith
  finish-deliver (thrown t) s command n k = ground arith

  length-appended :
      (command : Bytes) (n : RaftNode S) (k : ℕ)
      → length n.log ≡ suc k
      → (length (waiting command k n).log ≡ suc (suc k))
        × ((get_or (waiting command k n).log (suc k) empty_entry).command ≡ command)
  unfolding submit_register
  length-appended command n k l = (
    omega (
      arith,
      length-append n.log
          (record { term = n.current_term; command = command; index = pos (suc k) } ∷ []),
    ),
    last_command,
  )
    where
      last_command : (get_or (appended command k n).log (suc k) empty_entry).command ≡ command
      last_command = rw (← l) (ap LogEntry.command (get_or-append_middle n.log [] _ empty_entry))

  -- In a cluster of one whose leader has applied everything in its log, submitCommand without other
  -- calls during it returns what the callback answers to the command, or raises what it throws; the
  -- entry is appended, committed and applied.
  pub submit_command_single :
      (command : Bytes) (n : RaftNode S) (k : ℕ)
      → n.state ≡ leader
      → n.peer_ids ≡ []
      → n.last_applied ≡ pos k
      → length n.log ≡ suc k
      → let (m, result) = submit_command command n in
        let (answer, s) = run_callback n.apply_callback command n.machine in
        (result ≡ submitted answer)
        × (m.machine ≡ s)
        × (m.last_applied ≡ pos (suc k))
        × (m.commit_index ≡ pos (suc k))
        × (m.log
            ≡ n.log
              ++ record { term = n.current_term; command = command; index = pos (suc k) } ∷ [])
  unfolding run_callback submit_register
  submit_command_single command n k e p a l =
      let (l', c) = length-appended command n k l in
      rw (submit_command-waiting command n k e p l) (
        rw (apply_one_round (waiting command k n) k command a refl l' c)
          (finish-deliver _ _ command n k))
