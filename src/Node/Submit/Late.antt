-- ===== src/Node/Submit/Late.antt =====
-- src/raft/raft_node.cpp: a command that the apply loop reaches before submitCommand registers it.
use my_raft_kvdb.Base.{
  ℕ, zero, suc, ◌≤◌, ◌<◌, ◌≡◌, refl, Bool, true, false, some, List, [], ◌∷◌, pos, arith, length,
  ltb_ℤ, if◌then◌else◌,
}
use my_raft_kvdb.Log.{entry_at}
use my_raft_kvdb.Node.{RaftNode, PendingCommand, Answer, returned, thrown}
use my_raft_kvdb.Node.Apply.{
  complete, run_callback, deliver, apply_one, apply_loop, apply_committed_entries,
}
use my_raft_kvdb.Node.Submit.{gave_up, find_pending, submit_register, submit_finish}
use my_raft_kvdb.Text.{Bytes}

-- Completing a command leaves those at other indices.
find_pending-complete :
    (i j : ℕ) (r : Bytes) (cs : List PendingCommand)
    → i < j
    → find_pending (pos i) (complete (pos j) r cs) ≡ find_pending (pos i) cs
unfolding find_pending complete
find_pending-complete i j r [] h = refl
find_pending-complete i j r (c ∷ cs) h = ground (arith, find_pending-complete i j r cs h)

if_keep : {A : Type 0} (P : A → Type 0) (b : Bool) (x y : A) → P x → P y → P (if b then x else y)
if_keep P true x y p q = p
if_keep P false x y p q = q

module _ {S : Type 0} where
  -- A node that has applied the entry at `i`, where a command waits that nothing has completed.
  record IsLate (i : ℕ) (c : PendingCommand) (n : RaftNode S) : Type 0 where
    applied : ℕ
    applied_eq : n.last_applied ≡ pos applied
    past : i ≤ applied
    waits : find_pending (pos i) n.pending_commands ≡ some c

  -- The same of what a round of the loop gives.
  record LeavesLate (i : ℕ) (c : PendingCommand) (r : RaftNode S × Bool) : Type 0 where
    node_IsLate : IsLate i c r.0

  deliver-IsLate :
      (i a : ℕ) (c : PendingCommand) (n : RaftNode S) (answer : Answer × S)
      → i < a
      → n.last_applied ≡ pos a
      → find_pending (pos i) n.pending_commands ≡ some c
      → IsLate i c (deliver answer n).0
  unfolding deliver
  deliver-IsLate i a c n (returned r, s) h e w = record {
    applied = a;
    applied_eq = e;
    past = omega arith;
    waits = rw e (rw (find_pending-complete i a r n.pending_commands h) w);
  }
  deliver-IsLate i a c n (thrown t, s) h e w = record {
    applied = a;
    applied_eq = e;
    past = omega arith;
    waits = w;
  }

  registered :
      (command : Bytes) (i a : ℕ) (n : RaftNode S)
      → n.last_applied ≡ pos a
      → i ≤ a
      → IsLate i
          (record { log_index = pos i; command = command; result = []; completed = false })
          (submit_register (pos i) command n)
  unfolding submit_register find_pending
  registered command i a n e h = record {
    applied = a;
    applied_eq = e;
    past = h;
    waits = ground arith;
  }

  finish_late :
      (i : ℕ) (c : PendingCommand) (n : RaftNode S)
      → find_pending (pos i) n.pending_commands ≡ some c
      → c.completed ≡ false
      → (submit_finish (pos i) n).1 ≡ gave_up
  unfolding submit_finish
  finish_late i c n w h = rw (w, submit_finish) (rw h refl)

  apply_one-IsLate :
      (i : ℕ) (c : PendingCommand) (n : RaftNode S) → IsLate i c n → LeavesLate i c (apply_one n)
  unfolding apply_one
  apply_one-IsLate i c n l =
      let m = record n { last_applied = pos (suc l.applied) } in
      let answer =
        run_callback n.apply_callback (entry_at n.log (pos (suc l.applied))).command n.machine in
      let delivered : LeavesLate i c (deliver answer m) = record {
        node_IsLate =
            deliver-IsLate i (suc l.applied) c m answer (omega (arith, l.past)) refl l.waits;
      } in
      let skipped : LeavesLate i c (m, false) = record {
        node_IsLate = record {
          applied = suc l.applied;
          applied_eq = refl;
          past = omega (arith, l.past);
          waits = l.waits;
        };
      } in
      rw (l.applied_eq, apply_one)
        (if_keep (LeavesLate i c) (ltb_ℤ (pos (suc l.applied)) (pos (length n.log)))
          (deliver answer m) (m, false) delivered skipped)

  apply_loop-IsLate :
      (fuel i : ℕ) (c : PendingCommand) (n : RaftNode S)
      → IsLate i c n
      → LeavesLate i c (apply_loop fuel n)
  unfolding apply_loop
  apply_loop-IsLate zero i c n l = record { node_IsLate = l }
  apply_loop-IsLate (suc fuel) i c n l =
      let (n', threw) = apply_one n in
      let first = apply_one-IsLate i c n l in
      let stopped : LeavesLate i c (n', true) = record { node_IsLate = first.node_IsLate } in
      let rest = apply_loop-IsLate fuel i c n' first.node_IsLate in
      if_keep (LeavesLate i c) (ltb_ℤ n.last_applied n.commit_index)
        (if threw then (n', true) else apply_loop fuel n') (n, false)
        (if_keep (LeavesLate i c) threw (n', true) (apply_loop fuel n') stopped rest)
        (record { node_IsLate = l })

  late :
      (command : Bytes) (i a : ℕ) (n : RaftNode S)
      → n.last_applied ≡ pos a
      → i ≤ a
      → IsLate i
          (record { log_index = pos i; command = command; result = []; completed = false })
          (apply_committed_entries (submit_register (pos i) command n)).0
  unfolding apply_committed_entries
  late command i a n e h =
      (apply_loop-IsLate _ i _ (submit_register (pos i) command n)
        (registered command i a n e h)).node_IsLate

  -- Where a command is registered at an index that the apply loop has already reached, and the node
  -- then applies what is committed, submitCommand finds it not completed and gives up.
  pub late_command_gives_up :
      (command : Bytes) (i a : ℕ) (n : RaftNode S)
      → n.last_applied ≡ pos a
      → i ≤ a
      → (submit_finish (pos i) (apply_committed_entries (submit_register (pos i) command n)).0).1
        ≡ gave_up
  late_command_gives_up command i a n e h = finish_late i _ _ (late command i a n e h).waits refl
