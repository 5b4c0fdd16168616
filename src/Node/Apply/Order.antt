-- ===== src/Node/Apply/Order.antt =====
-- src/raft/raft_node.cpp, applyCommittedEntriesInternal: the committed commands reach the state
-- machine in the order of the log, each once.
use my_raft_kvdb.Base.{
  ℕ, zero, suc, ◌+◌, ◌<◌, ◌≡◌, refl, ap, ◌∙◌, arith, Bool, true, false, Option, List, [], ◌∷◌,
  length, pos, ltb_ℤ, if◌then◌else◌,
}
use my_raft_kvdb.Log.{LogEntry, entry_at}
use my_raft_kvdb.Text.{Bytes}
use my_raft_kvdb.Node.{Answer, returned, thrown, Callback, RaftNode}
use my_raft_kvdb.Node.Apply.{
  run_callback, deliver, apply_one, apply_loop, apply_committed_entries, distance,
}

-- The commands at the `k` positions behind `a`.
abbrev pub commands : List LogEntry → ℕ → ℕ → List Bytes
commands log a zero = []
commands log a (suc k) = (entry_at log (pos (suc a))).command ∷ commands log (suc a) k

-- How a run over some commands ends: in a state, or with a command at which the callback threw, the
-- number of commands before it, and the state at that point.
pub data Fed (S : Type 0) : Type 0 where
  finished : S → Fed S
  broke : ℕ → S → Fed S

module _ {S : Type 0} where
  abbrev later : Fed S → Fed S
  later (finished s) = finished s
  later (broke k s) = broke (suc k) s

  abbrev next : Answer × S → (S → Fed S) → Fed S
  next (returned r, s) rest = later (rest s)
  next (thrown r, s) rest = broke 0 s

  -- The state machine alone, fed with a list of commands.
  abbrev pub feed : Option (Callback S) → List Bytes → S → Fed S
  feed f [] s = finished s
  feed f (c ∷ cs) s = next (run_callback f c s) (feed f cs)

  -- What a call leaves behind, for a position `a` and `k` entries to apply.
  abbrev pub Applied : ℕ → ℕ → Fed S → RaftNode S × Bool → Type 0
  Applied a k (finished s) (n, threw) =
      (threw ≡ false) × (n.machine ≡ s) × (n.last_applied ≡ pos (a + k))
  Applied a k (broke j s) (n, threw) =
      (threw ≡ true) × (n.machine ≡ s) × (n.last_applied ≡ pos (suc (a + j)))

  Applied-later :
      (a k : ℕ) (f : Fed S) (r : RaftNode S × Bool)
      → Applied (suc a) k f r
      → Applied a (suc k) (later f) r
  Applied-later a k (finished s) (n, threw) h = (h.0, h.1, h.2 ∙ ap pos (omega arith))
  Applied-later a k (broke j s) (n, threw) h = (h.0, h.1, h.2 ∙ ap pos (omega arith))

  -- A round inside the log hands the command to the callback.
  apply_one_inside :
      (a : ℕ) (n : RaftNode S)
      → n.last_applied ≡ pos a
      → suc a < length n.log
      → apply_one n
        ≡ deliver
            (run_callback n.apply_callback (entry_at n.log (pos (suc a))).command n.machine)
            (record n { last_applied = pos (suc a) })
  unfolding apply_one
  apply_one_inside a n at inside = simp at (ground arith)

  answered :
      (a k : ℕ) (n : RaftNode S) (r : Answer × S)
      → ((m : RaftNode S)
          → m.last_applied ≡ pos (suc a)
          → m.commit_index ≡ pos (suc a + k)
          → suc a + k < length m.log
          → Applied
              (suc a)
              k
              (feed m.apply_callback (commands m.log (suc a) k) m.machine)
              (apply_loop k m))
      → n.last_applied ≡ pos (suc a)
      → n.commit_index ≡ pos (suc a + k)
      → suc a + k < length n.log
      → Applied a
          (suc k)
          (next r (feed n.apply_callback (commands n.log (suc a) k)))
          (if (deliver r n).1 then ((deliver r n).0, true) else apply_loop k (deliver r n).0)
  unfolding deliver
  answered a k n (returned x, s) rest at upto inside =
      Applied-later a k (feed n.apply_callback (commands n.log (suc a) k) s) _
        (rest (deliver (returned x, s) n).0 at upto inside)
  answered a k n (thrown x, s) rest at upto inside = ground arith

  apply_loop-Applied :
      (k a : ℕ) (n : RaftNode S)
      → n.last_applied ≡ pos a
      → n.commit_index ≡ pos (a + k)
      → a + k < length n.log
      → Applied a k (feed n.apply_callback (commands n.log a k) n.machine) (apply_loop k n)
  unfolding apply_loop
  apply_loop-Applied zero a n at upto inside = ground arith
  apply_loop-Applied (suc k) a n at upto inside =
      let more : ltb_ℤ n.last_applied n.commit_index ≡ true = rw (at, upto) (ground arith) in
      rw (more, apply_one_inside a n at (omega arith))
        (answered a k (record n { last_applied = pos (suc a) })
          (run_callback n.apply_callback (entry_at n.log (pos (suc a))).command n.machine)
          (apply_loop-Applied k (suc a)) refl (upto ∙ ap pos (omega arith)) (omega arith))

  -- With lastApplied_ at a and commitIndex_ at a + k inside the log: the commands at a + 1, ..., a + k
  -- are run by the state machine in this order. If the callback throws at none of them, all are
  -- applied and lastApplied_ reaches commitIndex_; if it throws, the exception leaves the loop,
  -- lastApplied_ has passed the command that threw, and the commands behind it are not run.
  pub apply_committed_entries-Applied :
      (k a : ℕ) (n : RaftNode S)
      → n.last_applied ≡ pos a
      → n.commit_index ≡ pos (a + k)
      → a + k < length n.log
      → Applied a k
          (feed n.apply_callback (commands n.log a k) n.machine)
          (apply_committed_entries n)
  unfolding apply_committed_entries
  apply_committed_entries-Applied k a n at upto inside =
      let e : distance n.last_applied n.commit_index ≡ k = rw (at, upto) (omega arith) in
      rw e (apply_loop-Applied k a n at upto inside)
