-- ===== src/Node/Append/Merge.antt =====
-- src/raft/raft_node.cpp, rule 4 of handleAppendEntries: the loop over the new entries against a
-- description of the log that it must leave.
use my_raft_kvdb.Base.{
  ℕ, suc, ◌≤◌, ◌≡◌, refl, arith, Bool, true, false, ◌||◌, not, List, [], ◌∷◌, ◌++◌, append-nil,
  append_assoc, if◌then◌else◌, length, take, drop, length-append, take-append-drop, length-take,
  take-append_left, get_or-append_middle, pos, ◌==ℤ◌,
}
use my_raft_kvdb.Log.{LogEntry, empty_entry}
use my_raft_kvdb.Node.Append.{stamp, merge_one, merge_entries}

-- The new entries under the positions at which they arrive.
abbrev pub stamps : ℕ → List LogEntry → List LogEntry
stamps p [] = []
stamps p (e ∷ es) = stamp (pos p) e ∷ stamps (suc p) es

-- What must stand behind the previous entry: the old entries up to the first one whose term differs
-- from the new one's, and from there on the new ones alone. Old entries past the last new one stay.
abbrev pub overlay : List LogEntry → List LogEntry → List LogEntry
overlay rest [] = rest
overlay [] (e ∷ es) = e ∷ es
overlay (r ∷ rest) (e ∷ es) = if r.term ==ℤ e.term then r ∷ overlay rest es else e ∷ es

-- Some old entry is replaced, or some new one added.
abbrev pub differs : List LogEntry → List LogEntry → Bool
differs rest [] = false
differs [] (e ∷ es) = true
differs (r ∷ rest) (e ∷ es) = not (r.term ==ℤ e.term) || differs rest es

overlay-nil : (es : List LogEntry) → overlay [] es ≡ es
overlay-nil [] = refl
overlay-nil (e ∷ es) = refl

module _ (pre : List LogEntry) (e : LogEntry) (m : Bool) where
  -- A round past the end appends.
  merge_one_end :
      merge_one (pos (length pre)) e (pre, m) ≡ (pre ++ stamp (pos (length pre)) e ∷ [], true)
  unfolding merge_one
  merge_one_end = ground arith

  -- A round inside the log keeps the old entry, or cuts the log and appends.
  merge_one_inside :
      (r : LogEntry) (rest : List LogEntry)
      → merge_one (pos (length pre)) e (pre ++ r ∷ rest, m) ≡ (
          if r.term ==ℤ e.term
          then (pre ++ r ∷ rest, m)
          else (pre ++ stamp (pos (length pre)) e ∷ [], true))
  unfolding merge_one
  merge_one_inside r rest = ground (
    arith,
    get_or-append_middle pre rest r empty_entry,
    take-append_left pre (r ∷ rest),
    length-append pre (r ∷ rest),
  )

length-snoc : (pre : List LogEntry) (e : LogEntry) → length (pre ++ e ∷ []) ≡ suc (length pre)
length-snoc pre e = omega (arith, length-append pre (e ∷ []))

merge_from_end :
    (es pre : List LogEntry) (m : Bool)
    → merge_entries (pos (length pre)) es (pre, m)
      ≡ (pre ++ stamps (length pre) es, m || differs [] es)
unfolding merge_entries
merge_from_end [] pre m = ground (arith, append-nil pre)
merge_from_end (e ∷ es) pre m =
    let x : LogEntry = stamp (pos (length pre)) e in
    ground (
      arith,
      merge_one_end pre e m,
      length-snoc pre x,
      merge_from_end es (pre ++ x ∷ []) true,
      append_assoc pre (x ∷ []) (stamps (suc (length pre)) es),
    )

-- The loop from position |pre| on, over a log that begins with `pre`.
merge_from :
    (es pre rest : List LogEntry) (m : Bool)
    → merge_entries (pos (length pre)) es (pre ++ rest, m)
      ≡ (pre ++ overlay rest (stamps (length pre) es), m || differs rest es)
unfolding merge_entries
merge_from es pre [] m =
    ground (arith, append-nil pre, merge_from_end es pre m, overlay-nil (stamps (length pre) es))
merge_from [] pre (r ∷ rest) m = ground arith
merge_from (e ∷ es) pre (r ∷ rest) m =
    let x : LogEntry = stamp (pos (length pre)) e in
    ground (
      arith,
      merge_one_inside pre e m r rest,
      length-snoc pre x,
      length-snoc pre r,
      merge_from_end es (pre ++ x ∷ []) true,
      append_assoc pre (x ∷ []) (stamps (suc (length pre)) es),
      merge_from es (pre ++ r ∷ []) rest m,
      append_assoc pre (r ∷ []) rest,
      append_assoc pre (r ∷ []) (overlay rest (stamps (suc (length pre)) es)),
    )

-- For a position inside the log or just past its end, the loop leaves the log before the position
-- as it was, and behind it what `overlay` describes; its flag says whether anything changed.
pub merge_entries_lem :
    (p : ℕ) (es log : List LogEntry)
    → p ≤ length log
    → merge_entries (pos p) es (log, false)
      ≡ (take p log ++ overlay (drop p log) (stamps p es), differs (drop p log) es)
merge_entries_lem p es log h = ground (
  arith,
  merge_from es (take p log) (drop p log) false,
  take-append-drop p log,
  length-take p log,
)
