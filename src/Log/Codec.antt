-- ===== src/Log/Codec.antt =====
-- include/raft/log_entry.h: LogEntry::deserialize.
use my_raft_kvdb.Base.{
  ◌^◌, ◌<◌, ◌≤◌, ◌≡◌, refl, ap, subst, Option, some, ◌∷◌, ◌++◌, length, arith, append_assoc,
  append-nil, length-append, List, [],
}
use my_raft_kvdb.Log.{LogEntry, serialize}
use my_raft_kvdb.Text.{Bytes, print_int, print_nat}
use my_raft_kvdb.Text.Numbers.{
  IsInt, get_line-print_nat, get_line-print_int, stoi-print_int, stoull-print_nat,
  read_string-append,
}
use my_raft_kvdb.Text.Scan.{
  Parser, ◌>>=◌, give, convert, get_line, stoi, stoull, Memory, read_string, result_of,
}

parse_entry : Memory → Parser LogEntry
parse_entry memory = do
  term_str ← get_line b'|'
  index_str ← get_line b'|'
  length_str ← get_line b'|'
  term ← convert (stoi term_str)
  index ← convert (stoi index_str)
  length ← convert (stoull length_str)
  command ← read_string memory length
  give (record { term = term; command = command; index = index })

-- deserialize(str); what follows the command is ignored.
unfoldable pub deserialize : Memory → Bytes → Option LogEntry
unfolding parse_entry
deserialize memory s = result_of (parse_entry memory s)

-- The values that fit an int, and a text whose length fits a size_t and that can be allocated.
pub record IsStorable (memory : Memory) (e : LogEntry) : Type 0 where
  pub term_IsInt : IsInt e.term
  pub index_IsInt : IsInt e.index
  pub fits_word : length (serialize e) < 2 ^ 64
  pub fits_memory : length (serialize e) ≤ memory.string_limit

pub data AllStorable (memory : Memory) : List LogEntry → Type 0 where
  all_nil : AllStorable memory []
  all_cons :
      {e : LogEntry} {es : List LogEntry}
      → IsStorable memory e
      → AllStorable memory es
      → AllStorable memory (e ∷ es)

command-le-serialize : (e : LogEntry) → length e.command ≤ length (serialize e)
unfolding serialize
command-le-serialize e = omega (
  arith,
  length-append (print_int e.term)
      (b'|' ∷ print_int e.index ++ (b'|' ∷ print_nat (length e.command) ++ (b'|' ∷ e.command))),
  length-append (print_int e.index) (b'|' ∷ print_nat (length e.command) ++ (b'|' ∷ e.command)),
  length-append (print_nat (length e.command)) (b'|' ∷ e.command),
)

serialize-append :
    (e : LogEntry) (rest : Bytes)
    → serialize e ++ rest
      ≡ print_int e.term
        ++ b'|'
          ∷ (print_int e.index
              ++ b'|' ∷ (print_nat (length e.command) ++ b'|' ∷ (e.command ++ rest)))
unfolding serialize
serialize-append e rest = rw (append_assoc (print_int e.term) _ rest) (
    rw (append_assoc (print_int e.index) _ rest)
      (rw (append_assoc (print_nat (length e.command)) _ rest) refl))

parse_entry_lem :
    (memory : Memory) (e : LogEntry) (rest : Bytes)
    → IsStorable memory e
    → parse_entry memory (serialize e ++ rest) ≡ some (e, rest)
unfolding parse_entry
parse_entry_lem memory e rest h = rw (serialize-append e rest) grind (
  arith,
  get_line-print_int b'|' e.term _ refl,
  get_line-print_int b'|' e.index _ refl,
  get_line-print_nat b'|' (length e.command) _ refl,
  stoi-print_int e.term h.term_IsInt,
  stoi-print_int e.index h.index_IsInt,
  stoull-print_nat (length e.command) (omega (arith, command-le-serialize e, h.fits_word)),
  read_string-append memory e.command rest (omega (arith, command-le-serialize e, h.fits_memory)),
)

pub deserialize-serialize :
    (memory : Memory) (e : LogEntry) (rest : Bytes)
    → IsStorable memory e
    → deserialize memory (serialize e ++ rest) ≡ some e
unfolding deserialize
deserialize-serialize memory e rest h = ap result_of (parse_entry_lem memory e rest h)

pub deserialize-serialize_end :
    (memory : Memory) (e : LogEntry)
    → IsStorable memory e
    → deserialize memory (serialize e) ≡ some e
deserialize-serialize_end memory e h =
    subst (λ s. deserialize memory s ≡ some e) (append-nil (serialize e))
      (deserialize-serialize memory e [] h)
