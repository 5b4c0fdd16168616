-- ===== src/Command/RoundTrip.antt =====
-- src/storage/command.cpp: which commands are read back from their text, and which text is a command.
use mathlib.Core.Option.{none-ne-some}
use my_raft_kvdb.Base.{
  ℕ, ◌≡◌, ◌≢◌, refl, ap, ◌∙◌, sym, subst, true, false, some, [], ◌∷◌, ◌++◌, arith, append_assoc,
  Option-cases, inl, inr,
}
use my_raft_kvdb.Command.{
  Command, CommandType, put, get, delete, print_command, split_at, type_of, make_command,
  parse_arguments, parse_command,
}
use my_raft_kvdb.Text.{Bytes, codes, same_bytes}
use my_raft_kvdb.Text.Numbers.{has_byte}

pub split_at-append :
    (d : ℕ) (xs ys : Bytes) → has_byte d xs ≡ false → split_at d (xs ++ d ∷ ys) ≡ some (xs, ys)
unfolding split_at
split_at-append d [] ys h = ground arith
split_at-append d (b ∷ xs) ys h = ground (arith, split_at-append d xs ys)

-- What is found is cut out of the text, and the part before it has no such byte.
split_at_lem :
    (d : ℕ) (s xs ys : Bytes)
    → split_at d s ≡ some (xs, ys)
    → (s ≡ xs ++ d ∷ ys) × (has_byte d xs ≡ false)
unfolding split_at
split_at_lem d [] xs ys h = ground arith
split_at_lem d (b ∷ s) [] ys h = ground arith
split_at_lem d (b ∷ s) (c ∷ xs) ys h = ground (arith, split_at_lem d s xs ys)

-- A key that is not empty, no colon in the key of a PUT, and no value but for a PUT.
abbrev pub IsPrintable : Command → Type 0
IsPrintable c =
    (c.key ≢ [])
    × elim c.type [ put ↦ has_byte b':' c.key ≡ false | get ↦ c.value ≡ [] | delete ↦ c.value ≡ [] ]

make_command_lem :
    (type : CommandType) (key value : Bytes)
    → key ≢ []
    → make_command type key value ≡ some (record { type = type; key = key; value = value })
unfolding make_command
make_command_lem type [] value h = absurd (h refl)
make_command_lem type (b ∷ key) value h = refl

moved :
    (before after value : Bytes)
    → print_command (record { type = put; key = before ++ b':' ∷ after; value = value })
      ≡ print_command (record { type = put; key = before; value = after ++ b':' ∷ value })
unfolding print_command
moved before after value =
    ap (λ s. codes "PUT:" ++ s) (append_assoc before (b':' ∷ after) (b':' ∷ value))

parse-print :
    (type : CommandType) (key value : Bytes)
    → let c : Command = record { type = type; key = key; value = value } in
      IsPrintable c → parse_command (print_command c) ≡ some c
unfolding parse_command print_command split_at type_of parse_arguments
parse-print put key value h =
    grind (arith, split_at-append b':' key value h.1, make_command_lem put key value h.0)
parse-print get key value h =
    rw (make_command_lem get key [] h.0)
      (ap (λ v. some (record { type = get; key = key; value = v })) (sym h.1))
parse-print delete key value h =
    rw (make_command_lem delete key [] h.0)
      (ap (λ v. some (record { type = delete; key = key; value = v })) (sym h.1))

-- A command is read back from its text, if its key is not empty, the key of a PUT has no colon, and
-- there is no value but for a PUT.
pub parse_command-print_command :
    (c : Command) → IsPrintable c → parse_command (print_command c) ≡ some c
parse_command-print_command c h = parse-print c.type c.key c.value h

-- A PUT whose key has a colon, behind a part without one that is not empty, is read back with the
-- key cut at that colon and the rest of it in the value.
pub colon_in_key :
    (before after value : Bytes)
    → before ≢ []
    → has_byte b':' before ≡ false
    → parse_command
        (print_command (record { type = put; key = before ++ b':' ∷ after; value = value }))
      ≡ some (record { type = put; key = before; value = after ++ b':' ∷ value })
colon_in_key before after value h e =
    subst
      (λ s.
        parse_command s ≡ some (record { type = put; key = before; value = after ++ b':' ∷ value }))
      (sym (moved before after value)) (parse-print put before (after ++ b':' ∷ value) (h, e))

same_bytes_lem : (s t : Bytes) → same_bytes s t ≡ true → s ≡ t
unfolding same_bytes
same_bytes_lem [] [] h = refl
same_bytes_lem [] (c ∷ t) h = ground arith
same_bytes_lem (b ∷ s) [] h = ground arith
same_bytes_lem (b ∷ s) (c ∷ t) h = ground (arith, same_bytes_lem s t)

abbrev word : CommandType → Bytes
word type = elim type [ put ↦ codes "PUT" | get ↦ codes "GET" | delete ↦ codes "DELETE" ]

type_of_lem : (s : Bytes) (type : CommandType) → type_of s ≡ some type → s ≡ word type
unfolding type_of
type_of_lem s type h = ground (
  arith,
  same_bytes_lem s (codes "PUT"),
  same_bytes_lem s (codes "GET"),
  same_bytes_lem s (codes "DELETE"),
)

make_command_inv :
    (type : CommandType) (key value : Bytes) (c : Command)
    → make_command type key value ≡ some c
    → (c ≡ record { type = type; key = key; value = value }) × (key ≢ [])
unfolding make_command
make_command_inv type [] value c h = ground arith
make_command_inv type (b ∷ key) value c h = (ground arith, ground arith)

-- Both halves of what is known of a parsed command, with the text behind the first colon.
abbrev IsTextOf : Command → CommandType → Bytes → Type 0
IsTextOf c type s = IsPrintable c × (print_command c ≡ word type ++ b':' ∷ s)

put_text :
    (key value s : Bytes) (c : Command)
    → s ≡ key ++ b':' ∷ value
    → has_byte b':' key ≡ false
    → make_command put key value ≡ some c
    → IsTextOf c put s
unfolding print_command
put_text key value s c e free h =
    let (ec, nonempty) = make_command_inv put key value c h in
    subst (λ c. IsTextOf c put s) (sym ec) ((nonempty, free), ap (λ t. codes "PUT:" ++ t) (sym e))

parse_arguments_inv :
    (type : CommandType) (s : Bytes) (c : Command)
    → parse_arguments type s ≡ some c
    → IsTextOf c type s
unfolding parse_arguments print_command
parse_arguments_inv put s c h = elim (Option-cases (split_at b':' s)) [
  | inl e ↦ absurd (none-ne-some c (rw (e, parse_arguments) at h))
  | inr ((key, value), e) ↦
      let (cut, free) = split_at_lem b':' s key value e in
      put_text key value s c cut free (rw (e, parse_arguments) at h)
]
parse_arguments_inv get s c h =
    let (ec, nonempty) = make_command_inv get s [] c h in
    subst (λ c. IsTextOf c get s) (sym ec) ((nonempty, refl), refl)
parse_arguments_inv delete s c h =
    let (ec, nonempty) = make_command_inv delete s [] c h in
    subst (λ c. IsTextOf c delete s) (sym ec) ((nonempty, refl), refl)

-- Where a text is read as a command, printing the command gives the text back; its key is not
-- empty, the key of a PUT has no colon, and there is no value but for a PUT.
pub print_command-parse_command :
    (s : Bytes) (c : Command) → parse_command s ≡ some c → IsPrintable c × (print_command c ≡ s)
unfolding parse_command
print_command-parse_command [] c h = absurd (none-ne-some c h)
print_command-parse_command (b ∷ s) c h = elim (Option-cases (split_at b':' (b ∷ s))) [
  | inl e ↦ absurd (none-ne-some c (rw (e, parse_command) at h))
  | inr ((name, arguments), e) ↦ elim (Option-cases (type_of name)) [
    | inl e' ↦ absurd (none-ne-some c (rw e' at (rw (e, parse_command) at h)))
    | inr (type, e') ↦
        let (printable, text) =
          parse_arguments_inv type arguments c (rw e' at (rw (e, parse_command) at h)) in
        let cut = (split_at_lem b':' (b ∷ s) name arguments e).0 in
        (
          printable,
          text ∙ ap (λ w. w ++ b':' ∷ arguments) (sym (type_of_lem name type e')) ∙ sym cut,
        )
  ]
]
