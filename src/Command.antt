-- ===== src/Command.antt =====
-- src/storage/command.cpp: the commands of the key-value store and their text.
pub mod RoundTrip
use my_raft_kvdb.Base.{
  ℕ, Bool, true, false, Option, none, some, List, [], ◌∷◌, ◌++◌, ◌==◌, ◌≡◌, refl, if◌then◌else◌,
}
use my_raft_kvdb.Text.{Bytes, codes, same_bytes}

pub data CommandType : Type 0 where
  put get delete : CommandType

pub record Command : Type 0 where
  pub type : CommandType
  pub key : Bytes
  pub value : Bytes

-- serialize()
unfoldable pub print_command : Command → Bytes
print_command c = elim c.type [
  | put ↦ codes "PUT:" ++ (c.key ++ b':' ∷ c.value)
  | get ↦ codes "GET:" ++ c.key
  | delete ↦ codes "DELETE:" ++ c.key
]

abbrev prepend : ℕ → Option (Bytes × Bytes) → Option (Bytes × Bytes)
prepend b none = none
prepend b (some (before, after)) = some (b ∷ before, after)

-- str.find(d) with the substrings before and behind what it finds.
unfoldable pub split_at : ℕ → Bytes → Option (Bytes × Bytes)
split_at d [] = none
split_at d (b ∷ s) = let rest = split_at d s in if b == d then some ([], s) else prepend b rest

unfoldable pub type_of : Bytes → Option CommandType
unfolding same_bytes
type_of s =
    if same_bytes s (codes "PUT")
    then some put
    else (if same_bytes s (codes "GET")
        then some get
        else (if same_bytes s (codes "DELETE") then some delete else none))

-- The empty key throws.
unfoldable pub make_command : CommandType → Bytes → Bytes → Option Command
make_command type [] value = none
make_command type (b ∷ key) value = some (record { type = type; key = b ∷ key; value = value })

-- The part behind the first colon, by type.
unfoldable pub parse_arguments : CommandType → Bytes → Option Command
unfolding make_command
parse_arguments put s = elim (split_at b':' s) [
  | none ↦ none
  | some (key, value) ↦ make_command put key value
]
parse_arguments get s = make_command get s []
parse_arguments delete s = make_command delete s []

-- deserialize(str), where `none` is the exception std::invalid_argument.
unfoldable pub parse_command : Bytes → Option Command
parse_command [] = none
parse_command (b ∷ s) = elim (split_at b':' (b ∷ s)) [
  | none ↦ none
  | some (word, arguments) ↦ elim (type_of word) [
    | none ↦ none
    | some type ↦ parse_arguments type arguments
  ]
]

parse_command_tests :
    (parse_command (codes "PUT:a:b:c")
      ≡ some (record { type = put; key = codes "a"; value = codes "b:c" }))
    × (parse_command (codes "GET:a:b")
        ≡ some (record { type = get; key = codes "a:b"; value = [] }))
    × (parse_command (codes "PUT:a") ≡ none)
    × (parse_command (codes "DELETE:") ≡ none)
unfolding parse_command split_at type_of parse_arguments
parse_command_tests = (refl, refl, refl, refl)
