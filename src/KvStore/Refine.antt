-- ===== src/KvStore/Refine.antt =====
-- src/storage/kv_store.cpp: the store does what a map from keys to values does, so that replicas which
-- apply the same commands hold the same and answer the same, whatever levels their skip lists draw.
use my_raft_kvdb.Base.{
  ◌≡◌, ◌⊎◌, refl, sym, ap, ◌∙◌, Option, none, some, List, [], ◌∷◌, ◌++◌, if◌then◌else◌, is_some,
  arith,
}
use my_raft_kvdb.Command.{Command, CommandType, put, get, delete, parse_command}
use my_raft_kvdb.KvStore.{
  SkipListOps, found_answer, run_command, apply_command, apply_command_with_result,
}
use my_raft_kvdb.Node.{Answer, returned, thrown}
use my_raft_kvdb.Text.{Bytes, codes, same_bytes}

-- What the skip list promises of a key and its neighbours.
pub record IsSortedMap {M : Type 0} (ops : SkipListOps M) : Type 0 where
  pub search-insert :
      (k v k' : Bytes) (m : M)
      → ops.search k' (ops.insert k v m).0 ≡ (if same_bytes k' k then some v else ops.search k' m)
  pub search-remove :
      (k k' : Bytes) (m : M)
      → ops.search k' (ops.remove k m).0 ≡ (if same_bytes k' k then none else ops.search k' m)
  pub removed_iff : (k : Bytes) (m : M) → (ops.remove k m).1 ≡ is_some (ops.search k m)

abbrev pub Contents : Type 0
Contents = Bytes → Option Bytes

-- The commands on a map from keys to values.
abbrev pub write : Bytes → Option Bytes → Contents → Contents
write k o f k' = if same_bytes k' k then o else f k'

abbrev pub spec_answer : Option Bytes → Bytes
spec_answer none = codes "NOT_FOUND"
spec_answer (some value) = codes "VALUE:" ++ value

abbrev pub spec_command : Command → Contents → Answer × Contents
spec_command c f = elim c.type [
  | put ↦ (returned (codes "OK"), write c.key (some c.value) f)
  | get ↦ (returned (spec_answer (f c.key)), f)
  | delete ↦
      (returned (if is_some (f c.key) then codes "OK" else codes "NOT_FOUND"), write c.key none f)
]

-- A text that is not a command is an error and changes nothing.
spec_parsed : Option Command → Contents → Answer × Contents
spec_parsed none f = (thrown [], f)
spec_parsed (some c) f = spec_command c f

unfoldable pub spec_apply : Bytes → Contents → Answer × Contents
unfolding spec_parsed
spec_apply text f = spec_parsed (parse_command text) f

found_answer_lem : (o : Option Bytes) → found_answer o ≡ spec_answer o
unfolding found_answer
found_answer_lem none = refl
found_answer_lem (some v) = refl

-- The map only shows in what it gives for each key.
spec_command_resp :
    (type : CommandType) (key value : Bytes) (f g : Contents)
    → ((k : Bytes) → f k ≡ g k)
    → let c : Command = record { type = type; key = key; value = value } in
      ((spec_command c f).0 ≡ (spec_command c g).0)
      × ((k : Bytes) → (spec_command c f).1 k ≡ (spec_command c g).1 k)
spec_command_resp put key value f g e =
    (refl, λ k. ap (λ o. if same_bytes k key then some value else o) (e k))
spec_command_resp get key value f g e = (ap (λ o. returned (spec_answer o)) (e key), e)
spec_command_resp delete key value f g e = (
  ap (λ o. returned (if is_some o then codes "OK" else codes "NOT_FOUND")) (e key),
  λ k. ap (λ o. if same_bytes k key then none else o) (e k),
)

spec_parsed_resp :
    (o : Option Command) (f g : Contents)
    → ((k : Bytes) → f k ≡ g k)
    → ((spec_parsed o f).0 ≡ (spec_parsed o g).0)
      × ((k : Bytes) → (spec_parsed o f).1 k ≡ (spec_parsed o g).1 k)
unfolding spec_parsed
spec_parsed_resp none f g e = (refl, e)
spec_parsed_resp (some c) f g e = spec_command_resp c.type c.key c.value f g e

cong_cons : {a b : Answer} {xs ys : List Answer} → a ≡ b → xs ≡ ys → a ∷ xs ≡ b ∷ ys
cong_cons e f = rw (e, f) refl

module _ {M : Type 0} (ops : SkipListOps M) (laws : IsSortedMap ops) where
  abbrev pub contents : M → Contents
  contents m k = ops.search k m

  run_command_lem :
      (type : CommandType) (key value : Bytes) (m : M)
      → let c : Command = record { type = type; key = key; value = value } in
        ((run_command ops c m).0 ≡ (spec_command c (contents m)).0)
        × ((k : Bytes) → contents (run_command ops c m).1 k ≡ (spec_command c (contents m)).1 k)
  unfolding run_command found_answer
  run_command_lem put key value m = (refl, λ k. laws.search-insert key value k m)
  run_command_lem get key value m = (ap returned (found_answer_lem (ops.search key m)), λ k. refl)
  run_command_lem delete key value m = (
    ap (λ b. returned (if b then codes "OK" else codes "NOT_FOUND")) (laws.removed_iff key m),
    λ k. laws.search-remove key k m,
  )

  parsed_lem :
      (o : Option Command) (m : M)
      → let r : Answer × M = elim o [ none ↦ (thrown [], m) | some c ↦ run_command ops c m ] in
        (r.0 ≡ (spec_parsed o (contents m)).0)
        × ((k : Bytes) → contents r.1 k ≡ (spec_parsed o (contents m)).1 k)
  unfolding spec_parsed
  parsed_lem none m = (refl, λ k. refl)
  parsed_lem (some c) m = run_command_lem c.type c.key c.value m

  -- Over a lawful skip list, a command has the answer and the effect on each key that it has on a
  -- map with the same contents; a text that is none throws and changes nothing.
  pub apply_command_with_result_lem :
      (text : Bytes) (m : M)
      → ((apply_command_with_result ops text m).0 ≡ (spec_apply text (contents m)).0)
        × ((k : Bytes)
            → contents (apply_command_with_result ops text m).1 k
              ≡ (spec_apply text (contents m)).1 k)
  unfolding apply_command_with_result spec_apply
  apply_command_with_result_lem text m = parsed_lem (parse_command text) m

  -- applyCommand changes the store as applyCommandWithResult does, and throws where that throws.
  apply_command_lem :
      (text : Bytes) (m : M)
      → (apply_command ops text m ≡ none)
        ⊎ (apply_command ops text m ≡ some (apply_command_with_result ops text m).1)
  unfolding apply_command apply_command_with_result run_command
  apply_command_lem text m = ground arith

  -- A list of commands, with their answers.
  unfoldable pub run_commands : List Bytes → M → List Answer × M
  run_commands [] m = ([], m)
  run_commands (text ∷ texts) m =
      let (answer, m') = apply_command_with_result ops text m in
      let (answers, m'') = run_commands texts m' in (answer ∷ answers, m'')

  -- Two stores over a lawful skip list that give the same for every key give the same answers to
  -- any list of commands, and then give the same for every key again.
  pub replicas_agree :
      (texts : List Bytes) (m n : M)
      → ((k : Bytes) → ops.search k m ≡ ops.search k n)
      → ((run_commands texts m).0 ≡ (run_commands texts n).0)
        × ((k : Bytes)
            → ops.search k (run_commands texts m).1 ≡ ops.search k (run_commands texts n).1)
  unfolding run_commands spec_apply
  replicas_agree [] m n e = (refl, e)
  replicas_agree (text ∷ texts) m n e =
      let (am, cm) = apply_command_with_result_lem text m in
      let (an, cn) = apply_command_with_result_lem text n in
      let (a, c) = spec_parsed_resp (parse_command text) (contents m) (contents n) e in
      let m' = (apply_command_with_result ops text m).1 in
      let n' = (apply_command_with_result ops text n).1 in
      let (answers, rest) = replicas_agree texts m' n' (λ k. cm k ∙ c k ∙ sym (cn k)) in
      (cong_cons (am ∙ a ∙ sym an) answers, rest)
