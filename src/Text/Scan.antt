-- ===== src/Text/Scan.antt =====
-- Reading text: an std::istringstream as a function from the text not yet read, std::getline, read
-- and get on it, and std::stoi and std::stoull. `none` is a failure that makes the caller give up:
-- a stream that fails, or a conversion that throws.
use my_raft_kvdb.Base.{
  ℕ, zero, suc, ◌+◌, ◌-◌, ◌*◌, ◌%◌, ◌^◌, ◌≡◌, refl, Bool, true, false, ◌&&◌, ◌||◌, Option, none,
  some, [], ◌∷◌, length, take, drop, ltb, leb, ◌==◌, if◌then◌else◌, ℤ, pos, negsuc,
}
use my_raft_kvdb.Text.{Bytes, codes}

abbrev pub Parser {ℓ} : Type ℓ → Type ℓ
Parser A = Bytes → Option (A × Bytes)

infixl 1 ◌>>=◌
abbrev pub ◌>>=◌ {ℓ κ} : {A : Type ℓ} {B : Type κ} → Parser A → (A → Parser B) → Parser B
(m >>= f) s = elim (m s) [ none ↦ none | some (a, s') ↦ f a s' ]

abbrev pub give {ℓ} : {A : Type ℓ} → A → Parser A
give a s = some (a, s)

-- A conversion inside a reader.
abbrev pub convert {ℓ} : {A : Type ℓ} → Option A → Parser A
convert none s = none
convert (some a) s = some (a, s)

-- The text up to a delimiter, and behind it.
unfoldable pub until : ℕ → Bytes → Bytes × Bytes
until d [] = ([], [])
until d (b ∷ s) = let rest = until d s in if b == d then ([], s) else (b ∷ rest.0, rest.1)

-- std::getline(stream, line, d): fails when nothing is left.
unfoldable pub get_line : ℕ → Parser Bytes
get_line d [] = none
get_line d (b ∷ s) = some (until d (b ∷ s))

-- stream.read(buffer, n) with the test that gcount() is n.
unfoldable pub read_exactly : ℕ → Parser Bytes
read_exactly n s = if leb n (length s) then some (take n s, drop n s) else none

-- stream.get(c)
abbrev pub skip_byte : Bytes → Bytes
skip_byte s = drop 1 s

abbrev is_space : ℕ → Bool
is_space b = b == 32 || (leb 9 b && leb b 13)

abbrev pub is_digit : ℕ → Bool
is_digit b = leb b'0' b && leb b b'9'

unfoldable pub skip_spaces : Bytes → Bytes
skip_spaces [] = []
skip_spaces (b ∷ s) = let rest = skip_spaces s in if is_space b then rest else b ∷ s

-- The value of the digits in front, after digits of value `acc`; what follows them is ignored.
unfoldable pub scan : ℕ → Bytes → ℕ
scan acc [] = acc
scan acc (b ∷ s) = let rest = scan (acc * 10 + (b - b'0')) s in if is_digit b then rest else acc

-- At least one digit has to come.
unfoldable pub magnitude : Bytes → Option ℕ
unfolding scan
magnitude [] = none
magnitude (b ∷ s) = if is_digit b then some (scan 0 (b ∷ s)) else none

-- The sign, if there is one, and the number behind it.
unfoldable pub signed : Bytes → Option (Bool × ℕ)
signed [] = none
signed (b ∷ s) =
    if b == b'-'
    then elim (magnitude s) [ none ↦ none | some n ↦ some (true, n) ]
    else (if b == b'+'
        then elim (magnitude s) [ none ↦ none | some n ↦ some (false, n) ]
        else elim (magnitude (b ∷ s)) [ none ↦ none | some n ↦ some (false, n) ])

abbrev pub negate : ℕ → ℤ
negate zero = pos 0
negate (suc n) = negsuc n

-- std::stoi for a 32-bit int.
unfoldable pub int_of : Bool × ℕ → Option ℤ
int_of (true, n) = if leb n (2 ^ 31) then some (negate n) else none
int_of (false, n) = if ltb n (2 ^ 31) then some (pos n) else none

unfoldable pub stoi : Bytes → Option ℤ
unfolding signed skip_spaces int_of
stoi s = elim (signed (skip_spaces s)) [ none ↦ none | some r ↦ int_of r ]

-- std::stoull for a 64-bit word: a minus sign wraps around.
unfoldable pub word_of : Bool × ℕ → Option ℕ
word_of (minus, n) =
    if ltb n (2 ^ 64) then some (if minus then (2 ^ 64 - n) % 2 ^ 64 else n) else none

unfoldable pub stoull : Bytes → Option ℕ
unfolding signed skip_spaces word_of
stoull s = elim (signed (skip_spaces s)) [ none ↦ none | some r ↦ word_of r ]

scan_tests :
    (stoi (codes " -12x") ≡ some (negsuc 11))
    × (stoi (codes "+7") ≡ some (pos 7))
    × (stoi (codes "-") ≡ none)
    × (stoi (codes "2147483648") ≡ none)
    × (stoull (codes "-1") ≡ some (2 ^ 64 - 1))
    × (get_line b'|' (codes "ab|c") ≡ some (codes "ab", codes "c"))
    × (get_line b'|' (codes "ab") ≡ some (codes "ab", []))
    × (get_line b'|' (codes "|") ≡ some ([], []))
unfolding stoi stoull get_line until magnitude
scan_tests = (refl, refl, refl, refl, refl, refl, refl, refl)

-- How much the program can allocate: the longest string, and the most log entries of a vector.
pub record Memory : Type 0 where
  pub string_limit : ℕ
  pub entries_limit : ℕ

-- std::string s(n, '\0'); stream.read(&s[0], n), with the test that gcount() is n.
unfoldable pub read_string : Memory → ℕ → Parser Bytes
read_string memory n s = if leb n memory.string_limit then read_exactly n s else none

abbrev pub result_of {ℓ} : {A : Type ℓ} → Option (A × Bytes) → Option A
result_of none = none
result_of (some (a, _)) = some a
