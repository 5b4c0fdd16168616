-- ===== src/Text/Numbers.antt =====
-- Numbers that are printed are read back, also as fields that a delimiter ends.
use my_raft_kvdb.Base.{
  ℕ, zero, suc, ◌+◌, ◌/◌, ◌%◌, ◌^◌, ◌<◌, ◌≤◌, ◌≡◌, refl, Bool, true, false, not, ◌&&◌, ◌||◌, some,
  [], ◌∷◌, ◌++◌, length, ◌==◌, ℤ, pos, negsuc, pos_part, neg_part, arith, ap, take-append_left,
  drop-append_left, length-append,
}
use my_raft_kvdb.Text.{Bytes, emit, print_nat, print_int}
use my_raft_kvdb.Text.Scan.{
  until, get_line, read_exactly, is_digit, skip_spaces, scan, magnitude, signed, int_of, word_of,
  stoi, stoull, Memory, read_string,
}

-- A value of a 32-bit int.
abbrev pub IsInt : ℤ → Type 0
IsInt i = (pos_part i < 2 ^ 31) × (neg_part i ≤ 2 ^ 31)

abbrev pub has_byte : ℕ → Bytes → Bool
has_byte d [] = false
has_byte d (b ∷ s) = b == d || has_byte d s

-- Neither a digit nor a minus sign.
abbrev pub is_delimiter : ℕ → Bool
is_delimiter d = not (is_digit d) && not (d == b'-')

pub scan-emit : (fuel n : ℕ) (out : Bytes) → n < fuel → scan 0 (emit fuel n out) ≡ scan n out
unfolding emit scan
scan-emit zero n out h = elim h [ ]
scan-emit (suc fuel) n out h = ground (arith, scan-emit fuel (n / 10) ((b'0' + n % 10) ∷ out))

abbrev has_number : Bytes → Bool
has_number [] = false
has_number (b ∷ s) = is_digit b

-- The printed number begins with a digit.
has_number-emit : (fuel n : ℕ) (out : Bytes) → n < fuel → has_number (emit fuel n out) ≡ true
unfolding emit
has_number-emit zero n out h = elim h [ ]
has_number-emit (suc fuel) n out h =
    ground (arith, has_number-emit fuel (n / 10) ((b'0' + n % 10) ∷ out))

has_byte-emit :
    (d fuel n : ℕ) (out : Bytes)
    → is_delimiter d ≡ true
    → has_byte d out ≡ false
    → has_byte d (emit fuel n out) ≡ false
unfolding emit
has_byte-emit d zero n out h e = e
has_byte-emit d (suc fuel) n out h e =
    ground (arith, has_byte-emit d fuel (n / 10) ((b'0' + n % 10) ∷ out) h)

pub has_byte-print_nat : (d n : ℕ) → is_delimiter d ≡ true → has_byte d (print_nat n) ≡ false
unfolding print_nat
has_byte-print_nat d n h = has_byte-emit d (suc n) n [] h refl

pub has_byte-print_int : (d : ℕ) (i : ℤ) → is_delimiter d ≡ true → has_byte d (print_int i) ≡ false
unfolding print_int
has_byte-print_int d (pos n) h = has_byte-print_nat d n h
has_byte-print_int d (negsuc n) h = ground (arith, has_byte-print_nat d (suc n) h)

signed-digits :
    (s : Bytes)
    → has_number s ≡ true
    → (signed (skip_spaces s) ≡ some (false, scan 0 s))
      × (signed (skip_spaces (b'-' ∷ s)) ≡ some (true, scan 0 s))
unfolding signed skip_spaces magnitude
signed-digits [] h = (ground arith, ground arith)
signed-digits (b ∷ s) h = (ground arith, ground arith)

signed-print_nat :
    (n : ℕ)
    → (signed (skip_spaces (print_nat n)) ≡ some (false, n))
      × (signed (skip_spaces (b'-' ∷ print_nat n)) ≡ some (true, n))
unfolding print_nat scan
signed-print_nat n =
    let e = scan-emit (suc n) n [] (omega arith) in
    let p = signed-digits (emit (suc n) n []) (has_number-emit (suc n) n [] (omega arith)) in
    rw e at p

pub stoull-print_nat : (n : ℕ) → n < 2 ^ 64 → stoull (print_nat n) ≡ some n
unfolding stoull word_of
stoull-print_nat n h = rw ((signed-print_nat n).0, stoull) (ground arith)

pub stoi-print_int : (i : ℤ) → IsInt i → stoi (print_int i) ≡ some i
unfolding stoi int_of print_int
stoi-print_int (pos n) h = rw ((signed-print_nat n).0, stoi) (ground arith)
stoi-print_int (negsuc n) h = rw ((signed-print_nat (suc n)).1, stoi) (ground arith)

until-field : (d : ℕ) (xs ys : Bytes) → has_byte d xs ≡ false → until d (xs ++ d ∷ ys) ≡ (xs, ys)
unfolding until
until-field d [] ys h = ground arith
until-field d (b ∷ xs) ys h = ground (arith, until-field d xs ys)

until-end : (d : ℕ) (xs : Bytes) → has_byte d xs ≡ false → until d xs ≡ (xs, [])
unfolding until
until-end d [] h = refl
until-end d (b ∷ xs) h = ground (arith, until-end d xs)

-- A line that its delimiter ends.
pub get_line-field :
    (d : ℕ) (xs ys : Bytes) → has_byte d xs ≡ false → get_line d (xs ++ d ∷ ys) ≡ some (xs, ys)
unfolding get_line
get_line-field d [] ys h = ap some (until-field d [] ys h)
get_line-field d (b ∷ xs) ys h = ap some (until-field d (b ∷ xs) ys h)

-- A line that the end of the text ends.
pub get_line-end :
    (d : ℕ) (b : ℕ) (xs : Bytes)
    → has_byte d (b ∷ xs) ≡ false
    → get_line d (b ∷ xs) ≡ some (b ∷ xs, [])
unfolding get_line
get_line-end d b xs h = ap some (until-end d (b ∷ xs) h)

pub get_line-print_nat :
    (d n : ℕ) (ys : Bytes)
    → is_delimiter d ≡ true
    → get_line d (print_nat n ++ d ∷ ys) ≡ some (print_nat n, ys)
get_line-print_nat d n ys h = get_line-field d _ ys (has_byte-print_nat d n h)

pub get_line-print_int :
    (d : ℕ) (i : ℤ) (ys : Bytes)
    → is_delimiter d ≡ true
    → get_line d (print_int i ++ d ∷ ys) ≡ some (print_int i, ys)
get_line-print_int d i ys h = get_line-field d _ ys (has_byte-print_int d i h)

get_line-nonempty :
    (d : ℕ) (xs : Bytes)
    → has_number xs ≡ true
    → has_byte d xs ≡ false
    → get_line d xs ≡ some (xs, [])
get_line-nonempty d [] h e = ground arith
get_line-nonempty d (b ∷ xs) h e = get_line-end d b xs e

has_number-print_nat : (n : ℕ) → has_number (print_nat n) ≡ true
unfolding print_nat
has_number-print_nat n = has_number-emit (suc n) n [] (omega arith)

-- A printed integer at the end of the text.
pub get_line-last_int :
    (d : ℕ) (i : ℤ) → is_delimiter d ≡ true → get_line d (print_int i) ≡ some (print_int i, [])
unfolding print_int
get_line-last_int d (pos n) h =
    get_line-nonempty d _ (has_number-print_nat n) (has_byte-print_nat d n h)
get_line-last_int d (negsuc n) h = get_line-end d b'-' _ (has_byte-print_int d (negsuc n) h)

pub read_exactly-append : (xs ys : Bytes) → read_exactly (length xs) (xs ++ ys) ≡ some (xs, ys)
unfolding read_exactly
read_exactly-append xs ys =
    grind (arith, length-append xs ys, take-append_left xs ys, drop-append_left xs ys)

pub read_string-append :
    (memory : Memory) (xs ys : Bytes)
    → length xs ≤ memory.string_limit
    → read_string memory (length xs) (xs ++ ys) ≡ some (xs, ys)
unfolding read_string
read_string-append memory xs ys h = ground (arith, read_exactly-append xs ys)
