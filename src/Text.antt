-- ===== src/Text.antt =====
-- std::string as a list of bytes, and the parts of the C++ standard library that the codecs use:
-- decimal output of an int, std::stoi, std::stoull, and an std::istringstream read by std::getline
-- and read (its state is the text not yet read).
pub mod Scan
pub mod Numbers
use Prim.Native.Char.{code}
use Prim.Native.String.{String}
use my_raft_kvdb.Base.{
  ℕ, zero, suc, ◌+◌, ◌/◌, ◌%◌, ◌≡◌, refl, Bool, true, false, ◌&&◌, List, [], ◌∷◌, ltb, ◌==◌,
  if◌then◌else◌, ℤ, pos, negsuc,
}

abbrev pub Bytes : Type 0
Bytes = List ℕ

-- The bytes of an ASCII literal.
abbrev pub codes : String → Bytes
codes String.[] = []
codes (String.◌∷◌ c s) = code c ∷ codes s

-- operator== of std::string.
unfoldable pub same_bytes : Bytes → Bytes → Bool
same_bytes [] [] = true
same_bytes [] (c ∷ t) = false
same_bytes (b ∷ s) [] = false
same_bytes (b ∷ s) (c ∷ t) = b == c && same_bytes s t

-- The decimal digits of a number, most significant first, in front of `out`. A number has fewer
-- digits than one more than itself, which is the fuel.
unfoldable pub emit : ℕ → ℕ → Bytes → Bytes
emit zero n out = out
emit (suc fuel) n out =
    let rest = emit fuel (n / 10) ((b'0' + n % 10) ∷ out) in
    if ltb n 10 then (b'0' + n) ∷ out else rest

-- `oss << n` of a size_t.
unfoldable pub print_nat : ℕ → Bytes
unfolding emit
print_nat n = emit (suc n) n []

-- `oss << i` of an int.
unfoldable pub print_int : ℤ → Bytes
unfolding print_nat
print_int (pos n) = print_nat n
print_int (negsuc n) = b'-' ∷ print_nat (suc n)

print_int_tests :
    (print_int (pos 0) ≡ codes "0")
    × (print_int (negsuc 0) ≡ codes "-1")
    × (print_int (pos 1203) ≡ codes "1203")
unfolding print_int
print_int_tests = (refl, refl, refl)
