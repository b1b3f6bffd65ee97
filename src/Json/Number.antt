-- ===== src/Json/Number.antt =====
-- The digit loop of `JsonUint64` against the value of the digits.
use afsim_ns.Base.{
  ℕ, ◌+◌, ◌-◌, ◌*◌, ◌/◌, ◌≤◌, ◌≡◌, List, [], ◌∷◌, Bytes, arith, leb, ltb, if◌then◌else◌, ok, err,
  ◌&&◌,
}
use afsim_ns.Json.Error.{integer_range}
use afsim_ns.Json.Text.{is_digit}
use afsim_ns.Json.Field.{read_uint64, u64_max}

-- The digits at the head of a text.
abbrev pub digit_prefix : Bytes → List ℕ
digit_prefix [] = []
digit_prefix (c ∷ s) =
    let rest = digit_prefix s in if leb b'0' c && leb c b'9' then (c - b'0') ∷ rest else []

-- The number that the digits continue.
abbrev pub number : ℕ → List ℕ → ℕ
number value [] = value
number value (digit ∷ digits) = number (value * 10 + digit) digits

number_grows : (value : ℕ) (digits : List ℕ) → value ≤ number value digits
number_grows value [] = omega arith
number_grows value (digit ∷ digits) = omega (arith, number_grows (value * 10 + digit) digits)

range_test :
    (value digit : ℕ)
    → digit ≤ 9
    → value ≤ u64_max
    → ltb ((u64_max - digit) / 10) value ≡ ltb u64_max (value * 10 + digit)
range_test value digit h k = ground arith

-- From a value that fits, the loop returns the number that the digits at the head of the text
-- continue if it is below 2^64, and throws if it is not.
pub read_uint64_lem :
    (s : Bytes) (value : ℕ)
    → value ≤ u64_max
    → read_uint64 s value ≡ (
        if leb (number value (digit_prefix s)) u64_max
        then ok (number value (digit_prefix s))
        else err integer_range)
unfolding read_uint64 is_digit
read_uint64_lem [] value h = ground arith
read_uint64_lem (c ∷ s) value h = ground (
  arith,
  range_test value (c - b'0'),
  number_grows (value * 10 + (c - b'0')) (digit_prefix s),
  read_uint64_lem s (value * 10 + (c - b'0')),
)
