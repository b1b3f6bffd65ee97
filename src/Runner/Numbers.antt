-- ===== src/Runner/Numbers.antt =====
-- `std::stoull` and `ToUint32` on decimal texts.
use afsim_ns.Base.{
  ℕ, zero, suc, ◌+◌, ◌-◌, ◌*◌, ◌/◌, ◌%◌, ◌^◌, ◌≤◌, ◌≡◌, refl, ◌∙◌, true, [], ◌∷◌, Bytes, arith, leb,
  ltb, if◌then◌else◌, none, some, Bool-cases, inl, inr, ok, err,
}
use afsim_ns.Json.{is_digit, is_space, u64_max}
use afsim_ns.Json.Number.{digit_prefix, number}
use afsim_ns.Protocol.{decimal, decimal_from}
use afsim_ns.Protocol.RoundTrip.{number-decimal_from}
use afsim_ns.Runner.Scenario.{uint32_range}
use afsim_ns.Runner.Parse.{
  digits_value, in_range, signed_digits, trim_left, stoull, or_throw, to_uint64, to_uint32,
}

digits_value-seen :
    (value : ℕ) (s : Bytes) → digits_value true value s ≡ some (number value (digit_prefix s))
unfolding digits_value is_digit
digits_value-seen value [] = refl
digits_value-seen value (c ∷ s) = ground (arith, digits_value-seen (value * 10 + (c - b'0')) s)

-- The text begins with a digit.
abbrev HasDigit : Bytes → Type 0
HasDigit [] = ⊥
HasDigit (c ∷ s) = (b'0' ≤ c) × (c ≤ b'9')

decimal_from-HasDigit :
    (digits n : ℕ) (tail : Bytes) → HasDigit tail → HasDigit (decimal_from digits n tail)
unfolding decimal_from
decimal_from-HasDigit zero n tail h = h
decimal_from-HasDigit (suc digits) n tail h = elim (Bool-cases (ltb n 10)) [
  | inl e ↦ rw (e, decimal_from) (ground arith)
  | inr e ↦
      rw (e, decimal_from) (decimal_from-HasDigit digits (n / 10) _ (omega arith, omega arith))
]

decimal-HasDigit : (n : ℕ) → HasDigit (decimal n)
unfolding decimal decimal_from
decimal-HasDigit n = elim (Bool-cases (ltb n 10)) [
  | inl e ↦ rw (e, decimal, decimal_from) (ground arith)
  | inr e ↦
      rw (e, decimal, decimal_from)
        (decimal_from-HasDigit 19 (n / 10) ((b'0' + n % 10) ∷ []) (omega arith, omega arith))
]

stoull-digits :
    (s : Bytes)
    → HasDigit s
    → stoull s ≡ (
        if ltb (number 0 (digit_prefix s)) (2 ^ 64) then some (number 0 (digit_prefix s)) else none)
unfolding stoull trim_left signed_digits digits_value is_digit is_space in_range
stoull-digits [] h = absurd h
stoull-digits (c ∷ s) h = ground (arith, digits_value-seen (0 * 10 + (c - b'0')) s)

decimal-value : (n : ℕ) → n ≤ u64_max → number 0 (digit_prefix (decimal n)) ≡ n
unfolding decimal
decimal-value n h = number-decimal_from 20 n [] (omega arith)

-- A number below 2^64 that is written in decimal is read back by `ToUint64` as it was, and by
-- `ToUint32` too, which throws if the number is not below 2^32.
to_uint64-decimal :
    (n : ℕ)
    → n ≤ u64_max
    → (to_uint64 (decimal n) ≡ ok n)
      × (to_uint32 (decimal n) ≡ (if leb n (2 ^ 32 - 1) then ok n else err uint32_range))
unfolding to_uint32 to_uint64 or_throw
to_uint64-decimal n h =
    let value : stoull (decimal n) ≡ some n =
      stoull-digits (decimal n) (decimal-HasDigit n) ∙ rw (decimal-value n h) (ground arith) in
    rw (value, to_uint64, to_uint32) (refl, ground arith)
