-- ===== src/Runner/Parse.antt =====
-- `SplitTabs` and the conversions. `std::stoull` and `std::stod` are the standard library's.
use afsim_ns.Base.{
  ℕ, ◌+◌, ◌-◌, ◌*◌, ◌%◌, ◌^◌, Bool, true, false, not, List, [], ◌∷◌, ◌++◌, Bytes, codes, Option,
  none, some, Result, ok, err, ◌>>=◌, ltb, ◌==◌, if◌then◌else◌, equals, bytes_ord, cmp_bytes,
}
use afsim_ns.Double.{Double}
use afsim_ns.Json.{is_space, is_digit}
use afsim_ns.Runner.Scenario.{RunnerError, uint32_range, not_zero_or_one, number_error}

-- `while (getline(stream, part, '\t'))`: the text behind the last tab is a part if it is not
-- empty.
unfoldable pub split_from : Bytes → Bytes → List Bytes
split_from [] [] = []
split_from (p ∷ part) [] = (p ∷ part) ∷ []
split_from part (c ∷ line) = elim (c == b'\t') [
  | true ↦ part ∷ split_from [] line
  | false ↦ split_from (part ++ c ∷ []) line
]

unfoldable pub split_tabs : Bytes → List Bytes
unfolding split_from
split_tabs line = split_from [] line

-- The digits at the head of a text; the flag says that one has been read.
unfoldable pub digits_value : Bool → ℕ → Bytes → Option ℕ
unfolding is_digit
digits_value seen value [] = if seen then some value else none
digits_value seen value (c ∷ s) =
    let more = digits_value true (value * 10 + (c - b'0')) s in
    if is_digit c then more else if seen then some value else none

-- The range of `unsigned long long`; a sign is applied in it.
unfoldable pub in_range : Bool → Option ℕ → Option ℕ
in_range negative none = none
in_range negative (some value) =
    if not (ltb value (2 ^ 64))
    then none
    else some (if negative then (2 ^ 64 - value) % 2 ^ 64 else value)

unfoldable pub signed_digits : Bytes → Option ℕ
unfolding in_range digits_value
signed_digits [] = none
signed_digits (c ∷ s) =
    if c == b'-'
    then in_range true (digits_value false 0 s)
    else if c == b'+'
    then in_range false (digits_value false 0 s)
    else in_range false (digits_value false 0 (c ∷ s))

unfoldable pub trim_left : Bytes → Bytes
unfolding is_space
trim_left [] = []
trim_left (c ∷ s) = let rest = trim_left s in if is_space c then rest else c ∷ s

-- `std::stoull(value)`; `none` where it throws
unfoldable pub stoull : Bytes → Option ℕ
unfolding signed_digits trim_left
stoull value = signed_digits (trim_left value)

unfoldable pub or_throw {ℓ} : {A : Type ℓ} → Option A → Result RunnerError A
or_throw none = err number_error
or_throw (some a) = ok a

unfoldable pub to_uint64 : Bytes → Result RunnerError ℕ
unfolding stoull or_throw
to_uint64 value = or_throw (stoull value)

unfoldable pub to_uint32 : Bytes → Result RunnerError ℕ
unfolding to_uint64
to_uint32 value =
    to_uint64 value >>= λ parsed. if ltb (2 ^ 32 - 1) parsed then err uint32_range else ok parsed

unfoldable pub to_double : (d : Double) → Bytes → Result RunnerError d.F
unfolding or_throw
to_double d value = or_throw (d.parse value) >>= λ (parsed, consumed). ok parsed

unfoldable pub to_bool : Bytes → Result RunnerError Bool
unfolding cmp_bytes
to_bool value =
    if equals value (codes "1")
    then ok true
    else if equals value (codes "0")
    then ok false
    else err not_zero_or_one
