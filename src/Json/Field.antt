-- ===== src/Json/Field.antt =====
-- Reading one field of a line: `ValueStart`, `JsonString`, `JsonUint64`, `JsonDouble`, `JsonBool`.
use afsim_ns.Base.{
  ℕ, ◌+◌, ◌-◌, ◌*◌, ◌/◌, ◌^◌, Bool, true, false, ◌||◌, not, Option, none, some, [], ◌∷◌, ◌++◌,
  Bytes, codes, ltb, ◌==◌, if◌then◌else◌, drop, length, ok, err, ◌>>=◌,
}
use afsim_ns.Double.{Double}
use afsim_ns.Json.Error.{
  Json, missing_field, invalid_field, not_a_string, not_an_integer, not_a_number, not_a_boolean,
  integer_range, unsupported_escape, unterminated_string, conversion,
}
use afsim_ns.Json.Text.{find, starts_with, skip_space, is_space, is_digit, byte_at}

-- `'"' + key + '"'`
abbrev quoted : Bytes → Bytes
quoted key = b'"' ∷ (key ++ b'"' ∷ [])

unfoldable pub after_colon : Bytes → Bytes → Option ℕ → Json ℕ
unfolding skip_space is_space
after_colon json key none = err (invalid_field key)
after_colon json key (some colon) = ok (skip_space (drop (colon + 1) json) (colon + 1))

unfoldable pub after_key : Bytes → Bytes → Option ℕ → Json ℕ
unfolding find after_colon
after_key json key none = err (missing_field key)
after_key json key (some position) =
    after_colon json key (find (b':' ∷ []) json (position + length (quoted key)))

unfoldable pub value_start : Bytes → Bytes → ℕ → Json ℕ
unfolding find after_key
value_start json key begin = after_key json key (find (quoted key) json begin)

-- The byte for which an escape letter stands; `none` is the `default` of the switch.
unfoldable pub unescape : ℕ → Option ℕ
unescape c =
    if c == b'"' || c == b'\\' || c == b'/'
    then some c
    else if c == b'b'
    then some 8
    else if c == b'f'
    then some 12
    else if c == b'n'
    then some 10
    else if c == b'r'
    then some 13
    else if c == b't'
    then some 9
    else none

-- The loop of `JsonString` from behind the opening quote. The flag says that a backslash has
-- been read.
unfoldable pub read_string : Bool → Bytes → Bytes → Json Bytes
read_string escaped [] result = err unterminated_string
read_string false (c ∷ s) result = elim (c == b'"') [
  | true ↦ ok result
  | false ↦ elim (c == b'\\') [
    | true ↦ read_string true s result
    | false ↦ read_string false s (result ++ c ∷ [])
  ]
]
read_string true (c ∷ s) result = elim (unescape c) [
  | none ↦ err unsupported_escape
  | some d ↦ read_string false s (result ++ d ∷ [])
]

unfoldable pub json_string : Bytes → Bytes → Json Bytes
unfolding value_start byte_at read_string unescape
json_string json key = do
  position ← value_start json key 0
  if byte_at json position b'"'
      then read_string false (drop (position + 1) json) []
      else err (not_a_string key)

-- `UINT64_MAX`
abbrev pub u64_max : ℕ
u64_max = 2 ^ 64 - 1

-- The digit loop of `JsonUint64`; `value * 10 + digit` stays below 2^64 by the test before it.
unfoldable pub read_uint64 : Bytes → ℕ → Json ℕ
read_uint64 [] value = ok value
read_uint64 (c ∷ s) value =
    let digit : ℕ = c - b'0' in
    let rest = read_uint64 s (value * 10 + digit) in
    if not (is_digit c)
    then ok value
    else if ltb ((u64_max - digit) / 10) value
    then err integer_range
    else rest

starts_with_digit : Bytes → Bool
unfolding is_digit
starts_with_digit [] = false
starts_with_digit (c ∷ s) = is_digit c

unfoldable pub json_uint64 : Bytes → Bytes → Json ℕ
unfolding value_start starts_with_digit read_uint64
json_uint64 json key = do
  position ← value_start json key 0
  if starts_with_digit (drop position json)
      then read_uint64 (drop position json) 0
      else err (not_an_integer key)

-- `json.compare(position, n, "true") == 0`
unfoldable pub json_bool : Bytes → Bytes → Json Bool
unfolding value_start starts_with
json_bool json key = do
  position ← value_start json key 0
  if starts_with (codes "true") (drop position json)
      then ok true
      else if starts_with (codes "false") (drop position json)
      then ok false
      else err (not_a_boolean key)

module _ (d : Double) where
  checked_double : Bytes → Option (d.F × ℕ) → Json d.F
  checked_double key none = err conversion
  checked_double key (some (value, consumed)) =
      if consumed == 0 || not (d.is_finite value) then err (not_a_number key) else ok value

  unfoldable pub json_double : Bytes → Bytes → Json d.F
  unfolding value_start checked_double
  json_double json key = do
    begin ← value_start json key 0
    checked_double key (d.parse (drop begin json))
