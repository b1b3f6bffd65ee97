-- ===== src/Json/Array.antt =====
-- `MatchingEnd` and `ObjectArray` (`EffectObjects` in the other gate, with the key "effects").
use afsim_ns.Base.{
  ℕ, zero, suc, ◌+◌, ◌-◌, Bool, true, false, ◌&&◌, ◌||◌, not, Option, none, some, List, [], ◌∷◌,
  ◌++◌, Bytes, ltb, ◌==◌, if◌then◌else◌, drop, take, length, ok, err, ◌>>=◌,
}
use afsim_ns.Base.Int.{ℤ, pos, increment, decrement, is_zero}
use afsim_ns.Json.Error.{Json, unterminated_container, not_an_array, not_objects, out_of_fuel}
use afsim_ns.Json.Text.{is_space, byte_at}
use afsim_ns.Json.Field.{value_start}

pub record Scan : Type 0 where
  pub depth : ℤ
  pub in_string : Bool
  pub escaped : Bool

-- One byte of the loop: the state after it, or `none` where the loop returns the position.
unfoldable pub scan_byte : ℕ → ℕ → Scan → ℕ → Option Scan
scan_byte opening closing s c =
    if s.in_string
    then (if s.escaped
        then some (record s { escaped = false })
        else if c == b'\\'
        then some (record s { escaped = true })
        else if c == b'"'
        then some (record s { in_string = false })
        else some s)
    else if c == b'"'
    then some (record s { in_string = true })
    else if c == opening
    then some (record s { depth = increment s.depth })
    else if c == closing
    then (if is_zero (decrement s.depth)
        then none
        else some (record s { depth = decrement s.depth }))
    else some s

unfoldable pub scan_end : ℕ → ℕ → Scan → Bytes → ℕ → Json ℕ
unfolding scan_byte
scan_end opening closing s [] position = err unterminated_container
scan_end opening closing s (c ∷ rest) position = elim (scan_byte opening closing s c) [
  | none ↦ ok position
  | some t ↦ scan_end opening closing t rest (suc position)
]

unfoldable pub matching_end : Bytes → ℕ → ℕ → ℕ → Json ℕ
unfolding scan_end
matching_end json begin opening closing =
    scan_end opening closing (record { depth = pos 0; in_string = false; escaped = false })
      (drop begin json) begin

-- The inner `while`: blanks and commas before `array_end`. `n` is `array_end - position`.
unfoldable pub skip_separators : Bytes → ℕ → ℕ → ℕ
unfolding is_space
skip_separators s zero position = position
skip_separators [] (suc n) position = position
skip_separators (c ∷ s) (suc n) position =
    let later = skip_separators s n (suc position) in
    if is_space c || c == b',' then later else position

-- The outer `while` from `position`, on fuel.
unfoldable pub objects_from : ℕ → Bytes → Bytes → ℕ → ℕ → List Bytes → Json (List Bytes)
unfolding skip_separators byte_at matching_end
objects_from zero key json array_end position objects = err out_of_fuel
objects_from (suc fuel) key json array_end position objects =
    let start : ℕ = skip_separators (drop position json) (array_end - position) position in
    elim (ltb position array_end && not (start == array_end)) [
      | false ↦ ok objects
      | true ↦ elim (byte_at json start b'{') [
        | false ↦ err (not_objects key)
        | true ↦ elim (matching_end json start b'{' b'}') [
          | err e ↦ err e
          | ok end ↦
              objects_from fuel key json array_end (end + 1)
                (objects ++ take (end - start + 1) (drop start json) ∷ [])
        ]
      ]
    ]

-- Each round moves past at least one byte, so `size + 1` rounds are enough.
unfoldable pub json_object_array : Bytes → Bytes → Json (List Bytes)
unfolding value_start byte_at matching_end objects_from
json_object_array json key = do
  position ← value_start json key 0
  if byte_at json position b'['
      then (matching_end json position b'[' b']' >>= λ array_end.
          objects_from (length json + 1) key json array_end (position + 1) [])
      else err (not_an_array key)
