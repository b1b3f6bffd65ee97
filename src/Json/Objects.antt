-- ===== src/Json/Objects.antt =====
-- The loop of `ObjectArray` ends: the fuel of its model is enough.
use afsim_ns.Base.{
  ℕ, zero, suc, ◌+◌, ◌-◌, ◌≤◌, ◌<◌, ◌≡◌, ◌≢◌, ap, ◌∙◌, ◌&&◌, not, List, [], ◌∷◌, Bytes, arith, ltb,
  ◌==◌, ok, err, Option, none, some, Bool-cases, Result-cases, Option-cases, inl, inr, length, drop,
  length-drop,
}
use afsim_ns.Json.Error.{Json, JsonError, out_of_fuel}
use afsim_ns.Json.Text.{byte_at}
use afsim_ns.Json.Field.{value_start, after_key, after_colon}
use afsim_ns.Json.Array.{
  Scan, scan_byte, scan_end, matching_end, skip_separators, objects_from, json_object_array,
}

skip_separators_le : (s : Bytes) (n position : ℕ) → position ≤ skip_separators s n position
unfolding skip_separators
skip_separators_le s zero position = ground arith
skip_separators_le [] (suc n) position = ground arith
skip_separators_le (c ∷ s) (suc n) position = ground (arith, skip_separators_le s n (suc position))

-- The same exception, where another type was to be returned.
rethrown :
    {A B : Type 0} {x y : JsonError}
    → ◌≡◌ {A = Json A} (err x) (err y)
    → ◌≡◌ {A = Json B} (err x) (err y)
rethrown {x = x} {y = y} e = let same : x ≡ y = cc in ap err same

-- A place that is found lies within the text.
scan_end_bounds :
    (opening closing : ℕ) (s : Scan) (text : Bytes) (position end : ℕ)
    → scan_end opening closing s text position ≡ ok end
    → (position ≤ end) × (end < position + length text)
unfolding scan_end
scan_end_bounds opening closing s [] position end e = cc
scan_end_bounds opening closing s (c ∷ text) position end e =
    elim (Option-cases (scan_byte opening closing s c)) [
      | inl p ↦ ground (arith, e, p)
      | inr (t, p) ↦ ground (
        arith,
        p,
        scan_end_bounds opening closing t text (suc position) end (rw (p, scan_end) at e),
      )
    ]

scan_end-fueled :
    (opening closing : ℕ) (s : Scan) (text : Bytes) (position : ℕ)
    → scan_end opening closing s text position ≢ err out_of_fuel
unfolding scan_end
scan_end-fueled opening closing s [] position e = cc
scan_end-fueled opening closing s (c ∷ text) position e =
    elim (Option-cases (scan_byte opening closing s c)) [
      | inl p ↦ ground (arith, e, p)
      | inr (t, p) ↦ scan_end-fueled opening closing t text (suc position) (rw (p, scan_end) at e)
    ]

matching_end_bounds :
    (json : Bytes) (begin opening closing end : ℕ)
    → matching_end json begin opening closing ≡ ok end
    → (begin ≤ end) × (end < length json)
unfolding matching_end
matching_end_bounds json begin opening closing end e =
    ground (
      arith,
      scan_end_bounds opening closing _ (drop begin json) begin end e,
      length-drop begin json,
    )

matching_end-fueled :
    (json : Bytes) (begin opening closing : ℕ)
    → matching_end json begin opening closing ≢ err out_of_fuel
unfolding matching_end
matching_end-fueled json begin opening closing =
    scan_end-fueled opening closing _ (drop begin json) begin

after_colon-fueled :
    (json key : Bytes) (colon : Option ℕ) → after_colon json key colon ≢ err out_of_fuel
unfolding after_colon
after_colon-fueled json key none e = cc
after_colon-fueled json key (some colon) e = cc

after_key-fueled :
    (json key : Bytes) (position : Option ℕ) → after_key json key position ≢ err out_of_fuel
unfolding after_key
after_key-fueled json key none e = cc
after_key-fueled json key (some position) e = after_colon-fueled json key _ e

value_start-fueled : (json key : Bytes) (begin : ℕ) → value_start json key begin ≢ err out_of_fuel
unfolding value_start
value_start-fueled json key begin e = after_key-fueled json key _ e

objects_from-fueled :
    (fuel : ℕ) (key json : Bytes) (array_end position : ℕ) (objects : List Bytes)
    → array_end - position < fuel
    → objects_from fuel key json array_end position objects ≢ err out_of_fuel
unfolding objects_from
objects_from-fueled zero key json array_end position objects h = absurd (omega arith)
objects_from-fueled (suc fuel) key json array_end position objects h =
    let start : ℕ = skip_separators (drop position json) (array_end - position) position in
    let forward : position ≤ start =
      skip_separators_le (drop position json) (array_end - position) position in
    elim (Bool-cases (ltb position array_end && not (start == array_end))) [
      | inr b ↦ rw (b, objects_from) (λ e. cc)
      | inl b ↦ elim (Bool-cases (byte_at json start b'{')) [
        | inr o ↦ rw (b, o, objects_from) (λ e. cc)
        | inl o ↦ elim (Result-cases (matching_end json start b'{' b'}')) [
          | inr (x, m) ↦
              rw (b, o, m, objects_from)
                (λ e. matching_end-fueled json start b'{' b'}' (m ∙ rethrown e))
          | inl (end, m) ↦
              let (after, _) = matching_end_bounds json start b'{' b'}' end m in
              rw (b, o, m, objects_from)
                (objects_from-fueled fuel key json array_end (end + 1) _
                  (ground (arith, after, forward, b)))
        ]
      ]
    ]

-- For every line and every key, the loop that reads an array of objects ends within the rounds
-- that the fuel of its model allows.
pub json_object_array-ends : (json key : Bytes) → json_object_array json key ≢ err out_of_fuel
unfolding json_object_array
json_object_array-ends json key = elim (Result-cases (value_start json key 0)) [
  | inr (x, v) ↦ rw (v, json_object_array) (λ e. value_start-fueled json key 0 (v ∙ rethrown e))
  | inl (position, v) ↦ elim (Bool-cases (byte_at json position b'[')) [
    | inr o ↦ rw (v, o, json_object_array) (λ e. cc)
    | inl o ↦ elim (Result-cases (matching_end json position b'[' b']')) [
      | inr (x, m) ↦
          rw (v, o, m, json_object_array)
            (λ e. matching_end-fueled json position b'[' b']' (m ∙ rethrown e))
      | inl (array_end, m) ↦
          let (_, inside) = matching_end_bounds json position b'[' b']' array_end m in
          rw (v, o, m, json_object_array)
            (objects_from-fueled (length json + 1) key json array_end (position + 1) []
              (omega arith))
    ]
  ]
]
