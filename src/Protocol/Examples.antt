-- ===== src/Protocol/Examples.antt =====
-- Messages and texts written, and read back.
use afsim_ns.Base.{ℕ, ◌≡◌, refl, [], ◌∷◌, ◌++◌, codes, ok, false, arith}
use afsim_ns.Double.{fixed_point}
use afsim_ns.Json.{read_string, read_uint64}
use afsim_ns.Protocol.State.{DeltaState}
use afsim_ns.Protocol.Write.{
  quote_body, decimal, build_init_message, build_delta_message, write_strings,
}
use afsim_ns.Protocol.Framing.{IsPlain, messages-IsPlain}
use afsim_ns.Protocol.RoundTrip.{read_string-quote_body, read_uint64-decimal}
use afsim_ns.Protocol.Samples.{tank, traffic}

strings : write_strings (codes "a\"b" ∷ codes "c" ∷ []) ≡ codes "[\"a\\\"b\",\"c\"]"
unfolding write_strings
strings = refl

control_byte : quote_body (1 ∷ 31 ∷ []) ≡ codes "\\u0001\\u001f"
unfolding quote_body
control_byte = refl

abbrev moved : DeltaState fixed_point
moved = record {
  entity_upserts = tank (codes "1") 90 ∷ [];
  entity_removals = codes "2" ∷ [];
  flow_upserts = traffic (codes "f") 10 ∷ [];
  flow_removals = [];
}

print-IsPlain : (value : ℕ) → IsPlain (fixed_point.print value)
print-IsPlain value = record { bytes = (omega arith, tt) }

messages-IsPlain_example :
    IsPlain (
      build_init_message fixed_point
        (10 ∷ codes "r")
        7
        (tank (codes "1") 0 ∷ [])
        (traffic (codes "f") 10 ∷ []))
    × IsPlain (build_delta_message fixed_point (10 ∷ codes "r") 7 moved)
messages-IsPlain_example =
    messages-IsPlain fixed_point print-IsPlain (10 ∷ codes "r") 7 (tank (codes "1") 0 ∷ [])
      (traffic (codes "f") 10 ∷ []) moved

read_string-quote_body_example :
    read_string false (quote_body (b'"' ∷ 10 ∷ codes "x") ++ b'"' ∷ codes ",1") (codes "k")
    ≡ ok (codes "k" ++ b'"' ∷ 10 ∷ codes "x")
read_string-quote_body_example =
    read_string-quote_body (b'"' ∷ 10 ∷ codes "x") (codes ",1") (codes "k")
      (refl, (refl, (refl, tt)))

read_uint64-decimal_example : read_uint64 (decimal 1800 ++ codes ",") 0 ≡ ok 1800
read_uint64-decimal_example = read_uint64-decimal 1800 (codes ",") (omega arith) refl
