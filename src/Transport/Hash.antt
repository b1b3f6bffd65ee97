-- ===== src/Transport/Hash.antt =====
-- `HashText` and `UnitDraw`: a 64-bit FNV-1a hash of the pair, the serial and the revision, whose
-- upper 53 bits are a number from [0, 1).
use afsim_ns.Base.{ℕ, zero, suc, ◌*◌, ◌/◌, ◌%◌, ◌^◌, [], ◌∷◌, Bytes}
use Prim.Native.Nat.{bit_xor}
use afsim_ns.Double.{Double}

abbrev pub prime : ℕ
prime = 1099511628211

abbrev pub offset_basis : ℕ
offset_basis = 1469598103934665603

-- `hash ^= byte; hash *= prime;`
unfoldable pub mix : ℕ → ℕ → ℕ
mix hash byte = bit_xor hash byte * prime % 2 ^ 64

unfoldable pub hash_text : ℕ → Bytes → ℕ
unfolding mix
hash_text hash [] = hash
hash_text hash (character ∷ text) = hash_text (mix hash character) text

-- `static_cast<unsigned char>((word >> (index * 8)) & 0xffU)`
unfoldable pub byte_of : ℕ → ℕ → ℕ
byte_of word index = word / 2 ^ (index * 8) % 256

-- The loop of eight rounds, from round `index`.
unfoldable pub hash_words : ℕ → ℕ → ℕ → ℕ → ℕ → ℕ
unfolding mix byte_of
hash_words zero index hash message_serial revision = hash
hash_words (suc rounds) index hash message_serial revision =
    hash_words rounds (suc index)
      (mix (mix hash (byte_of message_serial index)) (byte_of revision index)) message_serial
      revision

unfoldable pub draw_bits : Bytes → Bytes → ℕ → ℕ → ℕ
unfolding hash_text hash_words
draw_bits source_entity_id target_entity_id message_serial revision =
    hash_words 8 0 (hash_text (hash_text offset_basis source_entity_id) target_entity_id)
      message_serial revision
    / 2 ^ 11

unfoldable pub unit_draw : (d : Double) → Bytes → Bytes → ℕ → ℕ → d.F
unfolding draw_bits
unit_draw d source_entity_id target_entity_id message_serial revision =
    d.divide (d.of_uint64 (draw_bits source_entity_id target_entity_id message_serial revision))
      (d.of_uint64 (2 ^ 53))
