-- ===== src/Transport/Draw.antt =====
-- The draw of a message lies in [0, 1).
use afsim_ns.Base.{ℕ, zero, suc, ◌^◌, ◌<◌, ◌≡◌, [], ◌∷◌, Bytes, arith, true, false}
use afsim_ns.Double.{Double, Laws}
use afsim_ns.Transport.Hash.{
  mix, hash_text, hash_words, byte_of, draw_bits, unit_draw, offset_basis,
}

mix-lt : (hash byte : ℕ) → mix hash byte < 2 ^ 64
unfolding mix
mix-lt hash byte = omega arith

hash_text-lt : (hash : ℕ) (text : Bytes) → hash < 2 ^ 64 → hash_text hash text < 2 ^ 64
unfolding hash_text
hash_text-lt hash [] h = h
hash_text-lt hash (c ∷ text) h = hash_text-lt (mix hash c) text (mix-lt hash c)

hash_words-lt :
    (rounds index hash serial revision : ℕ)
    → hash < 2 ^ 64
    → hash_words rounds index hash serial revision < 2 ^ 64
unfolding hash_words
hash_words-lt zero index hash serial revision h = h
hash_words-lt (suc rounds) index hash serial revision h =
    hash_words-lt rounds (suc index)
      (mix (mix hash (byte_of serial index)) (byte_of revision index)) serial revision (mix-lt _ _)

pub draw_bits-lt :
    (source target : Bytes) (serial revision : ℕ) → draw_bits source target serial revision < 2 ^ 53
unfolding draw_bits
draw_bits-lt source target serial revision =
    let text_lt : hash_text offset_basis source < 2 ^ 64 =
      hash_text-lt offset_basis source (omega arith) in
    let h =
      hash_words-lt 8 0 (hash_text (hash_text offset_basis source) target) serial revision
        (hash_text-lt _ target text_lt) in
    omega arith

-- Where doubles obey the laws, the draw for any message is at least 0 and below 1.
pub unit_draw_bounds :
    (d : Double)
    → Laws d
    → (source target : Bytes) (serial revision : ℕ)
    → (d.less (unit_draw d source target serial revision) d.nought ≡ false)
      × (d.less (unit_draw d source target serial revision) d.unit ≡ true)
unfolding unit_draw
unit_draw_bounds d laws source target serial revision =
    laws.draw_bounds (draw_bits source target serial revision)
      (draw_bits-lt source target serial revision)
