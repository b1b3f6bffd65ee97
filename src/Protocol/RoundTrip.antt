-- ===== src/Protocol/RoundTrip.antt =====
-- What the writers write, the scanner of Json.antt reads back.
use afsim_ns.Base.{
  ℕ, zero, suc, ◌+◌, ◌-◌, ◌/◌, ◌%◌, ◌^◌, ◌≤◌, ◌<◌, ◌≡◌, refl, sym, ap, ◌∙◌, Bool, true, false, ◌||◌,
  [], ◌∷◌, ◌++◌, append-nil, append_assoc, Bytes, arith, leb, ltb, ◌==◌, ok, All, Bool-cases, inl,
  inr,
}
use afsim_ns.Json.{read_string, unescape, read_uint64, u64_max}
use afsim_ns.Json.Number.{digit_prefix, number, read_uint64_lem}
use afsim_ns.Protocol.Write.{quote_byte, quote_body, decimal_from, decimal}

-- A byte that `Quote` writes without a `\u` escape.
abbrev pub is_readable : ℕ → Bool
is_readable c = leb 0x20 c || c == 8 || c == 12 || c == 10 || c == 13 || c == 9

read_quote_byte :
    (c : ℕ) (rest result : Bytes)
    → is_readable c ≡ true
    → read_string false (quote_byte c ++ rest) result ≡ read_string false rest (result ++ c ∷ [])
unfolding read_string unescape quote_byte
read_quote_byte c rest result h = ground arith

-- A text of bytes that are not control bytes, or are among backspace, form feed, line feed,
-- carriage return and tab, is read back as it was: the scanner stops at the quote that closes it,
-- whatever follows.
pub read_string-quote_body :
    (value rest result : Bytes)
    → All (λ c. is_readable c ≡ true) value
    → read_string false (quote_body value ++ b'"' ∷ rest) result ≡ ok (result ++ value)
unfolding quote_body
read_string-quote_body [] rest result h = unfold read_string in ap ok (sym (append-nil result))
read_string-quote_body (c ∷ value) rest result h =
    ap (λ s. read_string false s result)
      (append_assoc (quote_byte c) (quote_body value) (b'"' ∷ rest))
    ∙ read_quote_byte c (quote_body value ++ b'"' ∷ rest) result h.0
    ∙ read_string-quote_body value rest (result ++ c ∷ []) h.1
    ∙ ap ok (append_assoc result (c ∷ []) value)

digit_prefix-cons :
    (k : ℕ) (tail : Bytes) → k < 10 → digit_prefix ((b'0' + k) ∷ tail) ≡ k ∷ digit_prefix tail
digit_prefix-cons k tail h = let back : (b'0' + k) - b'0' ≡ k = omega arith in ground (arith, back)

smaller : (digits n : ℕ) → n < 10 ^ suc digits → n / 10 < 10 ^ digits
smaller digits n h = omega arith

decimal_from-append :
    (digits n : ℕ) (tail rest : Bytes)
    → decimal_from digits n tail ++ rest ≡ decimal_from digits n (tail ++ rest)
unfolding decimal_from
decimal_from-append zero n tail rest = refl
decimal_from-append (suc digits) n tail rest = elim (Bool-cases (ltb n 10)) [
  | inl e ↦ rw (e, decimal_from) refl
  | inr e ↦ rw (e, decimal_from) (decimal_from-append digits (n / 10) ((b'0' + n % 10) ∷ tail) rest)
]

pub number-decimal_from :
    (digits n : ℕ) (tail : Bytes)
    → n < 10 ^ digits
    → number 0 (digit_prefix (decimal_from digits n tail)) ≡ number n (digit_prefix tail)
unfolding decimal_from
number-decimal_from zero n tail h = ap (λ m. number m (digit_prefix tail)) (omega arith)
number-decimal_from (suc digits) n tail h = elim (Bool-cases (ltb n 10)) [
  | inl e ↦
      rw (e, decimal_from, digit_prefix-cons n tail (ground arith))
        (ap (λ m. number m (digit_prefix tail)) (omega arith))
  | inr e ↦
      rw (e, decimal_from)
        (number-decimal_from digits (n / 10) ((b'0' + n % 10) ∷ tail) (smaller digits n h)
          ∙ ap (number (n / 10)) (digit_prefix-cons (n % 10) tail (omega arith))
          ∙ ap (λ m. number m (digit_prefix tail)) (omega arith))
]

-- A number below 2^64 that is written in decimal is read back as it was, where no digit follows.
pub read_uint64-decimal :
    (n : ℕ) (rest : Bytes)
    → n ≤ u64_max
    → digit_prefix rest ≡ []
    → read_uint64 (decimal n ++ rest) 0 ≡ ok n
unfolding decimal
read_uint64-decimal n rest h k =
    let value : number 0 (digit_prefix (decimal_from 20 n [] ++ rest)) ≡ n =
      ap (λ s. number 0 (digit_prefix s)) (decimal_from-append 20 n [] rest)
      ∙ number-decimal_from 20 n rest (omega arith)
      ∙ ap (number n) k in
    read_uint64_lem (decimal_from 20 n [] ++ rest) 0 (omega arith) ∙ rw value (ground arith)
