-- ===== src/Double.antt =====
-- The C++ type `double`, and what of it and of its text the program uses. The operations are
-- those of the compiler and of the standard library; the laws hold of IEEE 754 arithmetic.
pub mod Math
use afsim_ns.Base.{
  ℕ, ◌*◌, ◌/◌, ◌^◌, ◌<◌, ◌≡◌, refl, Bool, true, false, Option, none, some, arith, Bytes, ltb, ◌==◌,
  if◌then◌else◌, [], ◌∷◌, ◌+◌, ◌-◌, leb, ◌&&◌,
}

pub record Double : Type 1 where
  pub F : Type 0
  -- 0.0 and 1.0
  pub nought : F
  pub unit : F
  -- `<` and `==`; both fail where an operand is not a number
  pub less : F → F → Bool
  pub same : F → F → Bool
  pub is_finite : F → Bool
  -- `static_cast<double>(n)`, `/` and `*`
  pub of_uint64 : ℕ → F
  pub divide : F → F → F
  pub times : F → F → F
  -- `std::stod` with the count of bytes that it read; `none` where it throws
  pub parse : Bytes → Option (F × ℕ)
  -- `output << std::setprecision(15) << value`
  pub print : F → Bytes

module _ (d : Double) where
  open d use {F, less}

  -- `std::max(a, b)` and `std::min(a, b)`
  abbrev pub fmax : F → F → F
  fmax a b = if less a b then b else a

  abbrev pub fmin : F → F → F
  fmin a b = if less b a then b else a

  -- `a >= b`
  abbrev pub at_least : F → F → Bool
  at_least a b = if less b a then true else d.same a b

  pub record Laws : Type 0 where
    pub irrefl : (a : F) → less a a ≡ false
    pub trans : (a b c : F) → less a b ≡ true → less b c ≡ true → less a c ≡ true
    pub less_not_same : (a b : F) → less a b ≡ true → d.same a b ≡ false
    pub same_refl_unit : d.same d.unit d.unit ≡ true
    pub nought_less_unit : less d.nought d.unit ≡ true
    -- A quotient of an integer below 2^53 by 2^53 is exact.
    pub draw_bounds :
        (n : ℕ)
        → n < 2 ^ 53
        → (less (d.divide (d.of_uint64 n) (d.of_uint64 (2 ^ 53))) d.nought ≡ false)
          × (less (d.divide (d.of_uint64 n) (d.of_uint64 (2 ^ 53))) d.unit ≡ true)

-- Decimal digits at the head of a text: their value and their number.
unfoldable pub read_digits : Bytes → ℕ → ℕ → ℕ × ℕ
read_digits [] value count = (value, count)
read_digits (c ∷ s) value count =
    let rest = read_digits s (value * 10 + (c - b'0')) (count + 1) in
    if leb b'0' c && leb c b'9' then rest else (value, count)

-- Whole numbers and multiples of 2^-53, for examples: the number n stands for n / 2^53.
abbrev pub fixed_point : Double
fixed_point = record {
  F = ℕ;
  nought = 0;
  unit = 2 ^ 53;
  less = ltb;
  same = ◌==◌;
  is_finite = λ _. true;
  of_uint64 = λ n. n * 2 ^ 53;
  divide = λ a b. a * 2 ^ 53 / b;
  times = λ a b. a * b / 2 ^ 53;
  parse = λ s.
      let (value, count) = read_digits s 0 0 in
      if count == 0 then none else some (value * 2 ^ 53, count);
  print = λ _. b'0' ∷ [];
}

draw_lem : (n : ℕ) → n < 2 ^ 53 → (n * 2 ^ 53 * 2 ^ 53 / (2 ^ 53 * 2 ^ 53)) ≡ n
draw_lem n h = omega arith

pub fixed_point-Laws : Laws fixed_point
fixed_point-Laws = record {
  irrefl = λ a. ground arith;
  trans = λ a b c h k. ground arith;
  less_not_same = λ a b h. ground arith;
  same_refl_unit = refl;
  nought_less_unit = refl;
  draw_bounds = λ n h. (ground (arith, draw_lem n h), ground (arith, draw_lem n h));
}
