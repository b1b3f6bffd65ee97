-- ===== src/Double/Math.antt =====
-- What the conversions of coordinates and of the simulation's numbers use of <cmath> and of the
-- casts from `double`. The laws hold of IEEE 754 arithmetic, where `same` is `==`.
use afsim_ns.Base.{ℕ, ◌<◌, ◌≤◌, ◌≡◌, true, false, arith, Bytes, ◌∷◌, [], ◌+◌, ◌-◌, ◌/◌, ◌^◌, ◌*◌}
use afsim_ns.Double.{Double, fmax, at_least, fixed_point}

module _ (d : Double) where
  open d use {F, less}

  pub record Math : Type 0 where
    pub plus : F → F → F
    pub minus : F → F → F
    pub negate : F → F
    pub square_root : F → F
    pub sine : F → F
    pub cosine : F → F
    pub round : F → F
    -- `static_cast<std::uint64_t>(value)`; beyond 64 bits it is what the compiler gives
    pub to_uint64 : F → ℕ
    -- `std::to_string`
    pub to_text : F → Bytes
    -- 3.14159265358979323846, 6.6943799901413165e-3, 0.05 and 1.0E-9
    pub pi : F
    pub eccentricity_squared : F
    pub twentieth : F
    pub billionth : F

  module _ (m : Math) where
    -- What differs from itself by 0.0, and what 0.0 does as an operand.
    pub record ZeroLaws : Type 0 where
      pub minus_self : (a : F) → d.is_finite a ≡ true → d.same (m.minus a a) d.nought ≡ true
      pub times_zero :
          (a b : F)
          → d.is_finite a ≡ true
          → d.same b d.nought ≡ true
          → d.same (d.times a b) d.nought ≡ true
      pub plus_zero :
          (a b : F)
          → d.same a d.nought ≡ true
          → d.same b d.nought ≡ true
          → d.same (m.plus a b) d.nought ≡ true
      pub minus_zero :
          (a b : F)
          → d.same a d.nought ≡ true
          → d.same b d.nought ≡ true
          → d.same (m.minus a b) d.nought ≡ true

    -- Rounding and the cast do not pass a whole number that the value is below.
    pub record CastLaws : Type 0 where
      pub cast_le :
          (n : ℕ) (a : F)
          → n < 2 ^ 53
          → d.is_finite a ≡ true
          → at_least d a (d.of_uint64 n) ≡ false
          → m.to_uint64 (fmax d d.nought (m.round a)) ≤ n

    -- A turn of 360.0 more or less, for what is within a turn of the first one.
    pub record TurnLaws : Type 0 where
      pub plus_turn :
          (a : F)
          → less a d.nought ≡ true
          → less a (m.negate (d.of_uint64 360)) ≡ false
          → (less (m.plus a (d.of_uint64 360)) d.nought ≡ false)
            × (less (m.plus a (d.of_uint64 360)) (d.of_uint64 720) ≡ true)
      pub minus_turn :
          (a : F)
          → at_least d a (d.of_uint64 360) ≡ true
          → less a (d.of_uint64 720) ≡ true
          → (less (m.minus a (d.of_uint64 360)) d.nought ≡ false)
            × (at_least d (m.minus a (d.of_uint64 360)) (d.of_uint64 360) ≡ false)

abbrev pub fixed_math : Math fixed_point
fixed_math = record {
  plus = ◌+◌;
  minus = ◌-◌;
  negate = λ a. 0 - a;
  square_root = λ a. a;
  sine = λ _. 0;
  cosine = λ _. 2 ^ 53;
  round = λ a. (a + 2 ^ 52) / 2 ^ 53 * 2 ^ 53;
  to_uint64 = λ a. a / 2 ^ 53;
  to_text = λ _. b'0' ∷ [];
  pi = 3 * 2 ^ 53;
  eccentricity_squared = 0;
  twentieth = 2 ^ 53 / 20;
  billionth = 2 ^ 53 / 10 ^ 9;
}

pub fixed_math-ZeroLaws : ZeroLaws fixed_point fixed_math
fixed_math-ZeroLaws = record {
  minus_self = λ a h. ground arith;
  times_zero = λ a b h k. ground arith;
  plus_zero = λ a b h k. ground arith;
  minus_zero = λ a b h k. ground arith;
}

cast_lem : (n a : ℕ) → a < n * 2 ^ 53 → (a + 2 ^ 52) / 2 ^ 53 * 2 ^ 53 / 2 ^ 53 ≤ n
cast_lem n a h = omega arith

pub fixed_math-CastLaws : CastLaws fixed_point fixed_math
fixed_math-CastLaws = record { cast_le = λ n a h f g. ground (arith, cast_lem n a) }

minus_lem : (a : ℕ) → a < 720 * 2 ^ 53 → a - 360 * 2 ^ 53 < 360 * 2 ^ 53
minus_lem a h = omega arith

pub fixed_math-TurnLaws : TurnLaws fixed_point fixed_math
fixed_math-TurnLaws = record {
  plus_turn = λ a h k. ground arith;
  minus_turn = λ a h k. (ground arith, ground (arith, minus_lem a));
}
