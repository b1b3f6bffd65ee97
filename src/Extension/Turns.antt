-- ===== src/Extension/Turns.antt =====
-- `Degrees` returns an angle of the first turn.
use afsim_ns.Base.{ℕ, suc, ◌≡◌, refl, true, false, Bool-cases, inl, inr, some}
use afsim_ns.Double.{Double, at_least}
use afsim_ns.Double.Math.{Math, TurnLaws}
use afsim_ns.Extension.Config.{raise, lower, degrees}

module _ (d : Double) (m : Math d) (laws : TurnLaws d m) where
  open d use {F, less}

  abbrev full : F
  full = d.of_uint64 360

  -- From 0.0, below 360.0.
  abbrev pub IsHeading : F → Type 0
  IsHeading value = (less value d.nought ≡ false) × (at_least d value full ≡ false)

  lower-IsHeading :
      (rounds : ℕ) (value : F)
      → less value d.nought ≡ false
      → less value (d.of_uint64 720) ≡ true
      → (result : F) × (lower d m (suc (suc rounds)) value ≡ some result) × IsHeading result
  unfolding lower
  lower-IsHeading rounds value h k = elim (Bool-cases (at_least d value full)) [
    | inr below ↦ (value, rw below refl, (h, below))
    | inl above ↦
        let (a, b) = laws.minus_turn value above k in
        (m.minus value full, rw (above, b) refl, (a, b))
  ]

  raise-lands :
      (rounds : ℕ) (value : F)
      → less value (m.negate full) ≡ false
      → less value (d.of_uint64 720) ≡ true
      → (result : F) × (raise d m (suc (suc rounds)) value ≡ some result)
        × (less result d.nought ≡ false)
        × (less result (d.of_uint64 720) ≡ true)
  unfolding raise
  raise-lands rounds value h k = elim (Bool-cases (less value d.nought)) [
    | inr above ↦ (value, rw above refl, above, k)
    | inl below ↦
        let (a, b) = laws.plus_turn value below h in (m.plus value full, rw (below, a) refl, a, b)
  ]

  -- Where doubles obey the laws for a turn: for a heading that is not below -360.0 and is below
  -- 720.0 degrees, both loops of `Degrees` end within two rounds, and the result is not below 0.0
  -- and is below 360.0.
  pub degrees_lem :
      (rounds : ℕ) (radians : F)
      → less (d.divide (d.times radians (d.of_uint64 180)) m.pi) (m.negate full) ≡ false
      → less (d.divide (d.times radians (d.of_uint64 180)) m.pi) (d.of_uint64 720) ≡ true
      → (result : F) × (degrees d m (suc (suc rounds)) radians ≡ some result) × IsHeading result
  unfolding degrees
  degrees_lem rounds radians h k =
      let (value, e, low, high) =
        raise-lands rounds (d.divide (d.times radians (d.of_uint64 180)) m.pi) h k in
      let (result, p, heading) = lower-IsHeading rounds value low high in
      (result, rw (e, degrees) p, heading)
