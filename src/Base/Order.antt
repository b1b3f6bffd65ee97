-- ===== src/Base/Order.antt =====
-- The strict order of the keys of a `std::map`: of texts, and lexicographic on pairs.
use Prim.Native.Nat.{ℕ, compare, Ordering}
use mathlib.Core.Path.{◌≡◌, refl}
use mathlib.Core.Logic.{◌↔◌}
use mathlib.Core.Bool.{Bool, true, false}
use mathlib.Core.List.{List, [], ◌∷◌}
use native.Mathlib.Omega.{arith}

pub record Ord {ℓ} (K : Type ℓ) : Type ℓ where
  pub cmp : K → K → Ordering
  pub cmp_eq : (a b : K) → (cmp a b ≡ Ordering.eq) ↔ (a ≡ b)
  pub cmp_flip : (a b : K) → (cmp a b ≡ Ordering.gt) ↔ (cmp b a ≡ Ordering.lt)
  pub cmp_trans :
      (a b c : K) → cmp a b ≡ Ordering.lt → cmp b c ≡ Ordering.lt → cmp a c ≡ Ordering.lt

abbrev pub is_eq : Ordering → Bool
is_eq Ordering.eq = true
is_eq Ordering.lt = false
is_eq Ordering.gt = false

module _ {ℓ} {K : Type ℓ} ⦃o : Ord K⦄ where
  abbrev pub equals : K → K → Bool
  equals a b = is_eq (o.cmp a b)

  pub equals_iff : (a b : K) → (equals a b ≡ true) ↔ (a ≡ b)
  equals_iff a b = ground (arith, o.cmp_eq a b)

  pub equals_refl : (a : K) → equals a a ≡ true
  equals_refl a = (equals_iff a a).1 refl

-- First by `r`, then by `s`.
abbrev pub then_by : Ordering → Ordering → Ordering
then_by Ordering.lt s = Ordering.lt
then_by Ordering.eq s = s
then_by Ordering.gt s = Ordering.gt

unfoldable pub cmp_bytes : List ℕ → List ℕ → Ordering
cmp_bytes [] [] = Ordering.eq
cmp_bytes [] (y ∷ ys) = Ordering.lt
cmp_bytes (x ∷ xs) [] = Ordering.gt
cmp_bytes (x ∷ xs) (y ∷ ys) = then_by (compare x y) (cmp_bytes xs ys)

pub cmp_bytes_eq : (a b : List ℕ) → (cmp_bytes a b ≡ Ordering.eq) ↔ (a ≡ b)
unfolding cmp_bytes
cmp_bytes_eq [] [] = (λ _. refl, λ _. refl)
cmp_bytes_eq [] (y ∷ ys) = (λ e. cc, λ e. cc)
cmp_bytes_eq (x ∷ xs) [] = (λ e. cc, λ e. cc)
cmp_bytes_eq (x ∷ xs) (y ∷ ys) = ground (arith, cmp_bytes_eq xs ys)

pub cmp_bytes_flip : (a b : List ℕ) → (cmp_bytes a b ≡ Ordering.gt) ↔ (cmp_bytes b a ≡ Ordering.lt)
unfolding cmp_bytes
cmp_bytes_flip [] [] = (λ e. cc, λ e. cc)
cmp_bytes_flip [] (y ∷ ys) = (λ e. cc, λ e. cc)
cmp_bytes_flip (x ∷ xs) [] = (λ e. refl, λ e. refl)
cmp_bytes_flip (x ∷ xs) (y ∷ ys) = ground (arith, cmp_bytes_flip xs ys)

pub cmp_bytes_trans :
    (a b c : List ℕ)
    → cmp_bytes a b ≡ Ordering.lt
    → cmp_bytes b c ≡ Ordering.lt
    → cmp_bytes a c ≡ Ordering.lt
unfolding cmp_bytes
cmp_bytes_trans [] [] c h k = k
cmp_bytes_trans [] (y ∷ ys) [] h k = cc
cmp_bytes_trans [] (y ∷ ys) (z ∷ zs) h k = refl
cmp_bytes_trans (x ∷ xs) [] c h k = cc
cmp_bytes_trans (x ∷ xs) (y ∷ ys) [] h k = cc
cmp_bytes_trans (x ∷ xs) (y ∷ ys) (z ∷ zs) h k = ground (arith, cmp_bytes_trans xs ys zs)

instance abbrev pub bytes_ord : Ord (List ℕ)
bytes_ord = record {
  cmp = cmp_bytes;
  cmp_eq = cmp_bytes_eq;
  cmp_flip = cmp_bytes_flip;
  cmp_trans = cmp_bytes_trans;
}

module _ {ℓ κ} {K : Type ℓ} {L : Type κ} ⦃o : Ord K⦄ ⦃p : Ord L⦄ where
  abbrev pub cmp_pair : K × L → K × L → Ordering
  cmp_pair (a, b) (c, d) = then_by (o.cmp a c) (p.cmp b d)

  pub cmp_pair_eq : (x y : K × L) → (cmp_pair x y ≡ Ordering.eq) ↔ (x ≡ y)
  cmp_pair_eq (a, b) (c, d) = ground (arith, o.cmp_eq a c, p.cmp_eq b d)

  pub cmp_pair_flip : (x y : K × L) → (cmp_pair x y ≡ Ordering.gt) ↔ (cmp_pair y x ≡ Ordering.lt)
  cmp_pair_flip (a, b) (c, d) =
      ground (arith, o.cmp_flip a c, o.cmp_flip c a, o.cmp_eq a c, o.cmp_eq c a, p.cmp_flip b d)

  pub cmp_pair_trans :
      (x y z : K × L)
      → cmp_pair x y ≡ Ordering.lt
      → cmp_pair y z ≡ Ordering.lt
      → cmp_pair x z ≡ Ordering.lt
  cmp_pair_trans (a, b) (c, d) (e, f) h k =
      ground (arith, o.cmp_trans a c e, o.cmp_eq a c, o.cmp_eq c e, o.cmp_eq a e, p.cmp_trans b d f)

  instance abbrev pub pair_ord : Ord (K × L)
  pair_ord = record {
    cmp = cmp_pair;
    cmp_eq = cmp_pair_eq;
    cmp_flip = cmp_pair_flip;
    cmp_trans = cmp_pair_trans;
  }

pub compare_eq : (a b : ℕ) → (compare a b ≡ Ordering.eq) ↔ (a ≡ b)
compare_eq a b = ground arith

pub compare_flip : (a b : ℕ) → (compare a b ≡ Ordering.gt) ↔ (compare b a ≡ Ordering.lt)
compare_flip a b = ground arith

pub compare_trans :
    (a b c : ℕ) → compare a b ≡ Ordering.lt → compare b c ≡ Ordering.lt → compare a c ≡ Ordering.lt
compare_trans a b c h k = ground arith

-- The order of addresses and of numbers.
instance abbrev pub nat_ord : Ord ℕ
nat_ord = record {
  cmp = compare;
  cmp_eq = compare_eq;
  cmp_flip = compare_flip;
  cmp_trans = compare_trans;
}
