-- ===== src/Base/Map.antt =====
-- `std::map` as an association list in the order of its keys.
use Prim.Native.Nat.{Ordering}
use mathlib.Core.Path.{◌≡◌, refl}
use mathlib.Core.Option.{Option, none, some}
use mathlib.Core.List.{List, [], ◌∷◌}
use native.Mathlib.Omega.{arith}
use afsim_ns.Base.Lists.{All}
use afsim_ns.Base.Tests.{if◌then◌else◌}
use afsim_ns.Base.Order.{Ord, equals, equals_iff}

abbrev pub Map {ℓ κ} : Type ℓ → Type κ → Type (ℓ ⊔ κ)
Map K V = List (K × V)

module _ {ℓ κ} {K : Type ℓ} {V : Type κ} ⦃o : Ord K⦄ where
  -- `map.find(k)`
  unfoldable pub lookup : K → Map K V → Option V
  lookup k [] = none
  lookup k ((j, v) ∷ m) = if equals j k then some v else lookup k m

  -- `map[k] = v`
  unfoldable pub insert : K → V → Map K V → Map K V
  insert k v [] = (k, v) ∷ []
  insert k v ((j, w) ∷ m) = elim (o.cmp k j) [
    | Ordering.lt ↦ (k, v) ∷ (j, w) ∷ m
    | Ordering.eq ↦ (k, v) ∷ m
    | Ordering.gt ↦ (j, w) ∷ insert k v m
  ]

  -- `map.erase(k)`
  unfoldable pub erase : K → Map K V → Map K V
  erase k [] = []
  erase k ((j, w) ∷ m) = if equals j k then m else (j, w) ∷ erase k m

  pub lookup-insert :
      (k j : K) (v : V) (m : Map K V)
      → lookup j (insert k v m) ≡ (if equals k j then some v else lookup j m)
  unfolding lookup insert
  lookup-insert k j v [] = refl
  lookup-insert k j v ((i, w) ∷ m) =
      ground (arith, equals_iff k j, equals_iff i j, o.cmp_eq k i, lookup-insert k j v m)

  -- Every key of the map is above `k`.
  abbrev pub Above : K → Map K V → Type 0
  Above k = All (λ e. o.cmp k e.0 ≡ Ordering.lt)

  -- The keys rise, so no key stands twice.
  abbrev pub IsSorted : Map K V → Type 0
  IsSorted [] = Unit
  IsSorted ((k, v) ∷ m) = Above k m × IsSorted m

  pub Above-trans : (j k : K) (m : Map K V) → o.cmp j k ≡ Ordering.lt → Above k m → Above j m
  Above-trans j k [] h a = tt
  Above-trans j k ((i, w) ∷ m) h a = (o.cmp_trans j k i h a.0, Above-trans j k m h a.1)

  Above-insert :
      (j k : K) (v : V) (m : Map K V) → o.cmp j k ≡ Ordering.lt → Above j m → Above j (insert k v m)
  unfolding insert
  Above-insert j k v [] h a = (h, tt)
  Above-insert j k v ((i, w) ∷ m) h a = ground (arith, Above-insert j k v m h a.1)

  pub insert-IsSorted : (k : K) (v : V) (m : Map K V) → IsSorted m → IsSorted (insert k v m)
  unfolding insert
  insert-IsSorted k v [] s = (tt, tt)
  insert-IsSorted k v ((i, w) ∷ m) s = ground (
    arith,
    o.cmp_eq k i,
    o.cmp_flip k i,
    Above-trans k i m,
    Above-insert i k v m,
    insert-IsSorted k v m s.1,
  )

  pub lookup_below : (k : K) (m : Map K V) → Above k m → lookup k m ≡ none
  unfolding lookup
  lookup_below k [] a = refl
  lookup_below k ((i, w) ∷ m) a = ground (arith, o.cmp_eq k i, equals_iff i k, lookup_below k m a.1)

  pub lookup-erase :
      (k j : K) (m : Map K V)
      → IsSorted m
      → lookup j (erase k m) ≡ (if equals k j then none else lookup j m)
  unfolding lookup erase
  lookup-erase k j [] s = ground arith
  lookup-erase k j ((i, w) ∷ m) s = ground (
    arith,
    equals_iff k j,
    equals_iff i j,
    equals_iff i k,
    lookup_below i m s.0,
    lookup-erase k j m s.1,
  )

  Above-erase : (j k : K) (m : Map K V) → Above j m → Above j (erase k m)
  unfolding erase
  Above-erase j k [] a = tt
  Above-erase j k ((i, w) ∷ m) a = ground (arith, Above-erase j k m a.1)

  pub erase-IsSorted : (k : K) (m : Map K V) → IsSorted m → IsSorted (erase k m)
  unfolding erase
  erase-IsSorted k [] s = tt
  erase-IsSorted k ((i, w) ∷ m) s = ground (arith, Above-erase i k m s.0, erase-IsSorted k m s.1)

  pub All-lookup {μ} :
      (P : V → Type μ) (k : K) (m : Map K V) (v : V)
      → All (λ e. P e.1) m
      → lookup k m ≡ some v
      → P v
  unfolding lookup
  All-lookup P k [] v h e = cc
  All-lookup P k ((j, w) ∷ m) v h e = ground (arith, All-lookup P k m v h.1)

  pub All-insert {μ} :
      (P : V → Type μ) (k : K) (v : V) (m : Map K V)
      → P v
      → All (λ e. P e.1) m
      → All (λ e. P e.1) (insert k v m)
  unfolding insert
  All-insert P k v [] p h = (p, tt)
  All-insert P k v ((j, w) ∷ m) p h = ground (arith, All-insert P k v m p h.1)

  -- What holds of all keys.
  pub All-insert-key {μ} :
      (P : K → Type μ) (k : K) (v : V) (m : Map K V)
      → P k
      → All (λ e. P e.0) m
      → All (λ e. P e.0) (insert k v m)
  unfolding insert
  All-insert-key P k v [] p h = (p, tt)
  All-insert-key P k v ((j, w) ∷ m) p h = ground (arith, All-insert-key P k v m p h.1)
