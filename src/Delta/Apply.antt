-- ===== src/Delta/Apply.antt =====
-- A peer that applies the delta to the old state has the new one.
use afsim_ns.Base.{
  ◌≡◌, refl, Bool, true, not, ◌&&◌, List, [], ◌∷◌, Option, none, some, Bytes, arith, equals_iff,
  bytes_ord, Bool-cases, if◌then◌else◌, inl, inr, ◌⊎◌,
}
use afsim_ns.Base.Map.{
  Map, lookup, insert, erase, lookup-insert, lookup-erase, erase-IsSorted, lookup_below, IsSorted,
}
use afsim_ns.Delta.Tracker.{is_some, is_changed, upserts, removals}
use afsim_ns.Delta.Index.{IsKeyed}

-- The entries of the listed keys go.
unfoldable pub erase_all : {V : Type 0} → List Bytes → Map Bytes V → Map Bytes V
erase_all [] m = m
erase_all (k ∷ ks) m = erase_all ks (erase k m)

-- What stands under a key once the upserts are stored over `below`.
abbrev upserted : {V : Type 0} → (V → V → Bool) → Option V → Option V → Option V → Option V
upserted same old below none = below
upserted same old below (some v) = if is_changed same old v then some v else below

module _ {V : Type 0} (id : V → Bytes) where
  -- The listed values are stored under their identifiers.
  unfoldable pub insert_all : List V → Map Bytes V → Map Bytes V
  insert_all [] m = m
  insert_all (v ∷ vs) m = insert_all vs (insert (id v) v m)

  -- What the receiver of a delta does: first the removals, then the upserts.
  unfoldable pub apply_changes : List Bytes → List V → Map Bytes V → Map Bytes V
  unfolding erase_all insert_all
  apply_changes removed changed m = insert_all changed (erase_all removed m)

  module _ (same : V → V → Bool) where
    lookup-upserts :
        (k : Bytes) (baseline current m : Map Bytes V)
        → IsSorted current
        → IsKeyed id current
        → lookup k (insert_all (upserts same baseline current) m)
          ≡ upserted same (lookup k baseline) (lookup k m) (lookup k current)
    unfolding insert_all upserts lookup
    lookup-upserts k baseline [] m s h = refl
    lookup-upserts k baseline ((j, v) ∷ current) m s h = ground (
      arith,
      lookup-upserts k baseline current m s.1 h.1,
      lookup-upserts k baseline current (insert (id v) v m) s.1 h.1,
      lookup-insert (id v) k v m,
      lookup_below j current s.0,
      equals_iff j k,
      equals_iff (id v) k,
    )

lookup-removals :
    {V : Type 0} (k : Bytes) (current baseline m : Map Bytes V)
    → IsSorted m
    → lookup k (erase_all (removals current baseline) m) ≡ (
        if is_some (lookup k baseline) && not (is_some (lookup k current))
        then none
        else lookup k m)
unfolding erase_all removals
lookup-removals k current [] m s = unfold lookup in refl
lookup-removals k current ((j, w) ∷ baseline) m s = ground (
  arith,
  lookup-removals k current baseline m s,
  lookup-removals k current baseline (erase j m) (erase-IsSorted j m s),
  lookup-erase j k m s,
  equals_iff j k,
)

-- The two entries are equal, or `Same` takes them for equal.
abbrev pub Agrees : {V : Type 0} → (V → V → Bool) → Option V → Option V → Type 0
Agrees same none none = Unit
Agrees same (some a) (some b) = (a ≡ b) ⊎ (same a b ≡ true)
Agrees same none (some b) = ⊥
Agrees same (some a) none = ⊥

-- From the parts above, for one key.
Agrees-by_parts :
    {V : Type 0} (same : V → V → Bool) (old current result kept : Option V)
    → kept ≡ (if is_some old && not (is_some current) then none else old)
    → result ≡ upserted same old kept current
    → Agrees same result current
unfolding is_changed
Agrees-by_parts same none none result kept e f = rw f (rw e tt)
Agrees-by_parts same (some w) none result kept e f = rw f (rw e tt)
Agrees-by_parts same none (some v) result kept e f = rw f (inl refl)
Agrees-by_parts same (some w) (some v) result kept e f = elim (Bool-cases (same w v)) [
  | inl h ↦ rw f (rw h (rw e (inr h)))
  | inr h ↦ rw f (rw h (inl refl))
]

pub apply_changes-Agrees :
    {V : Type 0} (id : V → Bytes) (same : V → V → Bool) (baseline current : Map Bytes V)
    → IsSorted baseline
    → IsSorted current
    → IsKeyed id current
    → (k : Bytes)
    → Agrees same
        (lookup k
          (apply_changes id (removals current baseline) (upserts same baseline current) baseline))
        (lookup k current)
unfolding apply_changes
apply_changes-Agrees id same baseline current s t h k =
    Agrees-by_parts same (lookup k baseline) (lookup k current) _ _
      (lookup-removals k current baseline baseline s)
      (lookup-upserts id same k baseline current (erase_all (removals current baseline) baseline) t
        h)
