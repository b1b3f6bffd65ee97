-- ===== src/Delta/Index.antt =====
-- `Index`: the map that it makes, and the lists that it refuses.
use afsim_ns.Base.{
  ◌≡◌, refl, subst, false, List, [], ◌∷◌, Option, none, some, Bytes, arith, All, Result, ok, equals,
  bytes_ord, if◌then◌else◌, ◌↔◌,
}
use afsim_ns.Base.Map.{Map, lookup, insert, lookup-insert, IsSorted, insert-IsSorted}
use afsim_ns.Delta.Tracker.{StateError, is_some, is_empty, index_from, index}

module _ {ℓ} {V : Type ℓ} (id : V → Bytes) where
  -- Each value stands under its own identifier.
  abbrev pub IsKeyed : Map Bytes V → Type 0
  IsKeyed m = All (λ e. id e.1 ≡ e.0) m

  pub insert-IsKeyed : (v : V) (m : Map Bytes V) → IsKeyed m → IsKeyed (insert (id v) v m)
  unfolding insert
  insert-IsKeyed v [] h = (refl, tt)
  insert-IsKeyed v ((j, w) ∷ m) h = ground (arith, insert-IsKeyed v m h.1)

  -- What the loop is given: a sorted map with each value under its own identifier.
  pub record IsIndex (m : Map Bytes V) : Type ℓ where
    pub sorted : IsSorted m
    pub keyed : IsKeyed m

  -- The identifiers of the list are not empty, and none stands in the map or in the list before.
  abbrev pub HasFreshIds : Map Bytes V → List V → Type 0
  HasFreshIds m [] = Unit
  HasFreshIds m (v ∷ vs) =
      (is_empty (id v) ≡ false)
      × (is_some (lookup (id v) m) ≡ false)
      × HasFreshIds (insert (id v) v m) vs

  -- The loop succeeds on such lists, and its map holds each value of the list under its
  -- identifier, and what was there before.
  index_from-ok :
      (vs : List V) (m : Map Bytes V)
      → HasFreshIds m vs
      → (indexed : Map Bytes V) × (index_from id m vs ≡ ok indexed)
  unfolding index_from
  index_from-ok [] m h = (m, refl)
  index_from-ok (v ∷ vs) m h =
      let (indexed, e) = index_from-ok vs (insert (id v) v m) h.2 in (indexed, rw (h.0, h.1) e)

  index_from-eq-ok :
      (vs : List V) (m indexed : Map Bytes V) → index_from id m vs ≡ ok indexed → HasFreshIds m vs
  unfolding index_from
  index_from-eq-ok [] m indexed e = tt
  index_from-eq-ok (v ∷ vs) m indexed e =
      let (p, q, r) = parts in (p, q, index_from-eq-ok vs (insert (id v) v m) indexed r)
    where
      parts :
          (is_empty (id v) ≡ false)
          × (is_some (lookup (id v) m) ≡ false)
          × (index_from id (insert (id v) v m) vs ≡ ok indexed)
      parts = ground arith

  index_from-IsIndex :
      (vs : List V) (m indexed : Map Bytes V)
      → index_from id m vs ≡ ok indexed
      → IsIndex m
      → IsIndex indexed
  unfolding index_from
  index_from-IsIndex [] m indexed e h = subst IsIndex (some_ok e) h
    where
      some_ok : ◌≡◌ {A = Result StateError (Map Bytes V)} (ok m) (ok indexed) → m ≡ indexed
      some_ok p = cc
  index_from-IsIndex (v ∷ vs) m indexed e h =
      index_from-IsIndex vs (insert (id v) v m) indexed (ground arith) (record {
        sorted = insert-IsSorted (id v) v m h.sorted;
        keyed = insert-IsKeyed v m h.keyed;
      })

  -- What the list has under a key, and else what was there before.
  abbrev pub listed : Bytes → List V → Option V → Option V
  listed k [] before = before
  listed k (v ∷ vs) before = listed k vs (if equals (id v) k then some v else before)

  index_from-lookup :
      (vs : List V) (m indexed : Map Bytes V) (k : Bytes)
      → index_from id m vs ≡ ok indexed
      → lookup k indexed ≡ listed k vs (lookup k m)
  unfolding index_from
  index_from-lookup [] m indexed k e = ground arith
  index_from-lookup (v ∷ vs) m indexed k e =
      ground (arith, index_from-lookup vs (insert (id v) v m) indexed k, lookup-insert (id v) k v m)

  -- The identifiers are not empty, and no two are equal.
  abbrev pub HasDistinctIds : List V → Type 0
  HasDistinctIds [] = Unit
  HasDistinctIds (v ∷ vs) =
      (is_empty (id v) ≡ false) × All (λ w. equals (id v) (id w) ≡ false) vs × HasDistinctIds vs

  fresh-insert :
      (v : V) (vs : List V) (m : Map Bytes V)
      → All (λ w. is_some (lookup (id w) (insert (id v) v m)) ≡ false) vs
      → All (λ w. is_some (lookup (id w) m) ≡ false) vs × All (λ w. equals (id v) (id w) ≡ false) vs
  fresh-insert v [] m h = (tt, tt)
  fresh-insert v (w ∷ vs) m h =
      let (a, b) = fresh-insert v vs m h.1 in
      (
        (ground (arith, lookup-insert (id v) (id w) v m, h.0), a),
        (ground (arith, lookup-insert (id v) (id w) v m, h.0), b),
      )

  insert-fresh :
      (v : V) (vs : List V) (m : Map Bytes V)
      → All (λ w. is_some (lookup (id w) m) ≡ false) vs
      → All (λ w. equals (id v) (id w) ≡ false) vs
      → All (λ w. is_some (lookup (id w) (insert (id v) v m)) ≡ false) vs
  insert-fresh v [] m h k = tt
  insert-fresh v (w ∷ vs) m h k =
      (ground (arith, lookup-insert (id v) (id w) v m, h.0, k.0), insert-fresh v vs m h.1 k.1)

  HasFreshIds→ :
      (vs : List V) (m : Map Bytes V)
      → HasFreshIds m vs
      → All (λ w. is_some (lookup (id w) m) ≡ false) vs × HasDistinctIds vs
  HasFreshIds→ [] m h = (tt, tt)
  HasFreshIds→ (v ∷ vs) m (p, q, r) =
      let (a, b) = HasFreshIds→ vs (insert (id v) v m) r in
      let (c, e) = fresh-insert v vs m a in ((q, c), (p, e, b))

  →HasFreshIds :
      (vs : List V) (m : Map Bytes V)
      → All (λ w. is_some (lookup (id w) m) ≡ false) vs
      → HasDistinctIds vs
      → HasFreshIds m vs
  →HasFreshIds [] m h k = tt
  →HasFreshIds (v ∷ vs) m h (p, q, r) =
      (p, h.0, →HasFreshIds vs (insert (id v) v m) (insert-fresh v vs m h.1 q) r)

  abbrev no_entries : Map Bytes V
  no_entries = []

  none-fresh : (vs : List V) → All (λ w. is_some (lookup (id w) no_entries) ≡ false) vs
  unfolding lookup
  none-fresh [] = tt
  none-fresh (v ∷ vs) = (refl, none-fresh vs)

  -- `Index` returns a map exactly when no identifier of the list is empty and no two are equal.
  pub index_lem :
      (vs : List V) → ((indexed : Map Bytes V) × (index id vs ≡ ok indexed)) ↔ HasDistinctIds vs
  unfolding index
  index_lem vs = (
    λ (indexed, e). (HasFreshIds→ vs [] (index_from-eq-ok vs [] indexed e)).1,
    λ h. index_from-ok vs [] (→HasFreshIds vs [] (none-fresh vs) h),
  )

  -- The map that `Index` returns has under a key the value of the list with this identifier, and
  -- nothing where the list has none.
  pub index-lookup :
      (vs : List V) (indexed : Map Bytes V) (k : Bytes)
      → index id vs ≡ ok indexed
      → lookup k indexed ≡ listed k vs none
  unfolding index lookup
  index-lookup vs indexed k e = index_from-lookup vs [] indexed k e

  pub index-IsIndex :
      (vs : List V) (indexed : Map Bytes V) → index id vs ≡ ok indexed → IsIndex indexed
  unfolding index
  index-IsIndex vs indexed e =
      index_from-IsIndex vs [] indexed e (record { sorted = tt; keyed = tt })
