-- ===== src/Delta/Unchanged.antt =====
-- When the difference of two maps is empty.
use afsim_ns.Base.{
  ◌≡◌, refl, Bool, true, false, ◌&&◌, [], ◌∷◌, Option, none, some, Bytes, arith, equals_iff,
  bytes_ord, ◌↔◌,
}
use afsim_ns.Base.Map.{Map, lookup, IsSorted, lookup_below}
use afsim_ns.Delta.Tracker.{upserts, removals, is_changed, is_some, is_empty}

module _ {V : Type 0} (same : V → V → Bool) where
  -- Both maps lack the key, or `Same` takes what they have for equal.
  abbrev pub SameEntry : Option V → Option V → Type 0
  SameEntry none none = Unit
  SameEntry (some a) (some b) = same a b ≡ true
  SameEntry none (some b) = ⊥
  SameEntry (some a) none = ⊥

  upserts-empty :
      (k : Bytes) (v : V) (baseline current : Map Bytes V)
      → is_empty (upserts same baseline current) ≡ true
      → lookup k current ≡ some v
      → is_changed same (lookup k baseline) v ≡ false
  unfolding upserts lookup is_empty
  upserts-empty k v baseline [] h e = cc
  upserts-empty k v baseline ((j, w) ∷ current) h e =
      ground (arith, equals_iff j k, upserts-empty k v baseline current)

  empty-upserts :
      (baseline current : Map Bytes V)
      → IsSorted current
      → ((k : Bytes) (v : V)
          → lookup k current ≡ some v
          → is_changed same (lookup k baseline) v ≡ false)
      → is_empty (upserts same baseline current) ≡ true
  unfolding upserts is_empty
  empty-upserts baseline [] s h = refl
  empty-upserts baseline ((j, w) ∷ current) s h =
      rw (h j w (unfold lookup in rw ((equals_iff j j).1 refl)))
        (empty-upserts baseline current s.1 later)
    where
      later :
          (k : Bytes) (v : V)
          → lookup k current ≡ some v
          → is_changed same (lookup k baseline) v ≡ false
      later k v e =
          h k v (unfold lookup in ground (arith, e, equals_iff j k, lookup_below j current s.0))

  removals-empty :
      (k : Bytes) (current baseline : Map Bytes V)
      → is_empty (removals current baseline) ≡ true
      → is_some (lookup k baseline) ≡ true
      → is_some (lookup k current) ≡ true
  unfolding removals is_empty lookup
  removals-empty k current [] h e = cc
  removals-empty k current ((j, w) ∷ baseline) h e =
      ground (arith, equals_iff j k, removals-empty k current baseline)

  empty-removals :
      (current baseline : Map Bytes V)
      → ((k : Bytes) → is_some (lookup k baseline) ≡ true → is_some (lookup k current) ≡ true)
      → is_empty (removals current baseline) ≡ true
  unfolding removals is_empty lookup
  empty-removals current [] h = refl
  empty-removals current ((j, w) ∷ baseline) h =
      ground (arith, h j, equals_iff j j, empty-removals current baseline later)
    where
      later : (k : Bytes) → is_some (lookup k baseline) ≡ true → is_some (lookup k current) ≡ true
      later k e = ground (arith, h k, e)

  entry-of-parts :
      (old current : Option V)
      → ((v : V) → current ≡ some v → is_changed same old v ≡ false)
      → (is_some old ≡ true → is_some current ≡ true)
      → SameEntry old current
  unfolding is_changed
  entry-of-parts none none h k = tt
  entry-of-parts none (some b) h k = cc (h b refl)
  entry-of-parts (some a) none h k = cc (k refl)
  entry-of-parts (some a) (some b) h k = ground (arith, h b refl)

  parts-of-entry :
      (old current : Option V)
      → SameEntry old current
      → ((v : V) → current ≡ some v → is_changed same old v ≡ false)
        × (is_some old ≡ true → is_some current ≡ true)
  unfolding is_changed
  parts-of-entry none none h = (λ v e. cc, λ e. e)
  parts-of-entry none (some b) h = absurd h
  parts-of-entry (some a) none h = absurd h
  parts-of-entry (some a) (some b) h = (λ v e. ground (arith, e, h), λ e. refl)

  -- No upserts and no removals: under every key the maps have the same entry.
  pub empty-SameEntry :
      (baseline current : Map Bytes V)
      → IsSorted current
      → (is_empty (upserts same baseline current) && is_empty (removals current baseline) ≡ true)
        ↔ ((k : Bytes) → SameEntry (lookup k baseline) (lookup k current))
  empty-SameEntry baseline current s = (
    λ e k.
        let (a, b) = both _ _ e in
        entry-of-parts (lookup k baseline) (lookup k current)
          (λ v. upserts-empty k v baseline current a) (removals-empty k current baseline b),
    λ h. rw (
      empty-upserts baseline current s (λ k. (parts-of-entry _ _ (h k)).0),
      empty-removals current baseline (λ k. (parts-of-entry _ _ (h k)).1),
    ),
  )
    where
      both : (a b : Bool) → a && b ≡ true → (a ≡ true) × (b ≡ true)
      both a b e = ground arith
