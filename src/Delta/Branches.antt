-- ===== src/Delta/Branches.antt =====
-- `Reset` and `Update`: when they throw, and what they leave on each branch.
use afsim_ns.Base.{
  ◌≡◌, refl, Bytes, List, none, Result, ok, err, Result-cases, inl, inr, ◌⊎◌, true, bytes_ord,
  arith,
}
use afsim_ns.Base.Map.{Map, lookup}
use afsim_ns.Double.{Double}
use afsim_ns.Protocol.{EntityState, FlowConfig, DeltaState}
use afsim_ns.Delta.Tracker.{
  StateDeltaTracker, StateError, entity_id_of, flow_id_of, index, update, reset,
}
use afsim_ns.Delta.Index.{HasDistinctIds, listed, index_lem, index-lookup}

-- The map has under each key what the list has under it.
abbrev pub HoldsList {ℓ} : {V : Type ℓ} → (V → Bytes) → List V → Map Bytes V → Type ℓ
HoldsList id vs m = (k : Bytes) → lookup k m ≡ listed id k vs none

module _ (d : Double) (entities : List (EntityState d)) (flows : List FlowConfig) where
  -- The tracker has both lists, whose identifiers are not empty and differ.
  pub record Tracks (u : StateDeltaTracker d) : Type 0 where
    pub entities_distinct : HasDistinctIds (entity_id_of d) entities
    pub flows_distinct : HasDistinctIds flow_id_of flows
    pub entities_held : HoldsList (entity_id_of d) entities u.entities
    pub flows_held : HoldsList flow_id_of flows u.flows
    pub initialized : u.initialized ≡ true

  -- The entities were accepted and are new, the flows were not, and the rest is as it was.
  pub record IsHalfReset (t u : StateDeltaTracker d) : Type 0 where
    pub entities_distinct : HasDistinctIds (entity_id_of d) entities
    pub flows_refused : ¬ HasDistinctIds flow_id_of flows
    pub entities_held : HoldsList (entity_id_of d) entities u.entities
    pub flows_kept : u.flows ≡ t.flows
    pub initialized_kept : u.initialized ≡ t.initialized

  abbrev pub ResetLeaves :
      StateDeltaTracker d → StateDeltaTracker d × Result StateError (Unit {0}) → Type 0
  ResetLeaves t (u, ok _) = Tracks u
  ResetLeaves t (u, err e) =
      ((¬ HasDistinctIds (entity_id_of d) entities) × (u ≡ t)) ⊎ IsHalfReset t u

  abbrev pub UpdateLeaves :
      StateDeltaTracker d → StateDeltaTracker d × Result StateError (DeltaState d) → Type 0
  UpdateLeaves t (u, ok delta) = Tracks u
  UpdateLeaves t (u, err e) =
      (¬ (HasDistinctIds (entity_id_of d) entities × HasDistinctIds flow_id_of flows)) × (u ≡ t)

  refused {ℓ} :
      {V : Type ℓ} (id : V → Bytes) (vs : List V) (e : StateError)
      → index id vs ≡ err e
      → ¬ HasDistinctIds id vs
  refused id vs e p h = let (m, q) = (index_lem id vs).1 h in ground (arith, p, q)

  tracks :
      (m : Map Bytes (EntityState d)) (n : Map Bytes FlowConfig)
      → index (entity_id_of d) entities ≡ ok m
      → index flow_id_of flows ≡ ok n
      → Tracks (record { entities = m; flows = n; initialized = true })
  tracks m n p q = record {
    entities_distinct = (index_lem (entity_id_of d) entities).0 (m, p);
    flows_distinct = (index_lem flow_id_of flows).0 (n, q);
    entities_held = λ k. index-lookup (entity_id_of d) entities m k p;
    flows_held = λ k. index-lookup flow_id_of flows n k q;
    initialized = refl;
  }

  reset-ResetLeaves : (t : StateDeltaTracker d) → ResetLeaves t (reset d entities flows t)
  unfolding reset
  reset-ResetLeaves t = elim (Result-cases (index (entity_id_of d) entities)) [
    | inr (e, p) ↦ rw p (inl (refused (entity_id_of d) entities e p, refl))
    | inl (m, p) ↦ elim (Result-cases (index flow_id_of flows)) [
      | inl (n, q) ↦ rw (p, q) (tracks m n p q)
      | inr (e, q) ↦
          rw (p, q)
            (inr (record {
              entities_distinct = (index_lem (entity_id_of d) entities).0 (m, p);
              flows_refused = refused flow_id_of flows e q;
              entities_held = λ k. index-lookup (entity_id_of d) entities m k p;
              flows_kept = refl;
              initialized_kept = refl;
            }))
    ]
  ]

  update-UpdateLeaves : (t : StateDeltaTracker d) → UpdateLeaves t (update d entities flows t)
  unfolding update
  update-UpdateLeaves t = elim (Result-cases (index (entity_id_of d) entities)) [
    | inr (e, p) ↦ rw p (λ h. refused (entity_id_of d) entities e p h.0, refl)
    | inl (m, p) ↦ elim (Result-cases (index flow_id_of flows)) [
      | inl (n, q) ↦ rw (p, q) (tracks m n p q)
      | inr (e, q) ↦ rw (p, q) (λ h. refused flow_id_of flows e q h.1, refl)
    ]
  ]

  -- `Reset` and `Update` return exactly if no identifier is empty and no two entities and no two
  -- flows have the same one; the tracker then counts as initialised and has under each key the entity and
  -- the flow of the lists. An `Update` that throws was given lists that are not so, and leaves the
  -- tracker as it was. A `Reset` that throws leaves it as it was if the entities are not so; but
  -- if only the flows are not so, the tracker has the new entities with the old flows.
  pub reset_update_lem :
      (t : StateDeltaTracker d)
      → ResetLeaves t (reset d entities flows t) × UpdateLeaves t (update d entities flows t)
  reset_update_lem t = (reset-ResetLeaves t, update-UpdateLeaves t)
