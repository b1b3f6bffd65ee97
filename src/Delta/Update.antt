-- ===== src/Delta/Update.antt =====
-- `Update` and `Empty`, for the tracker as a whole.
use afsim_ns.Base.{
  ◌≡◌, Bool, true, ◌&&◌, List, Bytes, arith, ok, bytes_ord, Result-cases, inl, inr, ◌↔◌,
}
use afsim_ns.Base.Map.{lookup}
use afsim_ns.Double.{Double}
use afsim_ns.Protocol.{EntityState, FlowConfig, DeltaState}
use afsim_ns.Delta.Same.{same_entity, same_flow}
use afsim_ns.Delta.Tracker.{
  StateDeltaTracker, new_tracker, entity_id_of, flow_id_of, index, update, reset, difference,
  upserts, removals, is_empty, is_empty_delta,
}
use afsim_ns.Delta.Index.{IsIndex, index-IsIndex}
use afsim_ns.Delta.Unchanged.{SameEntry, empty-SameEntry}
use afsim_ns.Delta.Apply.{apply_changes, apply_changes-Agrees, Agrees}

module _ (d : Double) where
  pub record IsTracker (t : StateDeltaTracker d) : Type 0 where
    pub entities_indexed : IsIndex (entity_id_of d) t.entities
    pub flows_indexed : IsIndex flow_id_of t.flows

  new_tracker-IsTracker : IsTracker (new_tracker d)
  new_tracker-IsTracker = record {
    entities_indexed = record { sorted = tt; keyed = tt };
    flows_indexed = record { sorted = tt; keyed = tt };
  }

  reset_entities-IsTracker :
      (t : StateDeltaTracker d) (entities : List (EntityState d)) (flows : List FlowConfig)
      → IsTracker t
      → IsTracker (reset d entities flows t).0
  unfolding reset
  reset_entities-IsTracker t entities flows h =
      elim (Result-cases (index (entity_id_of d) entities)) [
        | inr (e, p) ↦ rw p h
        | inl (m, p) ↦ elim (Result-cases (index flow_id_of flows)) [
          | inr (e, q) ↦
              rw (p, q)
                (record {
                  entities_indexed = index-IsIndex (entity_id_of d) entities m p;
                  flows_indexed = h.flows_indexed;
                })
          | inl (n, q) ↦
              rw (p, q)
                (record {
                  entities_indexed = index-IsIndex (entity_id_of d) entities m p;
                  flows_indexed = index-IsIndex flow_id_of flows n q;
                })
        ]
      ]

  -- A call of `Update` that returns, by its parts.
  pub update-eq-ok :
      (entities : List (EntityState d)) (flows : List FlowConfig) (t u : StateDeltaTracker d)
      (delta : DeltaState d)
      → update d entities flows t ≡ (u, ok delta)
      → (index (entity_id_of d) entities ≡ ok u.entities)
        × (index flow_id_of flows ≡ ok u.flows)
        × (delta ≡ difference d t u.entities u.flows)
        × (u.initialized ≡ true)
  unfolding update
  update-eq-ok entities flows t u delta e = elim (Result-cases (index (entity_id_of d) entities)) [
    | inr (x, p) ↦ ground (arith, p)
    | inl (m, p) ↦ elim (Result-cases (index flow_id_of flows)) [
      | inr (x, q) ↦ ground (arith, p, q)
      | inl (n, q) ↦ ground (arith, p, q)
    ]
  ]

  update-IsTracker :
      (entities : List (EntityState d)) (flows : List FlowConfig) (t : StateDeltaTracker d)
      → IsTracker t
      → IsTracker (update d entities flows t).0
  unfolding update
  update-IsTracker entities flows t h = elim (Result-cases (index (entity_id_of d) entities)) [
    | inr (x, p) ↦ rw p h
    | inl (m, p) ↦ elim (Result-cases (index flow_id_of flows)) [
      | inr (x, q) ↦ rw (p, q) h
      | inl (n, q) ↦
          rw (p, q)
            (record {
              entities_indexed = index-IsIndex (entity_id_of d) entities m p;
              flows_indexed = index-IsIndex flow_id_of flows n q;
            })
    ]
  ]

  -- Both maps of a tracker are in the order of their keys, with each value under its own
  -- identifier: at the start, and after `Reset` and `Update` of such a tracker, also where they
  -- throw.
  calls-IsTracker :
      (entities : List (EntityState d)) (flows : List FlowConfig) (t : StateDeltaTracker d)
      → IsTracker t
      → IsTracker (new_tracker d)
        × IsTracker (reset d entities flows t).0
        × IsTracker (update d entities flows t).0
  calls-IsTracker entities flows t h = (
    new_tracker-IsTracker,
    reset_entities-IsTracker t entities flows h,
    update-IsTracker entities flows t h,
  )

  -- Let `Update` return a delta and leave the tracker `u`. A peer that had the old state, and that
  -- first removes the listed entries and then stores the upserts, has under every key what `u` has
  -- there: an equal value, or one that `Same` takes for equal. `u` holds the entities and flows
  -- that `Update` was given.
  pub update_applied :
      (entities : List (EntityState d)) (flows : List FlowConfig) (t u : StateDeltaTracker d)
      (delta : DeltaState d)
      → IsTracker t
      → update d entities flows t ≡ (u, ok delta)
      → (index (entity_id_of d) entities ≡ ok u.entities)
        × (index flow_id_of flows ≡ ok u.flows)
        × ((k : Bytes)
            → Agrees
                (same_entity d)
                (lookup k (
                  apply_changes
                    (entity_id_of d)
                    delta.entity_removals
                    delta.entity_upserts
                    t.entities))
                (lookup k u.entities))
        × ((k : Bytes)
            → Agrees same_flow
                (lookup k (apply_changes flow_id_of delta.flow_removals delta.flow_upserts t.flows))
                (lookup k u.flows))
  unfolding difference
  update_applied entities flows t u delta h e =
      let (p, q, r, i) = update-eq-ok entities flows t u delta e in
      let m = index-IsIndex (entity_id_of d) entities u.entities p in
      let n = index-IsIndex flow_id_of flows u.flows q in
      (
        p,
        q,
        rw r (
            apply_changes-Agrees (entity_id_of d) (same_entity d) t.entities u.entities
              h.entities_indexed.sorted m.sorted m.keyed),
        rw r (
            apply_changes-Agrees flow_id_of same_flow t.flows u.flows h.flows_indexed.sorted
              n.sorted n.keyed),
      )

  and_four : (a b c e : Bool) → (a && b && c && e ≡ true) ↔ ((a && b ≡ true) × (c && e ≡ true))
  and_four a b c e = ground arith

  -- The delta of `Update` is empty exactly when old and new state have the same keys, and `Same`
  -- takes the entries under each key for equal.
  pub update_empty :
      (entities : List (EntityState d)) (flows : List FlowConfig) (t u : StateDeltaTracker d)
      (delta : DeltaState d)
      → update d entities flows t ≡ (u, ok delta)
      → (is_empty_delta d delta ≡ true) ↔ (
          ((k : Bytes) → SameEntry (same_entity d) (lookup k t.entities) (lookup k u.entities))
          × ((k : Bytes) → SameEntry same_flow (lookup k t.flows) (lookup k u.flows)))
  unfolding difference is_empty_delta
  update_empty entities flows t u delta e =
      let (p, q, r, i) = update-eq-ok entities flows t u delta e in
      let m = index-IsIndex (entity_id_of d) entities u.entities p in
      let n = index-IsIndex flow_id_of flows u.flows q in
      let by_entities = empty-SameEntry (same_entity d) t.entities u.entities m.sorted in
      let by_flows = empty-SameEntry same_flow t.flows u.flows n.sorted in
      let four =
        and_four (is_empty (upserts (same_entity d) t.entities u.entities))
          (is_empty (removals u.entities t.entities)) (is_empty (upserts same_flow t.flows u.flows))
          (is_empty (removals u.flows t.flows)) in
      rw r (
        λ h. let (a, b) = four.0 h in (by_entities.0 a, by_flows.0 b),
        λ (a, b). four.1 (by_entities.1 a, by_flows.1 b),
      )
