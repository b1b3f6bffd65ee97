-- ===== src/Delta/Examples.antt =====
-- A baseline, and what changes against it.
use afsim_ns.Base.{◌≡◌, ◌↔◌, refl, true, List, [], ◌∷◌, Bytes, codes, ok, err, cmp_bytes, bytes_ord}
use afsim_ns.Base.Map.{lookup}
use afsim_ns.Double.{fixed_point}
use afsim_ns.Protocol.{EntityState, FlowConfig, DeltaState}
use afsim_ns.Protocol.Samples.{tank, traffic}
use afsim_ns.Delta.Same.{same_entity, same_flow}
use afsim_ns.Delta.Tracker.{
  StateDeltaTracker, empty_or_duplicate_id, new_tracker, entity_id_of, flow_id_of, index, reset,
  update, is_empty_delta,
}
use afsim_ns.Delta.Apply.{apply_changes, Agrees}
use afsim_ns.Delta.Unchanged.{SameEntry}
use afsim_ns.Delta.Branches.{ResetLeaves, UpdateLeaves, reset_update_lem}
use afsim_ns.Delta.Update.{IsTracker, update_applied, update_empty}

abbrev before_entities : List (EntityState fixed_point)
before_entities = tank (codes "1") 0 ∷ tank (codes "2") 0 ∷ []

abbrev after_entities : List (EntityState fixed_point)
after_entities = tank (codes "3") 0 ∷ tank (codes "1") 90 ∷ []

abbrev flows : List FlowConfig
flows = traffic (codes "f") 10 ∷ []

abbrev baseline : StateDeltaTracker fixed_point
baseline = record {
  entities = (codes "1", tank (codes "1") 0) ∷ (codes "2", tank (codes "2") 0) ∷ [];
  flows = (codes "f", traffic (codes "f") 10) ∷ [];
  initialized = true;
}

abbrev current : StateDeltaTracker fixed_point
current = record {
  entities = (codes "1", tank (codes "1") 90) ∷ (codes "3", tank (codes "3") 0) ∷ [];
  flows = (codes "f", traffic (codes "f") 10) ∷ [];
  initialized = true;
}

abbrev changes : DeltaState fixed_point
changes = record {
  entity_upserts = tank (codes "1") 90 ∷ tank (codes "3") 0 ∷ [];
  entity_removals = codes "2" ∷ [];
  flow_upserts = [];
  flow_removals = [];
}

reset-baseline :
    reset fixed_point before_entities flows (new_tracker fixed_point) ≡ (baseline, ok tt)
unfolding reset
reset-baseline = refl

duplicate :
    index (entity_id_of fixed_point) (tank (codes "1") 0 ∷ tank (codes "1") 9 ∷ [])
    ≡ err empty_or_duplicate_id
unfolding index
duplicate = refl

updated : update fixed_point after_entities flows baseline ≡ (current, ok changes)
unfolding update
updated = refl

baseline-IsTracker : IsTracker fixed_point baseline
unfolding cmp_bytes
baseline-IsTracker = record {
  entities_indexed = record { sorted = ((refl, tt), (tt, tt)); keyed = (refl, (refl, tt)) };
  flows_indexed = record { sorted = (tt, tt); keyed = (refl, tt) };
}

-- The flows have one identifier twice.
abbrev doubled : List FlowConfig
doubled = traffic (codes "f") 10 ∷ traffic (codes "f") 20 ∷ []

reset_update_lem_example :
    ResetLeaves fixed_point after_entities doubled baseline
      (reset fixed_point after_entities doubled baseline)
    × UpdateLeaves fixed_point after_entities doubled baseline
        (update fixed_point after_entities doubled baseline)
reset_update_lem_example = reset_update_lem fixed_point after_entities doubled baseline

update_applied_example :
    (index (entity_id_of fixed_point) after_entities ≡ ok current.entities)
    × (index flow_id_of flows ≡ ok current.flows)
    × ((k : Bytes)
        → Agrees
            (same_entity fixed_point)
            (lookup k (
              apply_changes
                (entity_id_of fixed_point)
                changes.entity_removals
                changes.entity_upserts
                baseline.entities))
            (lookup k current.entities))
    × ((k : Bytes)
        → Agrees same_flow
            (lookup k
              (apply_changes flow_id_of changes.flow_removals changes.flow_upserts baseline.flows))
            (lookup k current.flows))
update_applied_example =
    update_applied fixed_point after_entities flows baseline current changes baseline-IsTracker
      updated

update_empty_example : (is_empty_delta fixed_point changes ≡ true) ↔ (
    ((k : Bytes)
      → SameEntry
          (same_entity fixed_point)
          (lookup k baseline.entities)
          (lookup k current.entities))
    × ((k : Bytes) → SameEntry same_flow (lookup k baseline.flows) (lookup k current.flows)))
update_empty_example =
    update_empty fixed_point after_entities flows baseline current changes updated
