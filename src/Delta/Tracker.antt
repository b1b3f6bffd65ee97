-- ===== src/Delta/Tracker.antt =====
-- `Index` and the class `StateDeltaTracker`.
use afsim_ns.Base.{
  Bool, true, false, not, ◌&&◌, ◌||◌, List, [], ◌∷◌, Option, none, some, Bytes, if◌then◌else◌,
  Result, ok, err, ◌>>=◌, bytes_ord, cmp_bytes,
}
use afsim_ns.Base.Map.{Map, lookup, insert}
use afsim_ns.Double.{Double}
use afsim_ns.Protocol.{EntityState, FlowConfig, DeltaState}
use afsim_ns.Delta.Same.{same_entity, same_flow}

-- `std::invalid_argument`: "state contains an empty or duplicate ID"
pub data StateError : Type 0 where
  empty_or_duplicate_id : StateError

abbrev pub is_some {ℓ} : {A : Type ℓ} → Option A → Bool
is_some none = false
is_some (some a) = true

unfoldable pub is_empty {ℓ} : {A : Type ℓ} → List A → Bool
is_empty [] = true
is_empty (x ∷ xs) = false

module _ {ℓ} {V : Type ℓ} (id_getter : V → Bytes) where
  -- The loop of `Index`; `emplace` inserts unless the key is there.
  unfoldable pub index_from : Map Bytes V → List V → Result StateError (Map Bytes V)
  unfolding is_empty lookup insert cmp_bytes
  index_from indexed [] = ok indexed
  index_from indexed (value ∷ values) =
      let rest = index_from (insert (id_getter value) value indexed) values in
      if is_empty (id_getter value) || is_some (lookup (id_getter value) indexed)
      then err empty_or_duplicate_id
      else rest

  unfoldable pub index : List V → Result StateError (Map Bytes V)
  unfolding index_from
  index values = index_from [] values

module _ {ℓ} {V : Type ℓ} (same : V → V → Bool) where
  -- `old == end() || !Same(old->second, value)`
  unfoldable pub is_changed : Option V → V → Bool
  is_changed none value = true
  is_changed (some old) value = not (same old value)

  -- The loop that pushes what is new or changed, over `current` in the order of its keys.
  unfoldable pub upserts : Map Bytes V → Map Bytes V → List V
  unfolding is_changed lookup cmp_bytes
  upserts baseline [] = []
  upserts baseline ((id, value) ∷ current) =
      if is_changed (lookup id baseline) value
      then value ∷ upserts baseline current
      else upserts baseline current

-- The loop that pushes the identifiers that `current` lacks.
unfoldable pub removals {ℓ} : {V : Type ℓ} → Map Bytes V → Map Bytes V → List Bytes
unfolding lookup cmp_bytes
removals current [] = []
removals current ((id, value) ∷ baseline) =
    let rest = removals current baseline in if is_some (lookup id current) then rest else id ∷ rest

abbrev pub flow_id_of : FlowConfig → Bytes
flow_id_of flow = flow.flow_id

module _ (d : Double) where
  abbrev pub entity_id_of : EntityState d → Bytes
  entity_id_of entity = entity.entity_id

  pub record StateDeltaTracker : Type 0 where
    pub entities : Map Bytes (EntityState d)
    pub flows : Map Bytes FlowConfig
    pub initialized : Bool

  abbrev pub new_tracker : StateDeltaTracker
  new_tracker = record { entities = []; flows = []; initialized = false }

  reset_flows :
      StateDeltaTracker
      → Result StateError (Map Bytes FlowConfig)
      → StateDeltaTracker × Result StateError (Unit {0})
  reset_flows tracker (err e) = (tracker, err e)
  reset_flows tracker (ok flows) = (record tracker { flows = flows; initialized = true }, ok tt)

  reset_entities :
      StateDeltaTracker
      → List FlowConfig
      → Result StateError (Map Bytes (EntityState d))
      → StateDeltaTracker × Result StateError (Unit {0})
  unfolding reset_flows index
  reset_entities tracker flows (err e) = (tracker, err e)
  reset_entities tracker flows (ok entities) =
      reset_flows (record tracker { entities = entities }) (index flow_id_of flows)

  -- `mEntities` is assigned before `Index` is called for the flows.
  unfoldable pub reset :
      List (EntityState d)
      → List FlowConfig
      → StateDeltaTracker
      → StateDeltaTracker × Result StateError (Unit {0})
  unfolding reset_entities index
  reset entities flows tracker = reset_entities tracker flows (index entity_id_of entities)

  -- The part of `Update` behind the two calls of `Index`.
  unfoldable pub difference :
      StateDeltaTracker → Map Bytes (EntityState d) → Map Bytes FlowConfig → DeltaState d
  unfolding upserts removals same_entity same_flow
  difference tracker current_entities current_flows = record {
    entity_upserts = upserts (same_entity d) tracker.entities current_entities;
    entity_removals = removals current_entities tracker.entities;
    flow_upserts = upserts same_flow tracker.flows current_flows;
    flow_removals = removals current_flows tracker.flows;
  }

  index_both :
      List (EntityState d)
      → List FlowConfig
      → Result StateError (Map Bytes (EntityState d) × Map Bytes FlowConfig)
  unfolding index
  index_both entities flows = do
    current_entities ← index entity_id_of entities
    current_flows ← index flow_id_of flows
    ok (current_entities, current_flows)

  update_indexed :
      StateDeltaTracker
      → Result StateError (Map Bytes (EntityState d) × Map Bytes FlowConfig)
      → StateDeltaTracker × Result StateError (DeltaState d)
  unfolding difference
  update_indexed tracker (err e) = (tracker, err e)
  update_indexed tracker (ok (entities, flows)) = (
    record { entities = entities; flows = flows; initialized = true },
    ok (difference tracker entities flows),
  )

  unfoldable pub update :
      List (EntityState d)
      → List FlowConfig
      → StateDeltaTracker
      → StateDeltaTracker × Result StateError (DeltaState d)
  unfolding index_both update_indexed
  update entities flows tracker = update_indexed tracker (index_both entities flows)

  -- `StateDeltaTracker::Empty`
  unfoldable pub is_empty_delta : DeltaState d → Bool
  unfolding is_empty
  is_empty_delta delta =
      is_empty delta.entity_upserts
      && is_empty delta.entity_removals
      && is_empty delta.flow_upserts
      && is_empty delta.flow_removals
