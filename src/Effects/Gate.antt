-- ===== src/Effects/Gate.antt =====
-- The gate and its methods.
use afsim_ns.Base.{
  ℕ, Bool, true, false, not, List, [], ◌∷◌, Option, none, some, Bytes, codes, leb, equals,
  bytes_ord, pair_ord, if◌then◌else◌, ok, err, ◌>>=◌, traverse, cmp_bytes,
}
use afsim_ns.Base.Map.{Map, lookup, insert}
use afsim_ns.Json.{Json, unknown_state, json_string, json_uint64, json_object_array}

pub data EffectState : Type 0 where
  available degraded blocked : EffectState

pub record EffectDecision : Type 0 where
  pub entity_id : Bytes
  pub subsystem_id : Bytes
  pub subsystem_type : Bytes
  pub peer_entity_id : Bytes
  pub state : EffectState
  pub revision : ℕ

pub record NetworkEffectGate : Type 0 where
  pub states : Map (Bytes × Bytes) EffectState
  pub latest_revision : ℕ

abbrev pub new_gate : NetworkEffectGate
new_gate = record { states = []; latest_revision = 0 }

unfoldable pub parse_state : Bytes → Json EffectState
unfolding cmp_bytes
parse_state value =
    if equals value (codes "AVAILABLE")
    then ok available
    else if equals value (codes "DEGRADED")
    then ok degraded
    else if equals value (codes "BLOCKED")
    then ok blocked
    else err unknown_state

unfoldable pub to_string : EffectState → Bytes
to_string available = codes "AVAILABLE"
to_string degraded = codes "DEGRADED"
to_string blocked = codes "BLOCKED"

-- One object of the array "effects".
unfoldable pub effect_decision : ℕ → Bytes → Json EffectDecision
unfolding json_string parse_state
effect_decision revision object = do
  entity_id ← json_string object (codes "entity_id")
  subsystem_id ← json_string object (codes "subsystem_id")
  subsystem_type ← json_string object (codes "subsystem_type")
  peer_entity_id ← json_string object (codes "peer_entity_id")
  text ← json_string object (codes "state")
  state ← parse_state text
  ok (record {
    entity_id = entity_id;
    subsystem_id = subsystem_id;
    subsystem_type = subsystem_type;
    peer_entity_id = peer_entity_id;
    state = state;
    revision = revision;
  })

-- `EffectObjects`, and the loop that pushes the decisions.
unfoldable pub effect_decisions : ℕ → Bytes → Json (List EffectDecision)
unfolding json_object_array traverse effect_decision
effect_decisions revision line =
    json_object_array line (codes "effects") >>= traverse (effect_decision revision)

-- The loop that stores the decisions.
unfoldable pub store :
    List EffectDecision → Map (Bytes × Bytes) EffectState → Map (Bytes × Bytes) EffectState
unfolding insert
store [] states = states
store (e ∷ decisions) states = store decisions (insert (e.entity_id, e.subsystem_id) e.state states)

-- The part under the lock.
unfoldable pub commit :
    ℕ → List EffectDecision → NetworkEffectGate → NetworkEffectGate × List EffectDecision
unfolding store
commit revision decisions gate =
    if leb revision gate.latest_revision
    then (gate, [])
    else (record { states = store decisions gate.states; latest_revision = revision }, decisions)

-- What a line holds: `none` for a message of another type.
unfoldable pub read_metrics : Bytes → Json (Option (ℕ × List EffectDecision))
unfolding json_string json_uint64 effect_decisions cmp_bytes
read_metrics line = do
  message_type ← json_string line (codes "message_type")
  if not (equals message_type (codes "ns3_metrics"))
      then ok none
      else (json_uint64 line (codes "revision") >>= λ revision.
          effect_decisions revision line >>= λ decisions. ok (some (revision, decisions)))

-- With nothing thrown so far.
unfoldable pub commit_read :
    NetworkEffectGate
    → Json (Option (ℕ × List EffectDecision))
    → NetworkEffectGate × Json (List EffectDecision)
unfolding commit
commit_read gate (err e) = (gate, err e)
commit_read gate (ok none) = (gate, ok [])
commit_read gate (ok (some (revision, decisions))) =
    let (gate', fresh) = commit revision decisions gate in (gate', ok fresh)

unfoldable pub update_from_metrics_json :
    Bytes → NetworkEffectGate → NetworkEffectGate × Json (List EffectDecision)
unfolding read_metrics commit_read
update_from_metrics_json line gate = commit_read gate (read_metrics line)

unfoldable pub or_blocked : Option EffectState → EffectState
or_blocked none = blocked
or_blocked (some state) = state

unfoldable pub get_state : NetworkEffectGate → Bytes → Bytes → EffectState
unfolding lookup or_blocked
get_state gate entity_id subsystem_id = or_blocked (lookup (entity_id, subsystem_id) gate.states)

unfoldable pub is_blocked : EffectState → Bool
is_blocked available = false
is_blocked degraded = false
is_blocked blocked = true

unfoldable pub can_operate : NetworkEffectGate → Bytes → Bytes → Bool
unfolding get_state is_blocked
can_operate gate entity_id subsystem_id = not (is_blocked (get_state gate entity_id subsystem_id))
