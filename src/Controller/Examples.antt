-- ===== src/Controller/Examples.antt =====
-- A controller that is given states and a metrics line.
use afsim_ns.Base.{
  arith, ◌↔◌, ℕ, suc, false, equals, bytes_ord, if◌then◌else◌, ◌≤◌, ◌≡◌, refl, List, [], ◌∷◌, Bytes,
  codes, ok, none, some,
}
use afsim_ns.Double.{fixed_point}
use afsim_ns.Protocol.{EntityState, FlowConfig}
use afsim_ns.Protocol.Samples.{tank, traffic}
use afsim_ns.Delta.{new_tracker, entity_id_of, flow_id_of, empty_or_duplicate_id}
use afsim_ns.Delta.Index.{HasDistinctIds}
use afsim_ns.Protocol.{DeltaState, build_init_message, build_delta_message}
use afsim_ns.Protocol.Framing.{IsPlain}
use afsim_ns.Tcp.{dispatch_lines}
use afsim_ns.Tcp.Stream.{stream}
use afsim_ns.Controller.Wire.{dispatch-messages}
use afsim_ns.Controller.Throws.{KeepsClient, submit_throws, submit_current_state_lem}
use afsim_ns.Effects
use afsim_ns.Effects.{EffectDecision, blocked, degraded, EffectState}
use afsim_ns.Transport
use afsim_ns.Tcp.{Client}
use afsim_ns.Controller.Submit.{
  AfsimBridgeController, StateSubmitResult, initial_queued, no_change, submit_current_state,
}
use afsim_ns.Controller.Receive.{
  EffectSink, exception, effect_key, on_json_line, apply_pending_effects,
}
use afsim_ns.Controller.Current.{Holds, submit_twice}
use afsim_ns.Controller.Pending.{Received, on_json_line_lem, noted, apply_pending_effects_lem}

abbrev client : Client
client = record {
  config = record {
    host = codes "h";
    port = 5555;
    connect_timeout_ms = 1;
    reconnect_delay_ms = 1;
    max_pending_messages = 4;
  };
  running = false;
  connected = false;
  pending = [];
  resync = [];
}

abbrev fresh : AfsimBridgeController fixed_point
fresh = record {
  client = client;
  delta_tracker = new_tracker fixed_point;
  message_gate = Transport.new_gate fixed_point;
  gate = Effects.new_gate;
  pending_effects = [];
}

abbrev entities : List (EntityState fixed_point)
entities = tank (codes "2") 0 ∷ tank (codes "1") 0 ∷ []

abbrev flows : List FlowConfig
flows = traffic (codes "f") 10 ∷ []

abbrev submitted : AfsimBridgeController fixed_point
submitted = (submit_current_state fixed_point (codes "r") 1 entities flows fresh).0

submit_twice_example :
    Holds fixed_point submitted.delta_tracker entities flows
    × (submit_current_state fixed_point (codes "s") 2 entities flows submitted
        ≡ (submitted, ok no_change))
unfolding submit_current_state
submit_twice_example =
    submit_twice fixed_point (codes "r") (codes "s") 1 2 entities flows fresh submitted
      initial_queued (refl, (refl, tt)) refl

abbrev line : Bytes
line =
    codes
      "{\"message_type\":\"ns3_metrics\",\"revision\":4,\"links\":[],\"metrics\":[],\"effects\":[{\"entity_id\":\"1\",\"subsystem_id\":\"radar\",\"subsystem_type\":\"RADAR\",\"peer_entity_id\":\"2\",\"state\":\"DEGRADED\"}]}"

on_json_line_lem_example :
    Received fixed_point fresh
      (on_json_line fixed_point line fresh).0
      (Transport.update_from_metrics_json fixed_point line fresh.message_gate)
      (Effects.update_from_metrics_json line fresh.gate)
      (on_json_line fixed_point line fresh).1
on_json_line_lem_example = on_json_line_lem fixed_point line fresh

abbrev decision : Bytes → EffectState → EffectDecision
decision entity state = record {
  entity_id = entity;
  subsystem_id = codes "radar";
  subsystem_type = codes "RADAR";
  peer_entity_id = codes "2";
  state = state;
  revision = 4;
}

-- The simulation counts the effects and refuses those for the entity "3".
abbrev counting : EffectSink ℕ
counting = record {
  apply = λ e n.
      if equals e.entity_id (codes "3")
      then (n, some (exception (codes "refused")))
      else (suc n, none);
  report = some (λ e message n. n);
}

abbrev loaded : AfsimBridgeController fixed_point
loaded = record fresh {
  pending_effects =
      (effect_key (decision (codes "1") blocked), decision (codes "1") blocked)
      ∷ (effect_key (decision (codes "3") degraded), decision (codes "3") degraded)
      ∷ [];
}

apply_pending_effects_lem_example :
    ((apply_pending_effects counting fixed_point loaded 0).0.pending_effects ≡ [])
    × ((apply_pending_effects (noted counting) fixed_point loaded (0, [])).1 ≡ (
      (
        (apply_pending_effects counting fixed_point loaded 0).1.0,
        decision (codes "1") blocked ∷ decision (codes "3") degraded ∷ [],
      ),
      (apply_pending_effects counting fixed_point loaded 0).1.1,
    ))
    × ((apply_pending_effects counting fixed_point loaded 0).1.1 ≤ 2)
apply_pending_effects_lem_example = apply_pending_effects_lem counting fixed_point loaded 0

submit_current_state_lem_example :
    ((result : StateSubmitResult) × ((submit_current_state fixed_point
          (codes "r")
          1
          entities
          flows
          fresh).1
        ≡ ok result))
    ↔ (HasDistinctIds (entity_id_of fixed_point) entities × HasDistinctIds flow_id_of flows)
submit_current_state_lem_example =
    submit_current_state_lem fixed_point (codes "r") 1 entities flows fresh

-- Two flows with one identifier.
abbrev refused : AfsimBridgeController fixed_point
refused =
    (submit_current_state fixed_point (codes "r") 1 entities
      (traffic (codes "f") 10 ∷ traffic (codes "f") 20 ∷ []) fresh).0

submit_throws_example : KeepsClient fixed_point fresh refused
unfolding submit_current_state
submit_throws_example =
    submit_throws fixed_point (codes "r") 1 entities
      (traffic (codes "f") 10 ∷ traffic (codes "f") 20 ∷ []) fresh refused empty_or_duplicate_id
      refl

abbrev gone : DeltaState fixed_point
gone = record {
  entity_upserts = tank (codes "1") 90 ∷ [];
  entity_removals = codes "2" ∷ [];
  flow_upserts = [];
  flow_removals = codes "f" ∷ [];
}

number-IsPlain : (value : ℕ) → IsPlain (fixed_point.print value)
number-IsPlain value = record { bytes = (omega arith, tt) }

dispatch-messages_example :
    dispatch_lines (
      stream (
        build_init_message fixed_point (codes "r") 1 entities flows
        ∷ build_delta_message fixed_point (codes "r") 1 gone
        ∷ []))
    ≡ (
      build_init_message fixed_point (codes "r") 1 entities flows
          ∷ build_delta_message fixed_point (codes "r") 1 gone
          ∷ [],
      [],
    )
dispatch-messages_example =
    dispatch-messages fixed_point number-IsPlain (codes "r") 1 entities flows gone
