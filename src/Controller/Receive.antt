-- ===== src/Controller/Receive.antt =====
-- Metrics lines on the network thread, and the effects on the simulation thread.
use afsim_ns.Base.{
  ℕ, ◌+◌, Bool, List, [], ◌∷◌, Bytes, codes, Option, none, some, ok, err, bytes_ord, pair_ord,
}
use afsim_ns.Base.Map.{Map, insert}
use afsim_ns.Double.{Double}
use afsim_ns.Json.{Json}
use afsim_ns.Effects
use afsim_ns.Effects.{NetworkEffectGate, EffectDecision, EffectState}
use afsim_ns.Transport
use afsim_ns.Transport.{MessageTransportGate, MessageTransportDecision}
use afsim_ns.Controller.Submit.{AfsimBridgeController, EffectKey}

unfoldable pub effect_key : EffectDecision → EffectKey
effect_key decision = (
  decision.entity_id,
  (decision.subsystem_type, (decision.subsystem_id, decision.peer_entity_id)),
)

-- The loop over the decisions: the newest one of each key stays.
unfoldable pub keep_newest :
    List EffectDecision → Map EffectKey EffectDecision → Map EffectKey EffectDecision
unfolding insert effect_key
keep_newest [] pending = pending
keep_newest (decision ∷ decisions) pending =
    keep_newest decisions (insert (effect_key decision) decision pending)

module _ (d : Double) where
  -- Where the first gate throws the second is not called.
  unfoldable pub effects_after :
      Bytes
      → AfsimBridgeController d
      → MessageTransportGate d × Json Bool
      → AfsimBridgeController d × Json (Unit {0})
  unfolding Effects.update_from_metrics_json keep_newest
  effects_after line c (message_gate, err e) = (record c { message_gate = message_gate }, err e)
  effects_after line c (message_gate, ok fresh) =
      let (gate, result) = Effects.update_from_metrics_json line c.gate in
      let updated : AfsimBridgeController d = record c {
        message_gate = message_gate;
        gate = gate;
      } in
      elim result [
        | err e ↦ (updated, err e)
        | ok decisions ↦
            (record updated { pending_effects = keep_newest decisions c.pending_effects }, ok tt)
      ]

  unfoldable pub on_json_line :
      Bytes → AfsimBridgeController d → AfsimBridgeController d × Json (Unit {0})
  unfolding effects_after Transport.update_from_metrics_json
  on_json_line line c =
      effects_after line c (Transport.update_from_metrics_json d line c.message_gate)

  unfoldable pub get_state : AfsimBridgeController d → Bytes → Bytes → EffectState
  unfolding Effects.get_state
  get_state c entity_id subsystem_id = Effects.get_state c.gate entity_id subsystem_id

  unfoldable pub decide_message :
      AfsimBridgeController d → Bytes → Bytes → ℕ → MessageTransportDecision d
  unfolding Transport.decide
  decide_message c source target serial = Transport.decide d c.message_gate source target serial

-- What `ApplyNetworkEffect` may throw: a `std::exception` with its message, or anything else.
pub data Thrown : Type 0 where
  exception : Bytes → Thrown
  other_exception : Thrown

-- The text that the catch clause reports.
unfoldable pub caught : Thrown → Bytes
caught (exception message) = message
caught other_exception = codes "unknown exception"

-- The simulation behind the sink, in the state `S`. `apply` is the virtual `ApplyNetworkEffect`,
-- with what it throws; `report` is the handler for such errors, if one is set.
pub record EffectSink (S : Type 0) : Type 0 where
  pub apply : EffectDecision → S → S × Option Thrown
  pub report : Option (EffectDecision → Bytes → S → S)

module _ {S : Type 0} (sink : EffectSink S) where
  -- `ReportEffectError`: what the handler itself throws is dropped.
  unfoldable pub report_effect_error : EffectDecision → Bytes → S → S
  report_effect_error decision message s = elim sink.report [
    | none ↦ s
    | some handler ↦ handler decision message s
  ]

  unfoldable pub attempt : EffectDecision → S × Option Thrown → S × ℕ
  unfolding report_effect_error caught
  attempt decision (s, none) = (s, 1)
  attempt decision (s, some thrown) = (report_effect_error decision (caught thrown) s, 0)

  -- The loop over the swapped map, with the number of effects that were applied.
  unfoldable pub apply_each : Map EffectKey EffectDecision → S → S × ℕ
  unfolding attempt
  apply_each [] s = (s, 0)
  apply_each ((key, decision) ∷ pending) s =
      let (s', done) = attempt decision (sink.apply decision s) in
      let (t, applied) = apply_each pending s' in (t, done + applied)

  unfoldable pub apply_pending_effects :
      (d : Double) → AfsimBridgeController d → S → AfsimBridgeController d × (S × ℕ)
  unfolding apply_each
  apply_pending_effects d c s = (record c { pending_effects = [] }, apply_each c.pending_effects s)
