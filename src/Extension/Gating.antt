-- ===== src/Extension/Gating.antt =====
-- A message from the delivery attempt to the end, by what the gate decides.
use afsim_ns.Base.{
  subst, ℕ, ◌≡◌, refl, true, not, Bool-cases, Option-cases, inl, inr, Bytes, codes, Option, none,
  some, ◌++◌, equals_refl, pair_ord, nat_ord, if◌then◌else◌, ap,
}
use afsim_ns.Base.Map.{lookup, insert, lookup-insert, lookup-erase, IsSorted}
use afsim_ns.Double.{Double}
use afsim_ns.Double.Math.{Math}
use afsim_ns.Delta.{is_some}
use afsim_ns.Transport
use afsim_ns.Transport.{MessageTransportDecision}
use afsim_ns.Controller.{AfsimBridgeController, decide_message}
use afsim_ns.Extension.Afsim.{Comm, Message, Result, Simulation, unknown_error, link_connected}
use afsim_ns.Extension.State.{LinkKey, MessageKey, Extension}
use afsim_ns.Extension.Observe.{observation_at, update_observed_data_rate, flow_ends, record_flow}
use afsim_ns.Extension.Messages.{
  drop_reason, gate_drop_reason_prefix, gate_total_delay_reason_prefix, with_signal_level,
  is_delivered, total_delay_seconds, dropped_result, decided, end_entities, attempted, gate_between,
  message_delivery_attempt,
}

module _ (d : Double) (m : Math d) where
  open d use {F}

  -- A flow is noted, and nothing else changes.
  pub record_flow-rest :
      (sim : Simulation d) (time : F) (transmitter : Comm) (receiver : Option Comm)
      (message : Message) (ext : Extension d)
      → record_flow d m sim time transmitter receiver message ext ≡ record ext {
        observed_flows = (record_flow d m sim time transmitter receiver message ext).observed_flows;
      }
  unfolding record_flow
  record_flow-rest sim time transmitter receiver message ext =
      elim (Option-cases (flow_ends d m sim transmitter receiver)) [
        | inl e ↦ rw (e, record_flow) refl
        | inr (ends, e) ↦ rw (e, record_flow) refl
      ]

  module _ (sim : Simulation d) (time : F) (transmitter receiver : Comm) (message : Message)
      (result : Result d) (ext : Extension d) where
    abbrev pub message_key : MessageKey
    message_key = (transmitter, message.serial_number)

    abbrev pub link_key : LinkKey
    link_key = (transmitter, receiver)

    abbrev pub before_gate : Extension d
    before_gate = attempted d m sim time transmitter receiver message result ext

    abbrev pub gated_first : Extension d
    gated_first = record ext { externally_gated = insert message_key tt ext.externally_gated }

    pub attempted-rest :
        (before_gate.controller ≡ ext.controller)
        × (before_gate.externally_dropped ≡ ext.externally_dropped)
        × (before_gate.externally_gated ≡ insert message_key tt ext.externally_gated)
        × (before_gate.link_observations
            ≡ insert link_key
                (update_observed_data_rate d m result.data_rate
                  (observation_at d m link_key ext.link_observations))
                ext.link_observations)
    unfolding attempted
    attempted-rest =
        let p = record_flow-rest sim time transmitter (some receiver) message gated_first in
        (
          ap (λ x. x.controller) p,
          ap (λ x. x.externally_dropped) p,
          ap (λ x. x.externally_gated) p,
          ap
              (λ x.
                insert link_key
                  (update_observed_data_rate d m result.data_rate
                    (observation_at d m link_key x.link_observations))
                  x.link_observations)
              p,
        )

  -- The answer to AFSIM, and the two sets after the attempt.
  abbrev pub Answers :
      MessageKey → MessageTransportDecision d → Result d → Extension d × Result d → Type 0
  Answers key decision result (after, answer) =
      let delivered = is_delivered decision.disposition in
      (is_some (lookup key after.externally_gated) ≡ true)
      × (is_some (lookup key after.externally_dropped) ≡ not delivered)
      × (answer.checked_status ≡ with_signal_level result.checked_status)
      × (answer.failed_status
          ≡ (if delivered then result.failed_status else with_signal_level result.failed_status))
      × (answer.disconnect_reason
          ≡ (if delivered then link_connected else drop_reason decision.disposition))
      × (answer.disconnect_text ≡ (
          if delivered
          then gate_total_delay_reason_prefix
            ++ m.to_text (total_delay_seconds d m decision.delay_ms)
          else gate_drop_reason_prefix ++ decision.reason))

  decided-Answers :
      (key : MessageKey) (decision : MessageTransportDecision d) (result : Result d)
      (ext : Extension d)
      → is_some (lookup key ext.externally_gated) ≡ true
      → IsSorted ext.externally_dropped
      → Answers key decision result (decided d m key decision result ext)
  unfolding decided dropped_result
  decided-Answers key decision result ext h s =
      elim (Bool-cases (is_delivered decision.disposition)) [
        | inl e ↦
            rw (e, decided, lookup-erase key key ext.externally_dropped s, equals_refl key)
              (h, refl, refl, refl, refl, refl)
        | inr e ↦
            rw (e, decided, lookup-insert key key tt ext.externally_dropped, equals_refl key)
              (h, refl, refl, refl, refl, refl)
      ]

  -- By whether both ends have a platform.
  abbrev pub AnswersFor :
      Option (Bytes × Bytes)
      → MessageKey
      → ℕ
      → AfsimBridgeController d
      → Result d
      → Extension d × Result d
      → Type 0
  AnswersFor none key serial c result (after, answer) =
      (is_some (lookup key after.externally_gated) ≡ true)
      × (is_some (lookup key after.externally_dropped) ≡ true)
      × (answer ≡ dropped_result d m unknown_error (codes "PLATFORM_NOT_FOUND") result)
  AnswersFor (some (source, target)) key serial c result step =
      Answers key (Transport.decide d c.message_gate source target serial) result step

  gate_between-AnswersFor :
      (ends : Option (Bytes × Bytes)) (key : MessageKey) (serial : ℕ) (c : AfsimBridgeController d)
      (result : Result d) (ext : Extension d)
      → ext.controller ≡ c
      → is_some (lookup key ext.externally_gated) ≡ true
      → IsSorted ext.externally_dropped
      → AnswersFor ends key serial c result (gate_between d m ends key serial result ext)
  unfolding gate_between decide_message
  gate_between-AnswersFor none key serial c result ext same h s =
      (h, rw (lookup-insert key key tt ext.externally_dropped, equals_refl key) refl, refl)
  gate_between-AnswersFor (some (source, target)) key serial c result ext same h s =
      subst
        (λ k.
          Answers key (Transport.decide d k.message_gate source target serial) result
            (gate_between d m (some (source, target)) key serial result ext))
        same
        (decided-Answers key (decide_message d ext.controller source target serial) result ext h s)

  -- A delivery attempt between two comms notes the message as gated, and asks the message gate of
  -- the controller, if both ends have a platform. If the gate delivers, the message is not noted as
  -- dropped, AFSIM's status of failures stays as it was, and the reason has the total delay. If
  -- not, or if a platform is missing, the message is noted as dropped, the signal level is marked
  -- as failed, and the reason is that of the decision or PLATFORM_NOT_FOUND. Either way the signal
  -- level is marked as checked.
  pub message_delivery_attempt_lem :
      (sim : Simulation d) (time : F) (transmitter receiver : Comm) (message : Message)
      (result : Result d) (ext : Extension d)
      → IsSorted ext.externally_dropped
      → AnswersFor
          (end_entities d m sim transmitter receiver)
          (transmitter, message.serial_number)
          message.serial_number
          ext.controller
          result
          (message_delivery_attempt d m sim time
            (some transmitter)
            (some receiver)
            message
            result
            ext)
  unfolding message_delivery_attempt
  message_delivery_attempt_lem sim time transmitter receiver message result ext s =
      let (controller, dropped, gated, _) =
        attempted-rest sim time transmitter receiver message result ext in
      let key : MessageKey = (transmitter, message.serial_number) in
      gate_between-AnswersFor (end_entities d m sim transmitter receiver) key message.serial_number
        ext.controller result (attempted d m sim time transmitter receiver message result ext)
        controller (rw (gated, lookup-insert key key tt ext.externally_gated, equals_refl key) refl)
        (rw dropped s)
