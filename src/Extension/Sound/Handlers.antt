-- ===== src/Extension/Sound/Handlers.antt =====
-- The handlers of messages keep the invariant.
use afsim_ns.Base.{
  ℕ, refl, true, false, Bool, Bytes, Option, none, some, arith, Bool-cases, Option-cases, inl, inr,
  pair_ord, nat_ord, if-both,
}
use afsim_ns.Base.Map.{Map, lookup, insert, All-insert}
use afsim_ns.Double.{Double, Laws}
use afsim_ns.Double.Math.{Math, CastLaws}
use afsim_ns.Delta.{is_some}
use afsim_ns.Transport.{MessageTransportDecision}
use afsim_ns.Controller.{decide_message}
use afsim_ns.Extension.Afsim.{Comm, Message, Result, Simulation}
use afsim_ns.Extension.State.{LinkKey, MessageKey, LinkObservation, Extension}
use afsim_ns.Extension.Observe.{observation_at, update_observed_data_rate}
use afsim_ns.Extension.Messages.{
  message_transmitted, is_delivered, decided, attempted, end_entities, gate_between,
  message_delivery_attempt, is_nonzero, count, settle, received, message_received, discarded,
  message_discarded,
}
use afsim_ns.Extension.Sound.{
  IsCounted, IsSound, KeepsCounts, KeepsCounts-IsCounted, observation_at-IsCounted,
  update_observed_data_rate-KeepsCounts, delay_and_rate-KeepsCounts,
}
use afsim_ns.Extension.Sound.Flows.{record_flow-IsSound}

module _ (d : Double) (m : Math d) where
  open d use {F}

  count-IsCounted :
      (failed : Bool) (o : LinkObservation d) → IsCounted d o → IsCounted d (count d m failed o)
  unfolding count
  count-IsCounted failed o h = record {
    failures = ground (arith, h.failures);
    loss_rate = h.loss_rate;
  }

  pub settle-KeepsCounts :
      (time : F) (key : MessageKey) (message : Message) (infers gated : Bool)
      (o : LinkObservation d) (times : Map MessageKey F)
      → KeepsCounts d m o (settle d m time key message infers gated (o, times)).0
  unfolding settle
  settle-KeepsCounts time key message infers true o times = (refl, refl, refl)
  settle-KeepsCounts time key message infers false o times =
      delay_and_rate-KeepsCounts d m time key message infers o times

  settle-IsCounted :
      (time : F) (key : MessageKey) (message : Message) (infers gated : Bool)
      (o : LinkObservation d) (times : Map MessageKey F)
      → IsCounted d o
      → IsCounted d (settle d m time key message infers gated (o, times)).0
  settle-IsCounted time key message infers gated o times h =
      KeepsCounts-IsCounted d m o (settle d m time key message infers gated (o, times)).0
        (settle-KeepsCounts time key message infers gated o times) h

  rate-IsCounted :
      (rate : F) (o : LinkObservation d)
      → IsCounted d o
      → IsCounted d (update_observed_data_rate d m rate o)
  rate-IsCounted rate o h =
      KeepsCounts-IsCounted d m o (update_observed_data_rate d m rate o)
        (update_observed_data_rate-KeepsCounts d m rate o) h

  decided-IsSound :
      (key : MessageKey) (decision : MessageTransportDecision d) (result : Result d)
      (ext : Extension d)
      → IsSound d ext
      → IsSound d (decided d m key decision result ext).0
  unfolding decided
  decided-IsSound key decision result ext h =
      elim (Bool-cases (is_delivered decision.disposition)) [
        | inl e ↦
            rw (e, decided)
              (record { observations = h.observations; flows = h.flows; loss_rate = h.loss_rate })
        | inr e ↦
            rw (e, decided)
              (record { observations = h.observations; flows = h.flows; loss_rate = h.loss_rate })
      ]

  gate_between-IsSound :
      (ends : Option (Bytes × Bytes)) (key : MessageKey) (serial : ℕ) (result : Result d)
      (ext : Extension d)
      → IsSound d ext
      → IsSound d (gate_between d m ends key serial result ext).0
  unfolding gate_between
  gate_between-IsSound none key serial result ext h = record {
    observations = h.observations;
    flows = h.flows;
    loss_rate = h.loss_rate;
  }
  gate_between-IsSound (some (source, target)) key serial result ext h =
      decided-IsSound key (decide_message d ext.controller source target serial) result ext h

  module _ (laws : Laws d) (casts : CastLaws d m) where
    pub message_transmitted-IsSound :
        (sim : Simulation d) (time : F) (transmitter : Option Comm) (message : Message)
        (ext : Extension d)
        → IsSound d ext
        → IsSound d (message_transmitted d m sim time transmitter message ext)
    unfolding message_transmitted
    message_transmitted-IsSound sim time none message ext h = h
    message_transmitted-IsSound sim time (some transmitter) message ext h =
        record_flow-IsSound d m casts sim time transmitter (sim.comm_at message.destination) message
          _ (record { observations = h.observations; flows = h.flows; loss_rate = h.loss_rate })

    attempted-IsSound :
        (sim : Simulation d) (time : F) (transmitter receiver : Comm) (message : Message)
        (result : Result d) (ext : Extension d)
        → IsSound d ext
        → IsSound d (attempted d m sim time transmitter receiver message result ext)
    unfolding attempted
    attempted-IsSound sim time transmitter receiver message result ext h =
        let k =
          record_flow-IsSound d m casts sim time transmitter (some receiver) message
            (record ext {
              externally_gated =
                  insert (transmitter, message.serial_number) tt ext.externally_gated;
            })
            (record { observations = h.observations; flows = h.flows; loss_rate = h.loss_rate }) in
        record {
          observations =
              All-insert (IsCounted d) (transmitter, receiver) _ _
                (KeepsCounts-IsCounted d m _ _ (update_observed_data_rate-KeepsCounts d m _ _)
                  (observation_at-IsCounted d m laws (transmitter, receiver) _ k.observations))
                k.observations;
          flows = k.flows;
          loss_rate = k.loss_rate;
        }

    pub message_delivery_attempt-IsSound :
        (sim : Simulation d) (time : F) (transmitter receiver : Option Comm) (message : Message)
        (result : Result d) (ext : Extension d)
        → IsSound d ext
        → IsSound d
            (message_delivery_attempt d m sim time transmitter receiver message result ext).0
    unfolding message_delivery_attempt
    message_delivery_attempt-IsSound sim time none receiver message result ext h = h
    message_delivery_attempt-IsSound sim time (some transmitter) none message result ext h = h
    message_delivery_attempt-IsSound sim time (some transmitter) (some receiver) message result ext
          h =
        gate_between-IsSound (end_entities d m sim transmitter receiver)
          (transmitter, message.serial_number) message.serial_number result _
          (attempted-IsSound sim time transmitter receiver message result ext h)

    received-IsSound :
        (time : F) (link : LinkKey) (key : MessageKey) (message : Message) (result : Result d)
        (ext : Extension d)
        → IsSound d ext
        → IsSound d (received d m time link key message result ext)
    unfolding received
    received-IsSound time link key message result ext h =
        let o = observation_at-IsCounted d m laws link ext.link_observations h.observations in
        let counted = count-IsCounted (is_nonzero result.failed_status) _ o in
        let settled =
          settle-IsCounted time key message true (is_some (lookup key ext.externally_gated)) _
            ext.transmit_times counted in
        record {
          observations =
              All-insert (IsCounted d) link _ _ (rate-IsCounted result.data_rate _ settled)
                h.observations;
          flows = h.flows;
          loss_rate = h.loss_rate;
        }

    pub message_received-IsSound :
        (sim : Simulation d) (time : F) (transmitter receiver : Option Comm) (message : Message)
        (result : Result d) (ext : Extension d)
        → IsSound d ext
        → IsSound d (message_received d m sim time transmitter receiver message result ext)
    unfolding message_received
    message_received-IsSound sim time none receiver message result ext h = h
    message_received-IsSound sim time (some transmitter) none message result ext h = h
    message_received-IsSound sim time (some transmitter) (some receiver) message result ext h =
        received-IsSound time (transmitter, receiver) (transmitter, message.serial_number) message
          result _
          (record_flow-IsSound d m casts sim time transmitter (some receiver) message ext h)

    discarded-IsSound :
        (time : F) (link : LinkKey) (key : MessageKey) (message : Message) (ext : Extension d)
        → IsSound d ext
        → IsSound d (discarded d m time link key message ext)
    unfolding discarded
    discarded-IsSound time link key message ext h =
        let o = observation_at-IsCounted d m laws link ext.link_observations h.observations in
        let observation = observation_at d m link ext.link_observations in
        let was_dropped = is_some (lookup key ext.externally_dropped) in
        let gated = is_some (lookup key ext.externally_gated) in
        record {
          observations =
              All-insert (IsCounted d) link _ ext.link_observations
                (if-both (λ r. IsCounted d r.0) was_dropped (observation, ext.transmit_times)
                  (settle d m time key message false gated
                    (count d m true observation, ext.transmit_times))
                  o
                  (settle-IsCounted time key message false gated (count d m true observation)
                    ext.transmit_times (count-IsCounted true observation o)))
                h.observations;
          flows = h.flows;
          loss_rate = h.loss_rate;
        }

    pub message_discarded-IsSound :
        (sim : Simulation d) (time : F) (transmitter : Option Comm) (message : Message)
        (ext : Extension d)
        → IsSound d ext
        → IsSound d (message_discarded d m sim time transmitter message ext)
    unfolding message_discarded
    message_discarded-IsSound sim time none message ext h = h
    message_discarded-IsSound sim time (some transmitter) message ext h =
        elim (Option-cases (sim.comm_at message.destination)) [
          | inl e ↦ rw (e, message_discarded) h
          | inr (receiver, e) ↦
              rw (e, message_discarded)
                (discarded-IsSound time (transmitter, receiver) (transmitter, message.serial_number)
                  message _
                  (record_flow-IsSound d m casts sim time transmitter (some receiver) message ext
                    h))
        ]
