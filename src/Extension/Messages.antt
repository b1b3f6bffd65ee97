-- ===== src/Extension/Messages.antt =====
-- The handlers of AFSIM's events for messages. A pointer that may be null is an option.
use afsim_ns.Base.{
  ℕ, suc, Bool, true, false, not, ◌||◌, ◌++◌, Bytes, codes, Option, none, some, ◌==◌, if◌then◌else◌,
  pair_ord, nat_ord,
}
use afsim_ns.Base.Map.{Map, lookup, insert, erase}
use afsim_ns.Double.{Double, fmax}
use afsim_ns.Double.Math.{Math}
use afsim_ns.Protocol.{decimal}
use afsim_ns.Delta.{is_some}
use afsim_ns.Transport.{
  MessageTransportDecision, MessageDisposition, no_link, drop_message, deliver,
}
use afsim_ns.Controller.{decide_message}
use afsim_ns.Extension.Afsim.{
  Comm, Message, Status, DisconnectReason, unknown_error, no_router_bridge,
  signal_level_insufficient, link_connected, Result, Simulation,
}
use afsim_ns.Extension.State.{MessageKey, LinkKey, LinkObservation, Extension}
use afsim_ns.Extension.Observe.{
  observation_at, update_observed_data_rate, update_observed_delay_and_rate, record_flow,
}

abbrev pub gate_drop_reason_prefix : Bytes
gate_drop_reason_prefix = codes "AFSIM_NS3_GATE_DROP:"

abbrev pub gate_total_delay_reason_prefix : Bytes
gate_total_delay_reason_prefix = codes "AFSIM_NS3_GATE_TOTAL_DELAY_SECONDS:"

-- `status |= cSIGNAL_LEVEL`
abbrev pub with_signal_level : Status → Status
with_signal_level status = record status { signal_level = true }

-- `status != 0`
unfoldable pub is_nonzero : Status → Bool
is_nonzero status = status.signal_level || not (status.others == 0)

abbrev pub is_delivered : MessageDisposition → Bool
is_delivered no_link = false
is_delivered drop_message = false
is_delivered deliver = true

abbrev pub drop_reason : MessageDisposition → DisconnectReason
drop_reason no_link = no_router_bridge
drop_reason drop_message = signal_level_insufficient
drop_reason deliver = signal_level_insufficient

module _ (d : Double) (m : Math d) where
  open d use {F}

  unfoldable pub message_transmitted :
      Simulation d → F → Option Comm → Message → Extension d → Extension d
  unfolding insert record_flow
  message_transmitted sim time none message ext = ext
  message_transmitted sim time (some transmitter) message ext =
      record_flow d m sim time transmitter (sim.comm_at message.destination) message (record ext {
        transmit_times = insert (transmitter, message.serial_number) time ext.transmit_times;
      })

  -- A result that says that the message is lost.
  unfoldable pub dropped_result : DisconnectReason → Bytes → Result d → Result d
  dropped_result reason text result = record result {
    checked_status = with_signal_level result.checked_status;
    failed_status = with_signal_level result.failed_status;
    disconnect_reason = reason;
    disconnect_text = gate_drop_reason_prefix ++ text;
  }

  -- `max(0.0, delayMs) / 1000.0`
  unfoldable pub total_delay_seconds : F → F
  total_delay_seconds delay_ms = d.divide (fmax d d.nought delay_ms) (d.of_uint64 1000)

  -- What the decision of the controller does.
  unfoldable pub decided :
      MessageKey → MessageTransportDecision d → Result d → Extension d → Extension d × Result d
  unfolding dropped_result total_delay_seconds insert erase
  decided key decision result ext = elim (is_delivered decision.disposition) [
    | false ↦ (
      record ext { externally_dropped = insert key tt ext.externally_dropped },
      dropped_result (drop_reason decision.disposition) decision.reason result,
    )
    | true ↦ (
      record ext { externally_dropped = erase key ext.externally_dropped },
      record result {
        checked_status = with_signal_level result.checked_status;
        disconnect_reason = link_connected;
        disconnect_text =
            gate_total_delay_reason_prefix ++ m.to_text (total_delay_seconds decision.delay_ms);
      },
    )
  ]

  -- The entities of the two ends; `none` where an end has no platform.
  unfoldable pub end_entities : Simulation d → Comm → Comm → Option (Bytes × Bytes)
  unfolding decimal
  end_entities sim transmitter receiver = elim (sim.comm_platform transmitter) [
    | none ↦ none
    | some source ↦ elim (sim.comm_platform receiver) [
      | none ↦ none
      | some target ↦
          some (decimal (sim.platform_index source), decimal (sim.platform_index target))
    ]
  ]

  -- The part of `MessageDeliveryAttempt` before the platforms are asked for.
  unfoldable pub attempted :
      Simulation d → F → Comm → Comm → Message → Result d → Extension d → Extension d
  unfolding record_flow insert observation_at update_observed_data_rate
  attempted sim time transmitter receiver message result ext =
      let gated : Extension d = record ext {
        externally_gated = insert (transmitter, message.serial_number) tt ext.externally_gated;
      } in
      let noted = record_flow d m sim time transmitter (some receiver) message gated in
      record noted {
        link_observations =
            insert (transmitter, receiver)
              (update_observed_data_rate d m result.data_rate
                (observation_at d m (transmitter, receiver) noted.link_observations))
              noted.link_observations;
      }

  unfoldable pub gate_between :
      Option (Bytes × Bytes) → MessageKey → ℕ → Result d → Extension d → Extension d × Result d
  unfolding insert dropped_result decide_message decided
  gate_between none key serial result ext = (
    record ext { externally_dropped = insert key tt ext.externally_dropped },
    dropped_result unknown_error (codes "PLATFORM_NOT_FOUND") result,
  )
  gate_between (some (source, target)) key serial result ext =
      decided key (decide_message d ext.controller source target serial) result ext

  unfoldable pub message_delivery_attempt :
      Simulation d
      → F
      → Option Comm
      → Option Comm
      → Message
      → Result d
      → Extension d
      → Extension d × Result d
  unfolding attempted gate_between end_entities
  message_delivery_attempt sim time (some transmitter) (some receiver) message result ext =
      gate_between (end_entities sim transmitter receiver) (transmitter, message.serial_number)
        message.serial_number result (attempted sim time transmitter receiver message result ext)
  message_delivery_attempt sim time none receiver message result ext = (ext, result)
  message_delivery_attempt sim time (some transmitter) none message result ext = (ext, result)

  -- `++completed`, and `++failures` if so told
  unfoldable pub count : Bool → LinkObservation d → LinkObservation d
  count failed observation = record observation {
    completed = suc observation.completed;
    failures = if failed then suc observation.failures else observation.failures;
  }

  -- A gated message only loses its time; of another one the delay is noted.
  unfoldable pub settle :
      F
      → MessageKey
      → Message
      → Bool
      → Bool
      → LinkObservation d × Map MessageKey F
      → LinkObservation d × Map MessageKey F
  unfolding update_observed_delay_and_rate erase
  settle time key message infers gated (observation, transmit_times) =
      if gated
      then (observation, erase key transmit_times)
      else update_observed_delay_and_rate d m time key message infers (observation, transmit_times)

  -- The part of `MessageReceived` behind `RecordFlow`.
  unfoldable pub received :
      F → LinkKey → MessageKey → Message → Result d → Extension d → Extension d
  unfolding observation_at count settle update_observed_data_rate insert erase lookup is_nonzero
  received time link key message result ext =
      let gated = is_some (lookup key ext.externally_gated) in
      let counted =
        count (is_nonzero result.failed_status) (observation_at d m link ext.link_observations) in
      let (observation, transmit_times) =
        settle time key message true gated (counted, ext.transmit_times) in
      record ext {
        externally_gated = erase key ext.externally_gated;
        transmit_times = transmit_times;
        link_observations =
            insert link (update_observed_data_rate d m result.data_rate observation)
              ext.link_observations;
      }

  unfoldable pub message_received :
      Simulation d → F → Option Comm → Option Comm → Message → Result d → Extension d → Extension d
  unfolding record_flow received
  message_received sim time (some transmitter) (some receiver) message result ext =
      received time (transmitter, receiver) (transmitter, message.serial_number) message result
        (record_flow d m sim time transmitter (some receiver) message ext)
  message_received sim time none receiver message result ext = ext
  message_received sim time (some transmitter) none message result ext = ext

  -- The part of `MessageDiscarded` behind the tests.
  unfoldable pub discarded : F → LinkKey → MessageKey → Message → Extension d → Extension d
  unfolding observation_at count settle insert erase lookup
  discarded time link key message ext =
      let was_dropped = is_some (lookup key ext.externally_dropped) in
      let gated = is_some (lookup key ext.externally_gated) in
      let observation = observation_at d m link ext.link_observations in
      let (settled, transmit_times) =
        if was_dropped
        then (observation, ext.transmit_times)
        else settle time key message false gated (count true observation, ext.transmit_times) in
      record ext {
        externally_dropped = erase key ext.externally_dropped;
        externally_gated = erase key ext.externally_gated;
        transmit_times = transmit_times;
        link_observations = insert link settled ext.link_observations;
      }

  unfoldable pub message_discarded :
      Simulation d → F → Option Comm → Message → Extension d → Extension d
  unfolding record_flow discarded
  message_discarded sim time none message ext = ext
  message_discarded sim time (some transmitter) message ext =
      elim (sim.comm_at message.destination) [
        | none ↦ ext
        | some receiver ↦
            discarded time (transmitter, receiver) (transmitter, message.serial_number) message
              (record_flow d m sim time transmitter (some receiver) message ext)
      ]
