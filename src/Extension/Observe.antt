-- ===== src/Extension/Observe.antt =====
-- What the handlers note of links and flows.
use afsim_ns.Base.{
  ℕ, suc, ◌-◌, ◌^◌, Bool, true, false, not, ◌&&◌, ◌||◌, ◌++◌, Bytes, codes, Option, none, some, ltb,
  ◌==◌, if◌then◌else◌, equals, bytes_ord, pair_ord, nat_ord, cmp_bytes,
}
use afsim_ns.Base.Int.{ℤ, pos, negsuc}
use afsim_ns.Base.Map.{Map, lookup, insert, erase}
use afsim_ns.Double.{Double, fmax, fmin, at_least}
use afsim_ns.Double.Math.{Math}
use afsim_ns.Protocol.{decimal}
use afsim_ns.Delta.{is_empty}
use afsim_ns.Extension.Config.{max, milliseconds}
use afsim_ns.Extension.Afsim.{Comm, Message, Simulation}
use afsim_ns.Extension.State.{
  MessageKey, FlowKey, LinkKey, LinkObservation, new_observation, ObservedFlow, new_flow, Extension,
}

abbrev pub uint64_max : ℕ
uint64_max = 2 ^ 64 - 1

-- `n > 0` on an `int`
unfoldable pub is_positive : ℤ → Bool
is_positive (pos n) = ltb 0 n
is_positive (negsuc n) = false

-- The value of an `int` that is not negative, and 0 for one that is: `std::max(0, n)`.
unfoldable pub magnitude : ℤ → ℕ
magnitude (pos n) = n
magnitude (negsuc n) = 0

module _ (d : Double) (m : Math d) where
  open d use {F, less, times, divide, of_uint64}

  -- `mLinkObservations[key]`, which creates what is missing
  unfoldable pub observation_at : LinkKey → Map LinkKey (LinkObservation d) → LinkObservation d
  unfolding lookup
  observation_at key observations = elim (lookup key observations) [
    | none ↦ new_observation d
    | some observation ↦ observation
  ]

  -- `isfinite(rate) && rate > 0.0`
  unfoldable pub is_rate : F → Bool
  is_rate rate = d.is_finite rate && less d.nought rate

  unfoldable pub cast_rate : F → ℕ
  cast_rate rate = m.to_uint64 (fmin d rate (of_uint64 uint64_max))

  unfoldable pub update_observed_data_rate : F → LinkObservation d → LinkObservation d
  unfolding is_rate cast_rate
  update_observed_data_rate rate observation =
      if is_rate rate
      then record observation { last_data_rate_bps = cast_rate rate; has_data_rate = true }
      else observation

  -- The two parts of `UpdateObservedDelayAndRate` for a message that was sent at a known time.
  unfoldable pub add_delay : F → LinkObservation d → LinkObservation d
  add_delay delay_ms observation =
      if d.is_finite delay_ms
      then record observation {
        delay_total_ms = m.plus observation.delay_total_ms delay_ms;
        delay_samples = suc observation.delay_samples;
      }
      else observation

  unfoldable pub infer_rate : Bool → F → Message → LinkObservation d → LinkObservation d
  unfolding is_positive magnitude update_observed_data_rate
  infer_rate infers delay_seconds message observation =
      if infers && less d.nought delay_seconds && is_positive message.size_bits
      then update_observed_data_rate
          (divide (of_uint64 (magnitude message.size_bits)) delay_seconds) observation
      else observation

  unfoldable pub update_observed_delay_and_rate :
      F
      → MessageKey
      → Message
      → Bool
      → LinkObservation d × Map MessageKey F
      → LinkObservation d × Map MessageKey F
  unfolding lookup erase add_delay infer_rate
  update_observed_delay_and_rate time key message infers (observation, transmit_times) =
      elim (lookup key transmit_times) [
        | none ↦ (observation, transmit_times)
        | some transmitted ↦
            let delay_seconds = fmax d d.nought (m.minus time transmitted) in
            (
              infer_rate infers delay_seconds message
                  (add_delay (times delay_seconds (of_uint64 1000)) observation),
              erase key transmit_times,
            )
      ]

  -- The two platforms of a message, unless one is missing or they are the same entity.
  unfoldable pub flow_ends : Simulation d → Comm → Option Comm → Option (Comm × (Bytes × Bytes))
  unfolding decimal cmp_bytes
  flow_ends sim transmitter none = none
  flow_ends sim transmitter (some receiver) = elim (sim.comm_platform transmitter) [
    | none ↦ none
    | some source ↦ elim (sim.comm_platform receiver) [
      | none ↦ none
      | some target ↦
          let source_id = decimal (sim.platform_index source) in
          let target_id = decimal (sim.platform_index target) in
          if equals source_id target_id then none else some (receiver, (source_id, target_id))
    ]
  ]

  abbrev pub flow_key : Simulation d → Comm → Comm → Bytes → Bytes → Message → FlowKey
  flow_key sim transmitter receiver source target message = (
    source,
    (
      sim.comm_name transmitter,
      (target, (sim.comm_name receiver, (message.message_type, message.sub_type))),
    ),
  )

  unfoldable pub flow_id_text : FlowKey → Bytes
  flow_id_text (source, (source_comm, (target, (target_comm, (message_type, sub_type))))) =
      codes "afsim-message:"
      ++ source
      ++ codes ":"
      ++ source_comm
      ++ codes "->"
      ++ target
      ++ codes ":"
      ++ target_comm
      ++ codes ":"
      ++ message_type
      ++ codes ":"
      ++ sub_type

  -- The part for a flow that has no identifier yet.
  unfoldable pub named_flow : F → FlowKey → Bytes → Bytes → ObservedFlow d → ObservedFlow d
  unfolding is_empty flow_id_text milliseconds
  named_flow interval key source target flow =
      if is_empty flow.flow_id
      then record flow {
        flow_id = flow_id_text key;
        source_entity_id = source;
        target_entity_id = target;
        interval_ms = milliseconds d m interval 1;
        duration_ms = milliseconds d m interval 100;
      }
      else flow

  -- `lastSeenTime >= 0.0 && simTime > lastSeenTime`: the interval is the time since then.
  unfoldable pub seen_again : F → ObservedFlow d → ObservedFlow d
  unfolding milliseconds
  seen_again time flow =
      if at_least d flow.last_seen_time d.nought && less flow.last_seen_time time
      then record flow { interval_ms = milliseconds d m (m.minus time flow.last_seen_time) 1 }
      else flow

  unfoldable pub seen_flow : F → ℕ → ObservedFlow d → ObservedFlow d
  unfolding seen_again
  seen_flow time serial flow =
      if not flow.has_serial || not (flow.last_serial == serial)
      then record (seen_again time flow) {
        last_seen_time = time;
        last_serial = serial;
        has_serial = true;
      }
      else flow

  -- `mObservedFlows[key]`, which creates what is missing
  unfoldable pub flow_at : FlowKey → Map FlowKey (ObservedFlow d) → ObservedFlow d
  unfolding lookup cmp_bytes
  flow_at key flows = elim (lookup key flows) [ none ↦ new_flow d m | some flow ↦ flow ]

  unfoldable pub record_flow :
      Simulation d → F → Comm → Option Comm → Message → Extension d → Extension d
  unfolding flow_ends named_flow seen_flow flow_at max magnitude insert cmp_bytes
  record_flow sim time transmitter receiver message ext =
      elim (flow_ends sim transmitter receiver) [
        | none ↦ ext
        | some (comm, (source, target)) ↦
            let key = flow_key sim transmitter comm source target message in
            let named =
              named_flow ext.config.interval_seconds key source target
                (flow_at key ext.observed_flows) in
            let flow : ObservedFlow d = record (seen_flow time message.serial_number named) {
              packet_size_bytes = max 64 (magnitude message.size_bytes);
            } in
            record ext { observed_flows = insert key flow ext.observed_flows }
      ]
