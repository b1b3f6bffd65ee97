-- ===== src/Extension/Sound/Flows.antt =====
-- Recording a flow keeps the invariant.
use afsim_ns.Base.{
  ℕ, ◌≡◌, true, false, not, ◌&&◌, ◌||◌, ◌==◌, Bytes, Option, none, some, All, arith, Option-cases,
  inl, inr, pair_ord, nat_ord, bytes_ord, equals, if-both,
}
use afsim_ns.Base.Map.{Map, lookup, All-lookup, All-insert}
use afsim_ns.Double.{Double, at_least}
use afsim_ns.Double.Math.{Math, CastLaws}
use afsim_ns.Delta.{is_empty}
use afsim_ns.Extension.Config.{milliseconds}
use afsim_ns.Extension.Limits.{milliseconds_bounds, max_ge}
use afsim_ns.Extension.Sound.{IsFlow, IsSound}
use afsim_ns.Extension.Afsim.{Comm, Message, Simulation}
use afsim_ns.Extension.State.{FlowKey, ObservedFlow, new_flow, Extension}
use afsim_ns.Extension.Observe.{
  flow_ends, flow_key, flow_id_text, named_flow, seen_again, seen_flow, flow_at, record_flow,
  magnitude,
}

module _ (d : Double) (m : Math d) where
  open d use {F, less}

  module _ (casts : CastLaws d m) where
    new-IsFlow :
        (interval : F) (key : FlowKey) (source target : Bytes)
        → equals source target ≡ false
        → IsFlow d (named_flow d m interval key source target (new_flow d m))
    unfolding named_flow flow_id_text
    new-IsFlow interval key source target h =
        let (a, b) = milliseconds_bounds d m casts interval 1 (omega arith) in
        let (c, e) = milliseconds_bounds d m casts interval 100 (omega arith) in
        record {
          packet_size = omega arith;
          interval_lower = a;
          interval_upper = b;
          duration_lower = c;
          duration_upper = e;
          ends = h;
        }

    named_flow-IsFlow :
        (interval : F) (key : FlowKey) (source target : Bytes) (f : ObservedFlow d)
        → IsFlow d f
        → equals source target ≡ false
        → IsFlow d (named_flow d m interval key source target f)
    unfolding named_flow
    named_flow-IsFlow interval key source target f h k =
        let (a, b) = milliseconds_bounds d m casts interval 1 (omega arith) in
        let (c, e) = milliseconds_bounds d m casts interval 100 (omega arith) in
        if-both (IsFlow d) (is_empty f.flow_id) _ f
          (record {
            packet_size = h.packet_size;
            interval_lower = a;
            interval_upper = b;
            duration_lower = c;
            duration_upper = e;
            ends = k;
          })
          h

    seen_again-IsFlow :
        (time : F) (f : ObservedFlow d) → IsFlow d f → IsFlow d (seen_again d m time f)
    unfolding seen_again
    seen_again-IsFlow time f h =
        let (a, b) =
          milliseconds_bounds d m casts (m.minus time f.last_seen_time) 1 (omega arith) in
        if-both (IsFlow d) (at_least d f.last_seen_time d.nought && less f.last_seen_time time)
          (record f { interval_ms = milliseconds d m (m.minus time f.last_seen_time) 1 }) f
          (record {
            packet_size = h.packet_size;
            interval_lower = a;
            interval_upper = b;
            duration_lower = h.duration_lower;
            duration_upper = h.duration_upper;
            ends = h.ends;
          })
          h

    seen_flow-IsFlow :
        (time : F) (serial : ℕ) (f : ObservedFlow d)
        → IsFlow d f
        → IsFlow d (seen_flow d m time serial f)
    unfolding seen_flow
    seen_flow-IsFlow time serial f h =
        let k = seen_again-IsFlow time f h in
        if-both (IsFlow d) (not f.has_serial || not (f.last_serial == serial))
          (record (seen_again d m time f) {
            last_seen_time = time;
            last_serial = serial;
            has_serial = true;
          })
          f
          (record {
            packet_size = k.packet_size;
            interval_lower = k.interval_lower;
            interval_upper = k.interval_upper;
            duration_lower = k.duration_lower;
            duration_upper = k.duration_upper;
            ends = k.ends;
          })
          h

    -- A flow that the map lacks starts without a name, so that it is named at once.
    flow_at-IsFlow :
        (interval : F) (key : FlowKey) (source target : Bytes)
        (flows : Map FlowKey (ObservedFlow d))
        → All (λ e. IsFlow d e.1) flows
        → equals source target ≡ false
        → IsFlow d (named_flow d m interval key source target (flow_at d m key flows))
    unfolding flow_at
    flow_at-IsFlow interval key source target flows h k = elim (Option-cases (lookup key flows)) [
      | inl e ↦ rw (e, flow_at) (new-IsFlow interval key source target k)
      | inr (f, e) ↦
          rw (e, flow_at)
            (named_flow-IsFlow interval key source target f (All-lookup (IsFlow d) key flows f h e)
              k)
    ]

    flow_ends-distinct :
        (sim : Simulation d) (transmitter : Comm) (receiver : Option Comm) (comm : Comm)
        (source target : Bytes)
        → flow_ends d m sim transmitter receiver ≡ some (comm, (source, target))
        → equals source target ≡ false
    unfolding flow_ends
    flow_ends-distinct sim transmitter none comm source target e = cc
    flow_ends-distinct sim transmitter (some receiver) comm source target e = ground arith

    pub record_flow-IsSound :
        (sim : Simulation d) (time : F) (transmitter : Comm) (receiver : Option Comm)
        (message : Message) (ext : Extension d)
        → IsSound d ext
        → IsSound d (record_flow d m sim time transmitter receiver message ext)
    unfolding record_flow
    record_flow-IsSound sim time transmitter receiver message ext h =
        elim (Option-cases (flow_ends d m sim transmitter receiver)) [
          | inl e ↦ rw (e, record_flow) h
          | inr ((comm, (source, target)), e) ↦
              let key = flow_key d m sim transmitter comm source target message in
              let named =
                flow_at-IsFlow ext.config.interval_seconds key source target ext.observed_flows
                  h.flows (flow_ends-distinct sim transmitter receiver comm source target e) in
              let seen = seen_flow-IsFlow time message.serial_number _ named in
              rw (e, record_flow)
                (record {
                  observations = h.observations;
                  flows =
                      All-insert (IsFlow d) key _ ext.observed_flows
                        (record {
                          packet_size = max_ge 64 (magnitude message.size_bytes);
                          interval_lower = seen.interval_lower;
                          interval_upper = seen.interval_upper;
                          duration_lower = seen.duration_lower;
                          duration_upper = seen.duration_upper;
                          ends = seen.ends;
                        })
                        h.flows;
                  loss_rate = h.loss_rate;
                })
        ]
