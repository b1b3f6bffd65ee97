-- ===== src/Extension/Examples.antt =====
-- Two platforms with one comm each on a network, and a message between them.
use afsim_ns.Base.{
  ℕ, ◌+◌, ◌*◌, ◌^◌, ◌≡◌, refl, true, false, List, [], ◌∷◌, codes, none, some, Result, ok, err, All,
  In, inl, arith, if◌then◌else◌, ◌==◌, bytes_ord, nat_ord, pair_ord,
}
use afsim_ns.Base.Int.{pos}
use afsim_ns.Double.{fixed_point, fixed_point-Laws, read_digits}
use afsim_ns.Double.Math.{fixed_math, fixed_math-CastLaws, fixed_math-TurnLaws}
use afsim_ns.Protocol.{EntityState, FlowConfig}
use afsim_ns.Delta.{new_tracker}
use afsim_ns.Effects
use afsim_ns.Transport
use afsim_ns.Controller.{AfsimBridgeController, apply_pending_effects}
use afsim_ns.Extension.Config.{Environment, runtime_config}
use afsim_ns.Extension.Limits.{InLimits, new_extension_lem}
use afsim_ns.Extension.Afsim.{Comm, Platform, Message, Simulation, unguided, other_reason}
use afsim_ns.Extension.Afsim
use afsim_ns.Extension.State.{LinkKey, Extension, new_extension}
use afsim_ns.Extension.Messages.{
  message_transmitted, message_delivery_attempt, message_received, message_discarded, is_delivered,
  end_entities, is_nonzero,
}
use afsim_ns.Extension.Observe.{observation_at}
use afsim_ns.Extension.Tick.{begin_run, tick, effect_sink}
use afsim_ns.Extension.Ticking.{TickDoes, tick_lem}
use afsim_ns.Extension.Turns.{IsHeading}
use afsim_ns.Extension.Returns.{IsPlaced}
use afsim_ns.Extension.Distinct.{HaveIndices, flow_of, AreFlowsOf}
use afsim_ns.Extension.Steady.{Submits, tick_returns}
use afsim_ns.Delta.Index.{HasDistinctIds}
use afsim_ns.Extension.Peers.{platform_records}
use afsim_ns.Extension.Gating.{AnswersFor, message_delivery_attempt_lem}
use afsim_ns.Extension.Counting.{CountsFailure, discarded_once}
use afsim_ns.Extension.Receiving.{Receives, received_once}
use afsim_ns.Base.Map.{IsSorted}
use afsim_ns.Extension.Active.Flows.{active_flows}
use afsim_ns.Extension.Active.Entities.{HasLinked, HasAlive, AreOf}
use afsim_ns.Extension.Collect.{TickError, Directory, directory, point_of, collect_state}
use afsim_ns.Extension.Valid.{IsFlowConfig, collect_state-IsValid}
use afsim_ns.Extension.Events.{
  Event, transmitted, delivery_attempted, was_received, began, run_events,
}
use afsim_ns.Extension.Sound.Collect.{AreDevices}

abbrev env : Environment
env _ = none

abbrev seconds : ℕ → ℕ
seconds n = n * 2 ^ 53

abbrev sim : Simulation fixed_point
sim = record {
  platform_entries = some 1 ∷ none ∷ some 2 ∷ [];
  platform_name = λ p. if p == 1 then codes "red" else codes "blue";
  platform_index = λ p. p;
  is_broken = λ _. false;
  is_deleted = λ _. false;
  location_lla = λ p. (seconds (10 + p), (seconds 20, seconds 100));
  velocity_ned = λ _. (0, (0, 0));
  heading = λ _. 0;
  relative_location_wcs = λ _ _. (0, (0, 0));
  comm_entries = λ p. some (10 + p) ∷ none ∷ [];
  comm_name = λ _. codes "radio";
  comm_platform = λ c. some (if c == 11 then 1 else 2);
  network = λ _. codes "net";
  link_pairs = λ _. [];
  is_turned_on = λ _. true;
  can_send = λ _. true;
  can_receive = λ _. true;
  last_data_rate = λ _. 0;
  transfer_rate = λ _. none;
  medium = λ _. some unguided;
  current_mode = λ _. none;
  comm_at = λ _. some 12;
}

abbrev message : Message
message = record {
  serial_number = 7;
  destination = codes "blue:radio";
  message_type = codes "track";
  sub_type = [];
  size_bits = pos 800;
  size_bytes = pos 100;
}

abbrev result : Afsim.Result fixed_point
result = record {
  data_rate = 0;
  checked_status = record { signal_level = false; others = 0 };
  failed_status = record { signal_level = false; others = 0 };
  disconnect_reason = other_reason 0;
  disconnect_text = [];
}

abbrev controller : AfsimBridgeController fixed_point
controller = record {
  client = record {
    config = record {
      host = codes "127.0.0.1";
      port = 18080;
      connect_timeout_ms = 250;
      reconnect_delay_ms = 250;
      max_pending_messages = 32;
    };
    running = false;
    connected = false;
    pending = [];
    resync = [];
  };
  delta_tracker = new_tracker fixed_point;
  message_gate = Transport.new_gate fixed_point;
  gate = Effects.new_gate;
  pending_effects = [];
}

abbrev made : Extension fixed_point
made = record {
  config = runtime_config fixed_point fixed_math env;
  controller = controller;
  enu_frame = none;
  subscribed = false;
  configured_data_rates = [];
  link_observations = [];
  transmit_times = [];
  externally_gated = [];
  externally_dropped = [];
  observed_flows = [];
  run_id = codes "run";
  tick_count = 0;
  stopping = false;
}

made_lem : new_extension fixed_point fixed_math env (codes "run") ≡ ok made
unfolding new_extension
made_lem = refl

new_extension_lem_example :
    (ext : Extension fixed_point) × (new_extension fixed_point fixed_math env (codes "run")
      ≡ ok ext)
    × InLimits fixed_point fixed_math ext.config
new_extension_lem_example =
    new_extension_lem fixed_point fixed_math fixed_point-Laws env (codes "run")

abbrev events : List (Event fixed_point)
events =
    began 0
    ∷ transmitted sim (seconds 1) (some 11) message
    ∷ delivery_attempted sim (seconds 1) (some 11) (some 12) message result
    ∷ was_received sim (seconds 2) (some 11) (some 12) message result
    ∷ []

abbrev ran : Extension fixed_point
ran = run_events fixed_point fixed_math events made

abbrev entities_of :
    Result TickError (List (EntityState fixed_point) × List FlowConfig)
    → List (EntityState fixed_point)
entities_of (ok (entities, flows)) = entities
entities_of (err e) = []

abbrev flows_of :
    Result TickError (List (EntityState fixed_point) × List FlowConfig) → List FlowConfig
flows_of (ok (entities, flows)) = flows
flows_of (err e) = []

abbrev step :
    Extension fixed_point × Result TickError (List (EntityState fixed_point) × List FlowConfig)
step = collect_state fixed_point fixed_math 2 sim (seconds 3) ran

collected_lem : step ≡ (step.0, ok (entities_of step.1, flows_of step.1))
unfolding collect_state message_transmitted message_delivery_attempt message_received begin_run
collected_lem = refl

collect_state-IsValid_example :
    All (AreDevices fixed_point) (entities_of step.1)
    × All (IsFlowConfig fixed_point) (flows_of step.1)
collect_state-IsValid_example =
    collect_state-IsValid fixed_point fixed_math fixed_point-Laws fixed_math-CastLaws env
      (codes "run") made events 2 sim (seconds 3) step.0 (entities_of step.1) (flows_of step.1)
      made_lem collected_lem

-- The flow of the message, as it is sent.
abbrev flow : FlowConfig
flow = record {
  flow_id = codes "afsim-message:1:radio->2:radio:track:";
  source_entity_id = codes "1";
  target_entity_id = codes "2";
  packet_size_bytes = 100;
  interval_ms = 1000;
  duration_ms = 1000;
  active = true;
}

flow_lem : flows_of step.1 ≡ flow ∷ []
unfolding collect_state message_transmitted message_delivery_attempt message_received begin_run
    runtime_config read_digits
flow_lem = refl

flow-In : In flow (flows_of step.1)
flow-In = rw flow_lem (inl refl)

active_flows_example :
    HasLinked fixed_point (codes "1", codes "2") (entities_of step.1)
    × HasAlive fixed_point (codes "2") (entities_of step.1)
active_flows_example =
    active_flows fixed_point fixed_math 2 sim (seconds 3) ran step.0 (entities_of step.1)
      (flows_of step.1) flow collected_lem flow-In refl

message_delivery_attempt_lem_example :
    AnswersFor fixed_point fixed_math
      (end_entities fixed_point fixed_math sim 11 12)
      (11, 7)
      7
      controller
      result
      (message_delivery_attempt fixed_point fixed_math sim
        (seconds 1)
        (some 11)
        (some 12)
        message
        result
        made)
message_delivery_attempt_lem_example =
    message_delivery_attempt_lem fixed_point fixed_math sim (seconds 1) 11 12 message result made tt

ends_lem : end_entities fixed_point fixed_math sim 11 12 ≡ some (codes "1", codes "2")
unfolding end_entities
ends_lem = refl

-- No profile is known, so the gate does not deliver, and the discard adds nothing.
discarded_once_example :
    let link : LinkKey = (11, 12) in
    let decision = Transport.decide fixed_point controller.message_gate (codes "1") (codes "2") 7 in
    let attempt =
      message_delivery_attempt fixed_point fixed_math sim
        (seconds 1)
        (some 11)
        (some 12)
        message
        result
        made in
    let after =
      message_discarded fixed_point fixed_math sim (seconds 2) (some 11) message attempt.0 in
    CountsFailure fixed_point fixed_math
      (is_delivered decision.disposition)
      (observation_at fixed_point fixed_math link [])
      (observation_at fixed_point fixed_math link after.link_observations)
discarded_once_example =
    discarded_once fixed_point fixed_math sim sim (seconds 1) (seconds 2) 11 12 message result made
      (codes "1") (codes "2") ends_lem refl tt

tick_lem_example :
    let c = (apply_pending_effects effect_sink fixed_point ran.controller tt).0 in
    TickDoes fixed_point fixed_math ran.controller ran.tick_count
      (collect_state fixed_point fixed_math 2 sim (seconds 3) (record ran { controller = c }))
      (tick fixed_point fixed_math 2 sim (seconds 3) ran)
tick_lem_example = tick_lem fixed_point fixed_math 2 sim (seconds 3) ran

abbrev dir : Directory
dir = directory fixed_point fixed_math sim (platform_records fixed_point sim sim.platform_entries)

abbrev Placed : (p : Platform) → Type 0
Placed = IsPlaced fixed_point fixed_math fixed_math-TurnLaws sim ran.config dir 0

red : Placed 1
unfolding point_of
red = record {
  point = record {
    latitude = refl;
    longitude = refl;
    altitude = refl;
    south = refl;
    north = refl;
    west = refl;
    east = refl;
  };
  heading_lower = refl;
  heading_upper = refl;
}

blue : Placed 2
unfolding point_of
blue = record {
  point = record {
    latitude = refl;
    longitude = refl;
    altitude = refl;
    south = refl;
    north = refl;
    west = refl;
    east = refl;
  };
  heading_lower = refl;
  heading_upper = refl;
}

indices : HaveIndices fixed_point sim sim.platform_entries
indices = (ground arith, (tt, ((ground arith, λ e. ground (arith, e)), tt)), (ground arith, tt, tt))

distinct_flows : HasDistinctIds (flow_of fixed_point fixed_math) ran.observed_flows
unfolding message_transmitted message_delivery_attempt message_received begin_run
distinct_flows = (refl, tt, tt)

tick_returns_example :
    (entities : List (EntityState fixed_point)) × (flows : List FlowConfig) × AreOf fixed_point
      (platform_records fixed_point sim sim.platform_entries)
      entities
    × All (λ e. IsHeading fixed_point fixed_math fixed_math-TurnLaws e.heading_deg) entities
    × AreFlowsOf fixed_point fixed_math ran.observed_flows flows
    × Submits fixed_point fixed_math entities flows
        (tick fixed_point fixed_math 2 sim (seconds 3) ran)
unfolding platform_records
tick_returns_example =
    tick_returns fixed_point fixed_math fixed_math-TurnLaws 0 sim (seconds 3) ran indices
      distinct_flows (red, (blue, tt))

-- The message is on its way.
abbrev sent : Extension fixed_point
sent =
    run_events fixed_point fixed_math (began 0 ∷ transmitted sim (seconds 1) (some 11) message ∷ [])
      made

sent_times : IsSorted sent.transmit_times
unfolding message_transmitted begin_run
sent_times = (tt, tt)

sent_gated : IsSorted sent.externally_gated
unfolding message_transmitted begin_run
sent_gated = tt

received_once_example :
    let attempt =
      message_delivery_attempt fixed_point fixed_math sim
        (seconds 1)
        (some 11)
        (some 12)
        message
        result
        sent in
    Receives fixed_point fixed_math
      (is_nonzero result.failed_status)
      (11, 12)
      (11, 7)
      (observation_at fixed_point fixed_math (11, 12) sent.link_observations)
      (message_received fixed_point fixed_math sim
        (seconds 2)
        (some 11)
        (some 12)
        message
        result
        attempt.0)
received_once_example =
    received_once fixed_point fixed_math sim sim (seconds 1) (seconds 2) 11 12 message result result
      sent sent_gated sent_times
