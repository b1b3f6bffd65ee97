-- ===== src/Extension/Valid.antt =====
-- What the plugin collects after any events.
use afsim_ns.Base.{
  ℕ, suc, ok-injective, ◌≤◌, ◌≡◌, false, Bool, Bytes, List, [], ◌∷◌, Option, none, some, All,
  Result, ok, err, equals, bytes_ord, subst, if◌then◌else◌, if-both, ap,
}
use afsim_ns.Base.Map.{Map}
use afsim_ns.Double.{Double, Laws}
use afsim_ns.Double.Math.{Math, CastLaws}
use afsim_ns.Protocol.{EntityState, FlowConfig}
use afsim_ns.Delta.{StateError}
use afsim_ns.Controller.{
  AfsimBridgeController, new_controller, StateSubmitResult, apply_pending_effects,
  submit_current_state,
}
use afsim_ns.Tcp.{ConfigError}
use afsim_ns.Extension.Config.{Environment, RuntimeConfig, runtime_config, uint32_max}
use afsim_ns.Extension.Limits.{runtime_config-InLimits}
use afsim_ns.Extension.Afsim.{Simulation}
use afsim_ns.Extension.State.{
  Set, FlowKey, ObservedFlow, Extension, with_controller, client_config, new_extension,
}
use afsim_ns.Extension.Peers.{platform_records}
use afsim_ns.Extension.Collect.{
  TickError, Directory, directory, Progress, progress_of, flow_config, collect_flows, collected,
  collect_state, collect_entities,
}
use afsim_ns.Extension.Tick.{
  effect_sink, submitted, submit, request_id, timestamp_ms, tick, recurring_event, begin_run,
  complete,
}
use afsim_ns.Extension.Sound.{AllCounted, IsFlow, IsSound}
use afsim_ns.Extension.Sound.Handlers.{
  message_transmitted-IsSound, message_delivery_attempt-IsSound, message_received-IsSound,
  message_discarded-IsSound,
}
use afsim_ns.Extension.Sound.Collect.{AreDevices, Returned, collect_entities-AreDevices}
use afsim_ns.Extension.Events.{
  Event, transmitted, delivery_attempted, was_received, was_discarded, recurred, line_came, began,
  completed, handle, run_events,
}

module _ (d : Double) where
  -- The packet has 64 bytes at least, the times are those of a message that the runner can read,
  -- and the two ends differ.
  pub record IsFlowConfig (f : FlowConfig) : Type 0 where
    pub packet_size : 64 ≤ f.packet_size_bytes
    pub interval_lower : 1 ≤ f.interval_ms
    pub interval_upper : f.interval_ms ≤ uint32_max
    pub duration_lower : 100 ≤ f.duration_ms
    pub duration_upper : f.duration_ms ≤ uint32_max
    pub ends : equals f.source_entity_id f.target_entity_id ≡ false

module _ (d : Double) (m : Math d) where
  open d use {F, less}

  collect_flows-IsFlowConfig :
      (alive : Map Bytes Bool) (up_links : Set (Bytes × Bytes))
      (flows : Map FlowKey (ObservedFlow d))
      → All (λ e. IsFlow d e.1) flows
      → All (IsFlowConfig d) (collect_flows d m alive up_links flows)
  unfolding collect_flows flow_config
  collect_flows-IsFlowConfig alive up_links [] h = tt
  collect_flows-IsFlowConfig alive up_links ((key, observed) ∷ flows) (f, h) = (
    record {
      packet_size = f.packet_size;
      interval_lower = f.interval_lower;
      interval_upper = f.interval_upper;
      duration_lower = f.duration_lower;
      duration_upper = f.duration_upper;
      ends = f.ends;
    },
    collect_flows-IsFlowConfig alive up_links flows h,
  )

  -- Devices and flows within their limits.
  abbrev AreValid : List (EntityState d) × List FlowConfig → Type 0
  AreValid (entities, flows) = All (AreDevices d) entities × All (IsFlowConfig d) flows

  collected-IsSound :
      (time : F) (dir : Directory) (ext : Extension d)
      (step : Progress d m × Result TickError (List (EntityState d)))
      → IsSound d ext
      → AllCounted d step.0.link_observations
      → Returned (All (AreDevices d)) step.1
      → IsSound d (collected d m time dir ext step).0
        × Returned AreValid (collected d m time dir ext step).1
  unfolding collected
  collected-IsSound time dir ext (progress, err e) h k l =
      (record { observations = k; flows = h.flows; loss_rate = h.loss_rate }, tt)
  collected-IsSound time dir ext (progress, ok entities) h k l = (
    record { observations = k; flows = h.flows; loss_rate = h.loss_rate },
    (l, collect_flows-IsFlowConfig dir.alive progress.up_links ext.observed_flows h.flows),
  )

  submitted-IsSound :
      (ext : Extension d) (step : AfsimBridgeController d × Result StateError StateSubmitResult)
      → IsSound d ext
      → IsSound d (submitted d m ext step).0
  unfolding submitted
  submitted-IsSound ext (controller, ok result) h = record {
    observations = h.observations;
    flows = h.flows;
    loss_rate = h.loss_rate;
  }
  submitted-IsSound ext (controller, err e) h = record {
    observations = h.observations;
    flows = h.flows;
    loss_rate = h.loss_rate;
  }

  submit-IsSound :
      (time : F) (step : Extension d × Result TickError (List (EntityState d) × List FlowConfig))
      → IsSound d step.0
      → IsSound d (submit d m time step).0
  unfolding submit
  submit-IsSound time (ext, err e) h = h
  submit-IsSound time (ext, ok (entities, flows)) h =
      let counted : Extension d = record ext { tick_count = suc ext.tick_count } in
      submitted-IsSound counted
        (submit_current_state d (request_id d m counted) (timestamp_ms d m time) entities flows
          ext.controller)
        (record { observations = h.observations; flows = h.flows; loss_rate = h.loss_rate })

  with_controller-IsSound :
      (config : RuntimeConfig d) (run_id : Bytes) (r : Result ConfigError (AfsimBridgeController d))
      (ext : Extension d)
      → with_controller d config run_id r ≡ ok ext
      → less d.unit config.default_loss_rate ≡ false
      → IsSound d ext
  unfolding with_controller
  with_controller-IsSound config run_id (err e) ext p h = cc
  with_controller-IsSound config run_id (ok controller) ext p h =
      subst (IsSound d) (ok-injective p) (record { observations = tt; flows = tt; loss_rate = h })

  module _ (laws : Laws d) (casts : CastLaws d m) where
    collect_state-IsSound :
        (rounds : ℕ) (sim : Simulation d) (time : F) (ext : Extension d)
        → IsSound d ext
        → IsSound d (collect_state d m rounds sim time ext).0
          × Returned AreValid (collect_state d m rounds sim time ext).1
    unfolding collect_state
    collect_state-IsSound rounds sim time ext h =
        let records = platform_records d sim sim.platform_entries in
        let dir = directory d m sim records in
        let (observations, entities) =
          collect_entities-AreDevices d m laws sim ext.config dir h.loss_rate rounds records
            (progress_of d m ext) h.observations in
        collected-IsSound time dir ext
          (collect_entities d m sim ext.config dir rounds records (progress_of d m ext)) h
          observations entities

    tick-IsSound :
        (rounds : ℕ) (sim : Simulation d) (time : F) (ext : Extension d)
        → IsSound d ext
        → IsSound d (tick d m rounds sim time ext).0
    unfolding tick
    tick-IsSound rounds sim time ext h =
        let effects : Extension d = record ext {
          controller = (apply_pending_effects effect_sink d ext.controller tt).0;
        } in
        submit-IsSound time (collect_state d m rounds sim time effects)
          (collect_state-IsSound rounds sim time effects
            (record { observations = h.observations; flows = h.flows; loss_rate = h.loss_rate })).0

    handle-IsSound :
        (event : Event d) (ext : Extension d) → IsSound d ext → IsSound d (handle d m event ext)
    unfolding recurring_event begin_run complete
    handle-IsSound (transmitted sim time transmitter message) ext h =
        message_transmitted-IsSound d m laws casts sim time transmitter message ext h
    handle-IsSound (delivery_attempted sim time transmitter receiver message result) ext h =
        message_delivery_attempt-IsSound d m laws casts sim time transmitter receiver message result
          ext h
    handle-IsSound (was_received sim time transmitter receiver message result) ext h =
        message_received-IsSound d m laws casts sim time transmitter receiver message result ext h
    handle-IsSound (was_discarded sim time transmitter message) ext h =
        message_discarded-IsSound d m laws casts sim time transmitter message ext h
    handle-IsSound (recurred rounds sim time) ext h =
        let after = (tick d m rounds sim time ext).0 in
        if-both {A = Extension d × Option F} (λ r. IsSound d r.0) ext.stopping (ext, none)
          (after, if after.stopping then none else some (m.plus time after.config.interval_seconds))
          h (tick-IsSound rounds sim time ext h)
    handle-IsSound (line_came line) ext h = record {
      observations = h.observations;
      flows = h.flows;
      loss_rate = h.loss_rate;
    }
    handle-IsSound (began time) ext h = record {
      observations = h.observations;
      flows = h.flows;
      loss_rate = h.loss_rate;
    }
    handle-IsSound completed ext h = record {
      observations = h.observations;
      flows = h.flows;
      loss_rate = h.loss_rate;
    }

    run_events-IsSound :
        (events : List (Event d)) (ext : Extension d)
        → IsSound d ext
        → IsSound d (run_events d m events ext)
    run_events-IsSound [] ext h = h
    run_events-IsSound (event ∷ events) ext h =
        run_events-IsSound events (handle d m event ext) (handle-IsSound event ext h)

    new-IsSound :
        (env : Environment) (run_id : Bytes) (made : Extension d)
        → new_extension d m env run_id ≡ ok made
        → IsSound d made
    unfolding new_extension
    new-IsSound env run_id made e =
        with_controller-IsSound (runtime_config d m env) run_id
          (new_controller d (client_config d (runtime_config d m env))) made e
          (runtime_config-InLimits d m laws env).loss_rate

    -- Where doubles obey the laws: let the plugin be constructed in any environment, and let any
    -- events reach it in any order. If it then collects entities and flows, every device of an
    -- entity has a data rate that is not 0, a loss rate that is not above 1.0, and another entity
    -- as its peer; and every flow has packets of 64 bytes or more, an interval of 1 to 2^32 - 1 ms,
    -- a duration of 100 to 2^32 - 1 ms, and two different ends.
    pub collect_state-IsValid :
        (env : Environment) (run_id : Bytes) (made : Extension d) (events : List (Event d))
        (rounds : ℕ) (sim : Simulation d) (time : F) (after : Extension d)
        (entities : List (EntityState d)) (flows : List FlowConfig)
        → new_extension d m env run_id ≡ ok made
        → collect_state d m rounds sim time (run_events d m events made)
          ≡ (after, ok (entities, flows))
        → All (AreDevices d) entities × All (IsFlowConfig d) flows
    collect_state-IsValid env run_id made events rounds sim time after entities flows e p =
        let sound = run_events-IsSound events made (new-IsSound env run_id made e) in
        subst (Returned AreValid) (ap (λ r. r.1) p)
          (collect_state-IsSound rounds sim time (run_events d m events made) sound).1
