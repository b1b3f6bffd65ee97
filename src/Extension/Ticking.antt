-- ===== src/Extension/Ticking.antt =====
-- What a tick leaves, whether it returns or throws.
use afsim_ns.Base.{ℕ, suc, ◌≡◌, refl, subst, List, Bytes, Result, ok, err, ap}
use afsim_ns.Double.{Double}
use afsim_ns.Double.Math.{Math}
use afsim_ns.Protocol.{EntityState, FlowConfig}
use afsim_ns.Delta.{StateError}
use afsim_ns.Controller.{
  AfsimBridgeController, StateSubmitResult, apply_pending_effects, submit_current_state,
}
use afsim_ns.Controller.Current.{Holds, submit-Holds}
use afsim_ns.Controller.Throws.{submit_throws}
use afsim_ns.Extension.Afsim.{Simulation}
use afsim_ns.Extension.State.{Extension}
use afsim_ns.Extension.Peers.{platform_records}
use afsim_ns.Extension.Collect.{
  TickError, Directory, directory, Progress, progress_of, collect_entities, collected,
  collect_state,
}
use afsim_ns.Extension.Tick.{effect_sink, submitted, submit, request_id, timestamp_ms, tick}

module _ (d : Double) (m : Math d) where
  open d use {F}

  collected-controller :
      (time : F) (dir : Directory) (ext : Extension d)
      (step : Progress d m × Result TickError (List (EntityState d)))
      → ((collected d m time dir ext step).0.controller ≡ ext.controller)
        × ((collected d m time dir ext step).0.tick_count ≡ ext.tick_count)
  unfolding collected
  collected-controller time dir ext (progress, err e) = (refl, refl)
  collected-controller time dir ext (progress, ok entities) = (refl, refl)

  collect_state-controller :
      (rounds : ℕ) (sim : Simulation d) (time : F) (ext : Extension d)
      → ((collect_state d m rounds sim time ext).0.controller ≡ ext.controller)
        × ((collect_state d m rounds sim time ext).0.tick_count ≡ ext.tick_count)
  unfolding collect_state
  collect_state-controller rounds sim time ext =
      let records = platform_records d sim sim.platform_entries in
      let dir = directory d m sim records in
      collected-controller time dir ext
        (collect_entities d m sim ext.config dir rounds records (progress_of d m ext))

  -- What was collected is the baseline of the controller, or the controller has queued nothing.
  abbrev pub TickDoes :
      AfsimBridgeController d
      → ℕ
      → Extension d × Result TickError (List (EntityState d) × List FlowConfig)
      → Extension d × Result TickError StateSubmitResult
      → Type 0
  TickDoes c count (ext, made) (after, err e) =
      (after.controller.client ≡ c.client)
      × (after.controller.message_gate ≡ c.message_gate)
      × (after.controller.gate ≡ c.gate)
      × (after.controller.delta_tracker.initialized ≡ c.delta_tracker.initialized)
  TickDoes c count (ext, made) (after, ok result) =
      (entities : List (EntityState d)) × (flows : List FlowConfig) × (made ≡ ok (entities, flows))
      × Holds d after.controller.delta_tracker entities flows
      × (after.tick_count ≡ suc count)

  submitted-TickDoes :
      (request : Bytes) (timestamp count : ℕ) (entities : List (EntityState d))
      (flows : List FlowConfig) (collected_at counted : Extension d)
      (step : AfsimBridgeController d × Result StateError StateSubmitResult)
      → submit_current_state d request timestamp entities flows counted.controller ≡ step
      → counted.tick_count ≡ suc count
      → TickDoes counted.controller count
          (collected_at, ok (entities, flows))
          (submitted d m counted step)
  unfolding submitted
  submitted-TickDoes request timestamp count entities flows collected_at counted
        (controller, ok result) e n =
      (
        entities,
        flows,
        refl,
        submit-Holds d request timestamp entities flows counted.controller controller result e,
        n,
      )
  submitted-TickDoes request timestamp count entities flows collected_at counted (controller, err x)
        e n =
      let kept =
        submit_throws d request timestamp entities flows counted.controller controller x e in
      (kept.client, kept.message_gate, kept.gate, kept.initialized)

  submit-TickDoes :
      (time : F) (c : AfsimBridgeController d) (count : ℕ)
      (step : Extension d × Result TickError (List (EntityState d) × List FlowConfig))
      → step.0.controller ≡ c
      → step.0.tick_count ≡ count
      → TickDoes c count step (submit d m time step)
  unfolding submit
  submit-TickDoes time c count (ext, err e) same n = (
    ap (λ k. k.client) same,
    ap (λ k. k.message_gate) same,
    ap (λ k. k.gate) same,
    ap (λ k. k.delta_tracker.initialized) same,
  )
  submit-TickDoes time c count (ext, ok (entities, flows)) same n =
      let counted : Extension d = record ext { tick_count = suc ext.tick_count } in
      subst
        (λ k.
          TickDoes k count (ext, ok (entities, flows))
            (submit d m time (ext, ok (entities, flows))))
        same
        (submitted-TickDoes (request_id d m counted) (timestamp_ms d m time) count entities flows
          ext counted
          (submit_current_state d (request_id d m counted) (timestamp_ms d m time) entities flows
            counted.controller)
          refl (ap suc n))

  -- A tick that returns has submitted what it collected: the tracker of the controller holds
  -- exactly these entities and flows, and the count of ticks is one more. A tick that throws,
  -- because of a coordinate, a heading or an identifier, has queued nothing: the client and both
  -- gates are as they were, and the tracker counts as initialised exactly if it did before.
  pub tick_lem :
      (rounds : ℕ) (sim : Simulation d) (time : F) (ext : Extension d)
      → let c = (apply_pending_effects effect_sink d ext.controller tt).0 in
        TickDoes ext.controller ext.tick_count
          (collect_state d m rounds sim time (record ext { controller = c }))
          (tick d m rounds sim time ext)
  unfolding tick apply_pending_effects
  tick_lem rounds sim time ext =
      let c = (apply_pending_effects effect_sink d ext.controller tt).0 in
      let (same, n) = collect_state-controller rounds sim time (record ext { controller = c }) in
      submit-TickDoes time c ext.tick_count
        (collect_state d m rounds sim time (record ext { controller = c })) same n
