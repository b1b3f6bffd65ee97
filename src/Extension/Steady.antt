-- ===== src/Extension/Steady.antt =====
-- When a tick returns.
use afsim_ns.Base.{
  ℕ, suc, ◌≡◌, ap, subst, sym, List, Result, ok, err, All, ok-injective, bytes_ord, arith,
}
use afsim_ns.Double.{Double}
use afsim_ns.Double.Math.{Math, TurnLaws}
use afsim_ns.Protocol.{EntityState, FlowConfig}
use afsim_ns.Delta.{entity_id_of, flow_id_of}
use afsim_ns.Delta.Index.{HasDistinctIds}
use afsim_ns.Controller.{StateSubmitResult, apply_pending_effects, submit_current_state}
use afsim_ns.Controller.Current.{Holds, submit-Holds}
use afsim_ns.Controller.Throws.{submit_current_state_lem}
use afsim_ns.Extension.Afsim.{Simulation}
use afsim_ns.Extension.State.{Extension}
use afsim_ns.Extension.Peers.{platform_records}
use afsim_ns.Extension.Collect.{
  TickError, Directory, directory, Progress, progress_of, collect_entities, collected,
  collect_state,
}
use afsim_ns.Extension.Tick.{effect_sink, submitted, submit, request_id, timestamp_ms, tick}
use afsim_ns.Extension.Turns.{IsHeading}
use afsim_ns.Extension.Returns.{IsPlaced, collect_state_returns}
use afsim_ns.Extension.Active.Entities.{AreOf}
use afsim_ns.Extension.Distinct.{
  HaveIndices, entities-distinct, flow_of, flows-distinct, AreFlowsOf, collect_flows-AreFlowsOf,
}

module _ (d : Double) (m : Math d) where
  collected-flows :
      (time : d.F) (dir : Directory) (ext after : Extension d) (entities : List (EntityState d))
      (flows : List FlowConfig) (step : Progress d m × Result TickError (List (EntityState d)))
      → collected d m time dir ext step ≡ (after, ok (entities, flows))
      → HasDistinctIds (flow_of d m) ext.observed_flows
      → HasDistinctIds flow_id_of flows × AreFlowsOf d m ext.observed_flows flows
  unfolding collected
  collected-flows time dir ext after entities flows (progress, err x) e h = ground (arith, e)
  collected-flows time dir ext after entities flows (progress, ok es) e h =
      subst (λ fs. HasDistinctIds flow_id_of fs × AreFlowsOf d m ext.observed_flows fs)
        (ap (λ p. p.1) (ok-injective (ap (λ s. s.1) e)))
        (
          flows-distinct d m dir.alive progress.up_links ext.observed_flows h,
          collect_flows-AreFlowsOf d m dir.alive progress.up_links ext.observed_flows,
        )

  collect_state-flows :
      (rounds : ℕ) (sim : Simulation d) (time : d.F) (ext after : Extension d)
      (entities : List (EntityState d)) (flows : List FlowConfig)
      → collect_state d m rounds sim time ext ≡ (after, ok (entities, flows))
      → HasDistinctIds (flow_of d m) ext.observed_flows
      → HasDistinctIds flow_id_of flows × AreFlowsOf d m ext.observed_flows flows
  unfolding collect_state
  collect_state-flows rounds sim time ext after entities flows =
      let records = platform_records d sim sim.platform_entries in
      let dir = directory d m sim records in
      collected-flows time dir ext after entities flows
        (collect_entities d m sim ext.config dir rounds records (progress_of d m ext))

  -- The tick returns, and the tracker of the controller holds these entities and flows.
  abbrev pub Submits :
      List (EntityState d)
      → List FlowConfig
      → Extension d × Result TickError StateSubmitResult
      → Type 0
  Submits entities flows step =
      (after : Extension d) × (result : StateSubmitResult) × (step ≡ (after, ok result))
      × Holds d after.controller.delta_tracker entities flows

  submit-Submits :
      (time : d.F) (ext : Extension d) (entities : List (EntityState d)) (flows : List FlowConfig)
      → HasDistinctIds (entity_id_of d) entities
      → HasDistinctIds flow_id_of flows
      → Submits entities flows (submit d m time (ext, ok (entities, flows)))
  unfolding submit submitted
  submit-Submits time ext entities flows h k =
      let counted : Extension d = record ext { tick_count = suc ext.tick_count } in
      let id = request_id d m counted in
      let timestamp = timestamp_ms d m time in
      let step = submit_current_state d id timestamp entities flows counted.controller in
      let (result, e) =
        (submit_current_state_lem d id timestamp entities flows counted.controller).1 (h, k) in
      let made = ap (λ r. (step.0, r)) e in
      (
        _,
        result,
        ap (submitted d m counted) made,
        submit-Holds d id timestamp entities flows counted.controller step.0 result made,
      )

  -- Where doubles obey the laws for a turn: if no two platforms have the same index of 64 bits and
  -- no two observed flows the same identifier, none of them empty, and every platform has
  -- coordinates in range and a heading near the first turn, the tick returns, with two rounds for
  -- each loop of `Degrees`. The tracker of the controller then holds one entity for each platform,
  -- in their order, with its identifier, alive exactly if the platform is neither broken nor
  -- deleted, and with a heading from 0.0 to below 360.0; and one flow for each observed flow, in
  -- their order, with what was observed.
  pub tick_returns :
      (laws : TurnLaws d m) (rounds : ℕ) (sim : Simulation d) (time : d.F) (ext : Extension d)
      → HaveIndices d sim sim.platform_entries
      → HasDistinctIds (flow_of d m) ext.observed_flows
      → All
          (λ r.
            IsPlaced d m laws sim ext.config
              (directory d m sim (platform_records d sim sim.platform_entries))
              rounds
              r.platform)
          (platform_records d sim sim.platform_entries)
      → (entities : List (EntityState d)) × (flows : List FlowConfig) × AreOf d
          (platform_records d sim sim.platform_entries)
          entities
        × All (λ e. IsHeading d m laws e.heading_deg) entities
        × AreFlowsOf d m ext.observed_flows flows
        × Submits entities flows (tick d m (suc (suc rounds)) sim time ext)
  unfolding tick
  tick_returns laws rounds sim time ext indices distinct placed =
      let c = (apply_pending_effects effect_sink d ext.controller tt).0 in
      let started : Extension d = record ext { controller = c } in
      let (mid, entities, flows, e, are, headings) =
        collect_state_returns d m laws rounds sim time started placed in
      let (distinct_flows, same) =
        collect_state-flows (suc (suc rounds)) sim time started mid entities flows e distinct in
      (
        entities,
        flows,
        are,
        headings,
        same,
        subst (λ step. Submits entities flows (submit d m time step)) (sym e)
            (submit-Submits time mid entities flows (entities-distinct d sim entities indices are)
              distinct_flows),
      )
