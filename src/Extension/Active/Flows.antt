-- ===== src/Extension/Active/Flows.antt =====
-- Both ends of an active flow stand among the entities of the same message.
use afsim_ns.Base.{
  ℕ, ◌≡◌, true, inl, inr, Bool, ok-injective, Bytes, List, [], ◌∷◌, In, Result, ok, err, ap, sym,
  ◌∙◌, bytes_ord, pair_ord, arith, subst,
}
use afsim_ns.Base.Map.{Map, lookup}
use afsim_ns.Double.{Double}
use afsim_ns.Double.Math.{Math}
use afsim_ns.Protocol.{EntityState, FlowConfig}
use afsim_ns.Extension.Afsim.{Simulation}
use afsim_ns.Extension.State.{Set, FlowKey, ObservedFlow, Extension}
use afsim_ns.Extension.Peers.{PlatformRecord, platform_records, entity_alive}
use afsim_ns.Extension.Collect.{
  TickError, directory, Progress, progress_of, is_alive, collect_entities, flow_config,
  collect_flows, collected, collect_state,
}
use afsim_ns.Extension.Active.Links.{Holds}
use afsim_ns.Extension.Active.Entities.{
  HasLinked, HasAlive, alive-HasAlive, MakesAll, collect_entities-MakesAll,
}

module _ (d : Double) (m : Math d) where
  open d use {F}

  flow_config-active :
      (alive : Map Bytes Bool) (up_links : Set (Bytes × Bytes)) (observed : ObservedFlow d)
      → (flow_config d m alive up_links observed).active ≡ true
      → Holds (observed.source_entity_id, observed.target_entity_id) up_links
        × (is_alive observed.target_entity_id alive ≡ true)
  unfolding flow_config
  flow_config-active alive up_links observed e = (ground arith, ground arith)

  collect_flows-active :
      (alive : Map Bytes Bool) (up_links : Set (Bytes × Bytes))
      (flows : Map FlowKey (ObservedFlow d)) (flow : FlowConfig)
      → In flow (collect_flows d m alive up_links flows)
      → flow.active ≡ true
      → Holds (flow.source_entity_id, flow.target_entity_id) up_links
        × (is_alive flow.target_entity_id alive ≡ true)
  unfolding collect_flows
  collect_flows-active alive up_links [] flow h e = elim h [ ]
  collect_flows-active alive up_links ((key, observed) ∷ flows) flow (inr h) e =
      collect_flows-active alive up_links flows flow h e
  collect_flows-active alive up_links ((key, observed) ∷ flows) flow (inl h) e =
      subst
        (λ f.
          Holds (f.source_entity_id, f.target_entity_id) up_links
          × (is_alive f.target_entity_id alive ≡ true))
        (sym h) (flow_config-active alive up_links observed (ap (λ f. f.active) (sym h) ∙ e))

  -- The ends of a flow among the entities.
  abbrev HasEnds : FlowConfig → List (EntityState d) → Type 0
  HasEnds flow entities =
      HasLinked d (flow.source_entity_id, flow.target_entity_id) entities
      × HasAlive d flow.target_entity_id entities

  collected-HasEnds :
      (sim : Simulation d) (time : F) (records : List PlatformRecord) (ext after : Extension d)
      (step : Progress d m × Result TickError (List (EntityState d)))
      (entities : List (EntityState d)) (flows : List FlowConfig) (flow : FlowConfig)
      → MakesAll d m sim ext.config
          (directory d m sim records)
          (flow.source_entity_id, flow.target_entity_id)
          records
          []
          step
      → collected d m time (directory d m sim records) ext step ≡ (after, ok (entities, flows))
      → In flow flows
      → flow.active ≡ true
      → HasEnds flow entities
  unfolding collected directory lookup
  collected-HasEnds sim time records ext after (progress, err x) entities flows flow h e i a = cc
  collected-HasEnds sim time records ext after (progress, ok made) entities flows flow h e i a =
      let same = ok-injective (ap (λ r. r.1) e) in
      let alive = entity_alive d sim records [] in
      subst (λ q. In flow q.1 → HasEnds flow q.0) same
        (λ j.
          let (held, living) =
            collect_flows-active alive progress.up_links ext.observed_flows flow j a in
          (
            elim (h.1 held) [ inl nowhere ↦ cc | inr linked ↦ linked ],
            alive-HasAlive d sim flow.target_entity_id records made h.0 living,
          ))
        i

  -- If the plugin collects entities and flows, then an active flow starts at an entity among them
  -- that is alive and has a device to the target of the flow that is up, and ends at an entity
  -- among them that is alive.
  pub active_flows :
      (rounds : ℕ) (sim : Simulation d) (time : F) (ext after : Extension d)
      (entities : List (EntityState d)) (flows : List FlowConfig) (flow : FlowConfig)
      → collect_state d m rounds sim time ext ≡ (after, ok (entities, flows))
      → In flow flows
      → flow.active ≡ true
      → HasLinked d (flow.source_entity_id, flow.target_entity_id) entities
        × HasAlive d flow.target_entity_id entities
  unfolding collect_state
  active_flows rounds sim time ext after entities flows flow e i a =
      let records = platform_records d sim sim.platform_entries in
      let dir = directory d m sim records in
      let key : Bytes × Bytes = (flow.source_entity_id, flow.target_entity_id) in
      collected-HasEnds sim time records ext after
        (collect_entities d m sim ext.config dir rounds records (progress_of d m ext)) entities
        flows flow
        (collect_entities-MakesAll d m sim ext.config dir key rounds records (progress_of d m ext))
        e i a
