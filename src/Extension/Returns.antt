-- ===== src/Extension/Returns.antt =====
-- When `CollectState` returns.
use afsim_ns.Base.{
  ℕ, suc, ◌≡◌, refl, ap, subst, ◌∙◌, true, false, List, [], ◌∷◌, Option, none, some, Result, ok,
  All,
}
use afsim_ns.Double.{Double}
use afsim_ns.Double.Math.{Math, TurnLaws}
use afsim_ns.Protocol.{EntityState, FlowConfig, Position}
use afsim_ns.Geo.{GeoPoint, LocalEnuFrame}
use afsim_ns.Geo.Origin.{IsGeodetic, frame-made, to_enu-IsGeodetic}
use afsim_ns.Extension.Config.{RuntimeConfig}
use afsim_ns.Extension.Afsim.{Platform, Simulation}
use afsim_ns.Extension.State.{Extension}
use afsim_ns.Extension.Peers.{PlatformRecord, platform_records}
use afsim_ns.Extension.Collect.{
  TickError, Directory, directory, Progress, progress_of, frame_at, point_of, collect_placed,
  collect_at, collect_in, collect_entity, push_front, followed_by, collect_entities, collected,
  collect_state,
}
use afsim_ns.Extension.Active.Entities.{AreOf, MakesAll, collect_entities-MakesAll}
use afsim_ns.Extension.Turns.{IsHeading, degrees_lem}

module _ (d : Double) (m : Math d) (laws : TurnLaws d m) where
  open d use {F, less}

  module _ (sim : Simulation d) (config : RuntimeConfig d) (dir : Directory) (rounds : ℕ) where
    -- The place of the platform is on the earth, and its heading near the first turn.
    pub record IsPlaced (p : Platform) : Type 0 where
      pub point : IsGeodetic d m (point_of d m sim config dir p)
      pub heading_lower :
          less
            (d.divide (d.times (sim.heading p) (d.of_uint64 180)) m.pi)
            (m.negate (d.of_uint64 360))
          ≡ false
      pub heading_upper :
          less (d.divide (d.times (sim.heading p) (d.of_uint64 180)) m.pi) (d.of_uint64 720) ≡ true

    frame_at-ok :
        (frame : Option (LocalEnuFrame d)) (p : GeoPoint d)
        → IsGeodetic d m p
        → (f : LocalEnuFrame d) × (frame_at d m sim config dir frame p ≡ ok f)
    unfolding frame_at
    frame_at-ok (some f) p h = (f, refl)
    frame_at-ok none p h = frame-made d m p h

    -- The round returns an entity with a heading of the first turn.
    abbrev ReturnsEntity : Progress d m × Result TickError (EntityState d) → Type 0
    ReturnsEntity step =
        (next : Progress d m) × (entity : EntityState d) × (step ≡ (next, ok entity))
        × IsHeading d m laws entity.heading_deg

    abbrev ReturnsEntities : Progress d m × Result TickError (List (EntityState d)) → Type 0
    ReturnsEntities step =
        (next : Progress d m) × (entities : List (EntityState d)) × (step ≡ (next, ok entities))
        × All (λ e. IsHeading d m laws e.heading_deg) entities

    collect_placed-Returns :
        (r : PlatformRecord) (position : Position d) (heading : F) (progress : Progress d m)
        → IsHeading d m laws heading
        → ReturnsEntity (collect_placed d m sim config dir r position (some heading) progress)
    unfolding collect_placed
    collect_placed-Returns r position heading progress h = (_, _, refl, h)

    collect_entity-Returns :
        (r : PlatformRecord) (progress : Progress d m)
        → IsPlaced r.platform
        → ReturnsEntity (collect_entity d m sim config dir (suc (suc rounds)) r progress)
    unfolding collect_entity collect_in collect_at
    collect_entity-Returns r progress h =
        let point = point_of d m sim config dir r.platform in
        let (f, e) = frame_at-ok progress.enu_frame point h.point in
        let (position, q) = (to_enu-IsGeodetic d m f point).1 h.point in
        let (value, p, heading) =
          degrees_lem d m laws rounds (sim.heading r.platform) h.heading_lower h.heading_upper in
        let placed : Progress d m = record progress { enu_frame = some f } in
        let (next, entity, made, ranged) = collect_placed-Returns r position value placed heading in
        (
          next,
          entity,
          ap (λ x. collect_in d m sim config dir (suc (suc rounds)) r x progress) e
              ∙ ap (λ x. collect_at d m sim config dir (suc (suc rounds)) r x placed) q
              ∙ ap (λ x. collect_placed d m sim config dir r position x placed) p
              ∙ made,
          ranged,
        )

    collect_entities-Returns :
        (records : List PlatformRecord) (progress : Progress d m)
        → All (λ r. IsPlaced r.platform) records
        → ReturnsEntities (collect_entities d m sim config dir (suc (suc rounds)) records progress)
    unfolding collect_entities followed_by push_front
    collect_entities-Returns [] progress h = (progress, [], refl, tt)
    collect_entities-Returns (r ∷ records) progress h =
        let (next, entity, e, heading) = collect_entity-Returns r progress h.0 in
        let (last, entities, p, headings) = collect_entities-Returns records next h.1 in
        (
          last,
          entity ∷ entities,
          ap
                (λ step.
                  followed_by d m step
                    (λ n. collect_entities d m sim config dir (suc (suc rounds)) records n))
                e
              ∙ ap (push_front d m entity) p,
          (heading, headings),
        )

  collected-Returns :
      (time : F) (dir : Directory) (ext : Extension d)
      (step : Progress d m × Result TickError (List (EntityState d))) (next : Progress d m)
      (entities : List (EntityState d))
      → step ≡ (next, ok entities)
      → (after : Extension d) × (flows : List FlowConfig) × (collected d m time dir ext step
          ≡ (after, ok (entities, flows)))
  unfolding collected
  collected-Returns time dir ext step next entities e = (_, _, ap (collected d m time dir ext) e)

  -- Where doubles obey the laws for a turn: if every platform has coordinates in range and a heading
  -- near the first turn, the state is collected, with two rounds for each loop of `Degrees`. There
  -- is one entity for each platform, in their order, with its identifier, alive exactly if the
  -- platform is neither broken nor deleted, and with a heading from 0.0 to below 360.0.
  pub collect_state_returns :
      (rounds : ℕ) (sim : Simulation d) (time : F) (ext : Extension d)
      → All
          (λ r.
            IsPlaced sim ext.config
              (directory d m sim (platform_records d sim sim.platform_entries))
              rounds
              r.platform)
          (platform_records d sim sim.platform_entries)
      → (after : Extension d) × (entities : List (EntityState d)) × (flows : List FlowConfig)
        × (collect_state d m (suc (suc rounds)) sim time ext ≡ (after, ok (entities, flows)))
        × AreOf d (platform_records d sim sim.platform_entries) entities
        × All (λ e. IsHeading d m laws e.heading_deg) entities
  unfolding collect_state
  collect_state_returns rounds sim time ext h =
      let records = platform_records d sim sim.platform_entries in
      let dir = directory d m sim records in
      let step =
        collect_entities d m sim ext.config dir (suc (suc rounds)) records (progress_of d m ext) in
      let (next, entities, e, headings) =
        collect_entities-Returns sim ext.config dir rounds records (progress_of d m ext) h in
      let (after, flows, p) = collected-Returns time dir ext step next entities e in
      let made : MakesAll d m sim ext.config dir ([], []) records [] (next, ok entities) =
        subst (MakesAll d m sim ext.config dir ([], []) records []) e (
          collect_entities-MakesAll d m sim ext.config dir ([], []) (suc (suc rounds)) records
            (progress_of d m ext)) in
      (after, entities, flows, p, made.0, headings)
