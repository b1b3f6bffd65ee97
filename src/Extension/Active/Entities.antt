-- ===== src/Extension/Active/Entities.antt =====
-- The entities that are collected, one for each record, with the links that they add.
use afsim_ns.Base.{
  ℕ, ◌≡◌, refl, true, ◌⊎◌, inl, inr, Bool, Bool-cases, Bytes, List, [], ◌∷◌, Option, none, some,
  Result, ok, err, equals, equals_iff, bytes_ord, pair_ord, if◌then◌else◌, sym, ◌∙◌, arith,
}
use afsim_ns.Base.Map.{Map, lookup, insert, lookup-insert}
use afsim_ns.Double.{Double}
use afsim_ns.Double.Math.{Math}
use afsim_ns.Protocol.{EntityState, Position}
use afsim_ns.Geo.{GeoError, LocalEnuFrame, to_enu}
use afsim_ns.Extension.Config.{RuntimeConfig, degrees}
use afsim_ns.Extension.Afsim.{Simulation}
use afsim_ns.Extension.State.{Set}
use afsim_ns.Extension.Peers.{PlatformRecord, entity_alive}
use afsim_ns.Extension.Collect.{
  TickError, Directory, Progress, is_alive, frame_at, point_of, collect_placed, collect_at,
  collect_in, collect_entity, push_front, followed_by, collect_entities,
}
use afsim_ns.Extension.Sound.Collect.{Returned}
use afsim_ns.Extension.Active.Links.{Holds, LinksTo, collect_comms-Adds}

module _ (d : Double) where
  -- The entity is the source of the link, is alive and has a device to the target that is up.
  abbrev pub IsLinked : Bytes × Bytes → EntityState d → Type 0
  IsLinked key entity =
      (entity.entity_id ≡ key.0) × (entity.alive ≡ true) × LinksTo d key.1 entity.devices

  abbrev pub HasLinked : Bytes × Bytes → List (EntityState d) → Type 0
  HasLinked key [] = ⊥
  HasLinked key (entity ∷ entities) = IsLinked key entity ⊎ HasLinked key entities

  -- An entity with this identifier is alive.
  abbrev pub HasAlive : Bytes → List (EntityState d) → Type 0
  HasAlive id [] = ⊥
  HasAlive id (entity ∷ entities) =
      ((entity.entity_id ≡ id) × (entity.alive ≡ true)) ⊎ HasAlive id entities

  abbrev pub IsOf : PlatformRecord → EntityState d → Type 0
  IsOf r entity = (entity.entity_id ≡ r.entity_id) × (entity.alive ≡ r.alive)

  abbrev pub AreOf : List PlatformRecord → List (EntityState d) → Type 0
  AreOf [] [] = Unit
  AreOf [] (entity ∷ entities) = ⊥
  AreOf (r ∷ records) [] = ⊥
  AreOf (r ∷ records) (entity ∷ entities) = IsOf r entity × AreOf records entities

  abbrev RecordAlive : Bytes → List PlatformRecord → Type 0
  RecordAlive id [] = ⊥
  RecordAlive id (r ∷ records) = ((r.entity_id ≡ id) × (r.alive ≡ true)) ⊎ RecordAlive id records

  RecordAlive-HasAlive :
      (id : Bytes) (records : List PlatformRecord) (entities : List (EntityState d))
      → AreOf records entities
      → RecordAlive id records
      → HasAlive id entities
  RecordAlive-HasAlive id [] entities h k = elim k [ ]
  RecordAlive-HasAlive id (r ∷ records) [] h k = elim h [ ]
  RecordAlive-HasAlive id (r ∷ records) (entity ∷ entities) h (inl (a, b)) =
      inl (h.0.0 ∙ a, h.0.1 ∙ b)
  RecordAlive-HasAlive id (r ∷ records) (entity ∷ entities) h (inr k) =
      inr (RecordAlive-HasAlive id records entities h.1 k)

  insert-alive :
      (id key : Bytes) (value : Bool) (alive : Map Bytes Bool)
      → is_alive id (insert key value alive) ≡ (if equals key id then value else is_alive id alive)
  unfolding is_alive
  insert-alive id key value alive = rw (lookup-insert key id value alive, is_alive) (ground arith)

  entity_alive-RecordAlive :
      (sim : Simulation d) (id : Bytes) (records : List PlatformRecord) (alive : Map Bytes Bool)
      → is_alive id (entity_alive d sim records alive) ≡ true
      → (is_alive id alive ≡ true) ⊎ RecordAlive id records
  unfolding entity_alive
  entity_alive-RecordAlive sim id [] alive h = inl h
  entity_alive-RecordAlive sim id (r ∷ records) alive h =
      elim (entity_alive-RecordAlive sim id records (insert r.entity_id r.alive alive) h) [
        | inr there ↦ inr (inr there)
        | inl here ↦
            let value = sym (insert-alive id r.entity_id r.alive alive) ∙ here in
            elim (Bool-cases (equals r.entity_id id)) [
              | inl e ↦ inr (inl ((equals_iff r.entity_id id).0 e, rw e at value))
              | inr e ↦ inl (rw e at value)
            ]
      ]

  -- The map of the living has only what a record says.
  pub alive-HasAlive :
      (sim : Simulation d) (id : Bytes) (records : List PlatformRecord)
      (entities : List (EntityState d))
      → AreOf records entities
      → is_alive id (entity_alive d sim records []) ≡ true
      → HasAlive id entities
  unfolding is_alive lookup
  alive-HasAlive sim id records entities h k = elim (entity_alive-RecordAlive sim id records [] k) [
    | inl nowhere ↦ cc
    | inr there ↦ RecordAlive-HasAlive id records entities h there
  ]

module _ (d : Double) (m : Math d) (sim : Simulation d) (config : RuntimeConfig d) (dir : Directory)
    (key : Bytes × Bytes) where
  open d use {F}

  -- What a round over the platforms gives, and what all rounds give.
  abbrev Makes :
      PlatformRecord
      → Set (Bytes × Bytes)
      → Progress d m × Result TickError (EntityState d)
      → Type 0
  Makes r before step =
      Returned
        (λ entity.
          IsOf d r entity × (Holds key step.0.up_links → Holds key before ⊎ IsLinked d key entity))
        step.1

  abbrev pub MakesAll :
      List PlatformRecord
      → Set (Bytes × Bytes)
      → Progress d m × Result TickError (List (EntityState d))
      → Type 0
  MakesAll records before step =
      Returned
        (λ entities.
          AreOf d records entities
          × (Holds key step.0.up_links → Holds key before ⊎ HasLinked d key entities))
        step.1

  collect_placed-Makes :
      (r : PlatformRecord) (position : Position d) (heading : Option F) (progress : Progress d m)
      → Makes r progress.up_links (collect_placed d m sim config dir r position heading progress)
  unfolding collect_placed
  collect_placed-Makes r position none progress = tt
  collect_placed-Makes r position (some heading) progress = (
    (refl, refl),
    λ held.
        elim (collect_comms-Adds d m sim config dir r key (sim.comm_entries r.platform) progress
          held) [ inl before ↦ inl before | inr linked ↦ inr linked ],
  )

  collect_at-Makes :
      (rounds : ℕ) (r : PlatformRecord) (position : Result GeoError (Position d))
      (progress : Progress d m)
      → Makes r progress.up_links (collect_at d m sim config dir rounds r position progress)
  unfolding collect_at
  collect_at-Makes rounds r (err e) progress = tt
  collect_at-Makes rounds r (ok position) progress =
      collect_placed-Makes r position (degrees d m rounds (sim.heading r.platform)) progress

  collect_in-Makes :
      (rounds : ℕ) (r : PlatformRecord) (frame : Result GeoError (LocalEnuFrame d))
      (progress : Progress d m)
      → Makes r progress.up_links (collect_in d m sim config dir rounds r frame progress)
  unfolding collect_in
  collect_in-Makes rounds r (err e) progress = tt
  collect_in-Makes rounds r (ok frame) progress =
      collect_at-Makes rounds r (to_enu d m frame (point_of d m sim config dir r.platform))
        (record progress { enu_frame = some frame })

  collect_entity-Makes :
      (rounds : ℕ) (r : PlatformRecord) (progress : Progress d m)
      → Makes r progress.up_links (collect_entity d m sim config dir rounds r progress)
  unfolding collect_entity
  collect_entity-Makes rounds r progress =
      collect_in-Makes rounds r
        (frame_at d m sim config dir progress.enu_frame (point_of d m sim config dir r.platform))
        progress

  push_front-MakesAll :
      (r : PlatformRecord) (records : List PlatformRecord) (before : Set (Bytes × Bytes))
      (middle : Progress d m) (entity : EntityState d)
      (rest : Progress d m × Result TickError (List (EntityState d)))
      → Makes r before (middle, ok entity)
      → MakesAll records middle.up_links rest
      → MakesAll (r ∷ records) before (push_front d m entity rest)
  unfolding push_front
  push_front-MakesAll r records before middle entity (progress, err e) h k = tt
  push_front-MakesAll r records before middle entity (progress, ok entities) h k = (
    (h.0, k.0),
    λ held. elim (k.1 held) [
      | inr there ↦ inr (inr there)
      | inl still ↦ elim (h.1 still) [ inl first ↦ inl first | inr here ↦ inr (inl here) ]
    ],
  )

  followed_by-MakesAll :
      (r : PlatformRecord) (records : List PlatformRecord) (before : Set (Bytes × Bytes))
      (step : Progress d m × Result TickError (EntityState d))
      (rest : Progress d m → Progress d m × Result TickError (List (EntityState d)))
      → Makes r before step
      → ((next : Progress d m) → MakesAll records next.up_links (rest next))
      → MakesAll (r ∷ records) before (followed_by d m step rest)
  unfolding followed_by
  followed_by-MakesAll r records before (progress, err e) rest h k = tt
  followed_by-MakesAll r records before (progress, ok entity) rest h k =
      push_front-MakesAll r records before progress entity (rest progress) h (k progress)

  pub collect_entities-MakesAll :
      (rounds : ℕ) (records : List PlatformRecord) (progress : Progress d m)
      → MakesAll records progress.up_links
          (collect_entities d m sim config dir rounds records progress)
  unfolding collect_entities
  collect_entities-MakesAll rounds [] progress = (tt, λ held. inl held)
  collect_entities-MakesAll rounds (r ∷ records) progress =
      followed_by-MakesAll r records progress.up_links
        (collect_entity d m sim config dir rounds r progress)
        (λ next. collect_entities d m sim config dir rounds records next)
        (collect_entity-Makes rounds r progress)
        (λ next. collect_entities-MakesAll rounds records next)
