-- ===== src/Extension/Sound/Collect.antt =====
-- What `CollectState` makes of a sound state: a sound state, and devices within their limits.
use afsim_ns.Base.{
  ℕ, ◌≤◌, ◌≡◌, false, Bytes, List, [], ◌∷◌, Option, none, some, All, All-append, arith, ltb, Result,
  ok, err, pair_ord, nat_ord, bytes_ord, equals, if-both,
}
use afsim_ns.Base.Map.{Map, All-insert}
use afsim_ns.Double.{Double, Laws}
use afsim_ns.Double.Math.{Math}
use afsim_ns.Protocol.{DeviceConfig, EntityState, Position}
use afsim_ns.Geo.{GeoError, LocalEnuFrame}
use afsim_ns.Extension.Config.{RuntimeConfig, degrees}
use afsim_ns.Extension.Limits.{max_ge, fmin-upper}
use afsim_ns.Extension.Afsim.{Comm, Simulation}
use afsim_ns.Extension.State.{LinkKey, LinkObservation}
use afsim_ns.Extension.Devices.{
  LinkRates, sample_loss, sample_delay, observed_rates, link_rates, configured_delay_ms,
  configured_loss_rate,
}
use afsim_ns.Extension.Peers.{PlatformRecord, PeerEndpoint, Peers}
use afsim_ns.Extension.Collect.{
  TickError, Directory, Progress, device, collect_device, collect_devices, collect_comm,
  collect_comms, frame_at, point_of, collect_placed, collect_at, collect_in, collect_entity,
  push_front, followed_by, collect_entities,
}
use afsim_ns.Extension.Sound.{IsCounted, AllCounted, observation_at-IsCounted}
use afsim_ns.Extension.Sound.Peers.{AreOthers, comm_peers-AreOthers}

module _ (d : Double) where
  -- A rate that is not 0, a loss rate that is not above 1.0, and another entity as its peer.
  pub record IsDevice (own : Bytes) (device : DeviceConfig d) : Type 0 where
    pub data_rate : 1 ≤ device.data_rate_bps
    pub loss_rate : d.less d.unit device.loss_rate ≡ false
    pub peer : equals device.peer_entity_id own ≡ false

  abbrev pub AreDevices : EntityState d → Type 0
  AreDevices entity = All (IsDevice entity.entity_id) entity.devices

-- What holds of a result, where one is returned.
abbrev pub Returned : {A : Type 0} → (A → Type 0) → Result TickError A → Type 0
Returned P (ok a) = P a
Returned P (err e) = Unit

module _ (d : Double) (m : Math d) (laws : Laws d) where
  open d use {F, less}

  sample_loss-IsCounted : (o : LinkObservation d) → IsCounted d o → IsCounted d (sample_loss d m o)
  unfolding sample_loss
  sample_loss-IsCounted o h =
      if-both (IsCounted d) (ltb 0 o.completed) _ o
        (record { failures = omega arith; loss_rate = fmin-upper d m laws _ }) h

  sample_delay-IsCounted :
      (o : LinkObservation d) → IsCounted d o → IsCounted d (sample_delay d m o)
  unfolding sample_delay
  sample_delay-IsCounted o h =
      if-both (IsCounted d) (ltb 0 o.delay_samples) _ o
        (record { failures = h.failures; loss_rate = h.loss_rate }) h

  abbrev IsLoss : F → Type 0
  IsLoss a = less d.unit a ≡ false

  link_rates-IsLoss :
      (config : RuntimeConfig d) (comm : Comm) (peer : Option Comm) (rates : LinkRates d m)
      (observations : Map LinkKey (LinkObservation d))
      → IsLoss rates.loss_rate
      → AllCounted d observations
      → AllCounted d (link_rates d m config comm peer rates observations).0
        × IsLoss (link_rates d m config comm peer rates observations).1.loss_rate
  unfolding link_rates observed_rates
  link_rates-IsLoss config comm none rates observations k h = (h, k)
  link_rates-IsLoss config comm (some peer) rates observations k h =
      let o = observation_at-IsCounted d m laws (comm, peer) observations h in
      let sampled = sample_delay-IsCounted _ (sample_loss-IsCounted _ o) in
      (
        All-insert (IsCounted d) (comm, peer) _ observations sampled h,
        if-both IsLoss _ _ rates.loss_rate sampled.loss_rate k,
      )

  -- The observations after a step, and what it returned.
  abbrev IsStep : {A : Type 0} → (A → Type 0) → Progress d m × Result TickError A → Type 0
  IsStep P step = AllCounted d step.0.link_observations × Returned P step.1

  push_front-AreDevices :
      (entity : EntityState d) (rest : Progress d m × Result TickError (List (EntityState d)))
      → AreDevices d entity
      → IsStep (All (AreDevices d)) rest
      → IsStep (All (AreDevices d)) (push_front d m entity rest)
  unfolding push_front
  push_front-AreDevices entity (progress, err e) h k = k
  push_front-AreDevices entity (progress, ok entities) h (k, l) = (k, (h, l))

  followed_by-AreDevices :
      (step : Progress d m × Result TickError (EntityState d))
      (rest : Progress d m → Progress d m × Result TickError (List (EntityState d)))
      → IsStep (AreDevices d) step
      → ((next : Progress d m)
          → AllCounted d next.link_observations
          → IsStep (All (AreDevices d)) (rest next))
      → IsStep (All (AreDevices d)) (followed_by d m step rest)
  unfolding followed_by
  followed_by-AreDevices (progress, err e) rest h k = h
  followed_by-AreDevices (progress, ok entity) rest (h, l) k =
      push_front-AreDevices entity (rest progress) l (k progress h)

  module _ (sim : Simulation d) (config : RuntimeConfig d) (dir : Directory)
      (limit : less d.unit config.default_loss_rate ≡ false) where
    collect_device-IsDevice :
        (r : PlatformRecord) (comm : Comm) (aggregate : ℕ) (peer_id : Bytes)
        (endpoint : PeerEndpoint) (progress : Progress d m)
        → equals peer_id r.entity_id ≡ false
        → AllCounted d progress.link_observations
        → AllCounted d
            (collect_device d m sim config dir r comm aggregate peer_id endpoint
              progress).0.link_observations
          × IsDevice d r.entity_id
              (collect_device d m sim config dir r comm aggregate peer_id endpoint progress).1
    unfolding collect_device device configured_loss_rate
    collect_device-IsDevice r comm aggregate peer_id endpoint progress other h =
        let configured : LinkRates d m = record {
          data_rate = aggregate;
          delay_ms = configured_delay_ms d m sim config comm endpoint.comm;
          loss_rate = config.default_loss_rate;
        } in
        let (observations, loss) =
          link_rates-IsLoss config comm endpoint.comm configured progress.link_observations limit
            h in
        let rates =
          link_rates d m config comm endpoint.comm configured progress.link_observations in
        (
          observations,
          record { data_rate = max_ge 1 rates.1.data_rate; loss_rate = loss; peer = other },
        )

    collect_devices-IsDevice :
        (r : PlatformRecord) (comm : Comm) (aggregate : ℕ) (peers : Peers) (progress : Progress d m)
        → AreOthers r.entity_id peers
        → AllCounted d progress.link_observations
        → AllCounted d
            (collect_devices d m sim config dir r comm aggregate peers progress).0.link_observations
          × All
              (IsDevice d r.entity_id)
              (collect_devices d m sim config dir r comm aggregate peers progress).1
    unfolding collect_devices
    collect_devices-IsDevice r comm aggregate [] progress others h = (h, tt)
    collect_devices-IsDevice r comm aggregate ((peer_id, endpoint) ∷ peers) progress others h =
        let (a, b) =
          collect_device-IsDevice r comm aggregate peer_id endpoint progress others.0 h in
        let (c, e) = collect_devices-IsDevice r comm aggregate peers _ others.1 a in (c, (b, e))

    collect_comm-IsDevice :
        (r : PlatformRecord) (comm : Comm) (progress : Progress d m)
        → AllCounted d progress.link_observations
        → AllCounted d (collect_comm d m sim config dir r comm progress).0.link_observations
          × All (IsDevice d r.entity_id) (collect_comm d m sim config dir r comm progress).1
    unfolding collect_comm
    collect_comm-IsDevice r comm progress h =
        collect_devices-IsDevice r comm _ _ _
          (comm_peers-AreOthers d sim r.entity_id dir.names dir.addresses dir.networks comm) h

    collect_comms-IsDevice :
        (r : PlatformRecord) (comms : List (Option Comm)) (progress : Progress d m)
        → AllCounted d progress.link_observations
        → AllCounted d (collect_comms d m sim config dir r comms progress).0.link_observations
          × All (IsDevice d r.entity_id) (collect_comms d m sim config dir r comms progress).1
    unfolding collect_comms
    collect_comms-IsDevice r [] progress h = (h, tt)
    collect_comms-IsDevice r (none ∷ comms) progress h = collect_comms-IsDevice r comms progress h
    collect_comms-IsDevice r (some comm ∷ comms) progress h =
        let (a, b) = collect_comm-IsDevice r comm progress h in
        let (c, e) = collect_comms-IsDevice r comms _ a in
        (c, All-append (IsDevice d r.entity_id) _ _ b e)

    collect_placed-AreDevices :
        (r : PlatformRecord) (position : Position d) (heading : Option F) (progress : Progress d m)
        → AllCounted d progress.link_observations
        → IsStep (AreDevices d) (collect_placed d m sim config dir r position heading progress)
    unfolding collect_placed
    collect_placed-AreDevices r position none progress h = (h, tt)
    collect_placed-AreDevices r position (some heading) progress h =
        collect_comms-IsDevice r (sim.comm_entries r.platform) progress h

    collect_at-AreDevices :
        (rounds : ℕ) (r : PlatformRecord) (position : Result GeoError (Position d))
        (progress : Progress d m)
        → AllCounted d progress.link_observations
        → IsStep (AreDevices d) (collect_at d m sim config dir rounds r position progress)
    unfolding collect_at
    collect_at-AreDevices rounds r (err e) progress h = (h, tt)
    collect_at-AreDevices rounds r (ok position) progress h =
        collect_placed-AreDevices r position (degrees d m rounds (sim.heading r.platform)) progress
          h

    collect_in-AreDevices :
        (rounds : ℕ) (r : PlatformRecord) (frame : Result GeoError (LocalEnuFrame d))
        (progress : Progress d m)
        → AllCounted d progress.link_observations
        → IsStep (AreDevices d) (collect_in d m sim config dir rounds r frame progress)
    unfolding collect_in
    collect_in-AreDevices rounds r (err e) progress h = (h, tt)
    collect_in-AreDevices rounds r (ok frame) progress h =
        collect_at-AreDevices rounds r _ (record progress { enu_frame = some frame }) h

    collect_entity-AreDevices :
        (rounds : ℕ) (r : PlatformRecord) (progress : Progress d m)
        → AllCounted d progress.link_observations
        → IsStep (AreDevices d) (collect_entity d m sim config dir rounds r progress)
    unfolding collect_entity
    collect_entity-AreDevices rounds r progress h =
        collect_in-AreDevices rounds r
          (frame_at d m sim config dir progress.enu_frame (point_of d m sim config dir r.platform))
          progress h

    pub collect_entities-AreDevices :
        (rounds : ℕ) (records : List PlatformRecord) (progress : Progress d m)
        → AllCounted d progress.link_observations
        → IsStep (All (AreDevices d)) (collect_entities d m sim config dir rounds records progress)
    unfolding collect_entities
    collect_entities-AreDevices rounds [] progress h = (h, tt)
    collect_entities-AreDevices rounds (r ∷ records) progress h =
        followed_by-AreDevices (collect_entity d m sim config dir rounds r progress)
          (λ next. collect_entities d m sim config dir rounds records next)
          (collect_entity-AreDevices rounds r progress h)
          (λ next k. collect_entities-AreDevices rounds records next k)
