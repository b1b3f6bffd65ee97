-- ===== src/Extension/Devices.antt =====
-- What AFSIM configures for a comm, and the device that is sent for one of its peers.
use afsim_ns.Base.{
  ℕ, true, not, ◌&&◌, Bytes, codes, Option, none, some, ltb, if◌then◌else◌, equals, bytes_ord,
  pair_ord, nat_ord, cmp_bytes,
}
use afsim_ns.Base.Map.{Map, lookup, insert}
use afsim_ns.Double.{Double, fmax, fmin, at_least}
use afsim_ns.Double.Math.{Math}
use afsim_ns.Extension.Config.{RuntimeConfig, max}
use afsim_ns.Extension.Afsim.{Comm, Medium, guided, unguided, other_medium, Simulation}
use afsim_ns.Extension.State.{LinkKey, LinkObservation}
use afsim_ns.Extension.Observe.{is_rate, cast_rate, observation_at}

module _ (d : Double) (m : Math d) where
  open d use {F, less, times, divide, of_uint64}
  open m use {plus}

  abbrev if_guided : Option Medium → Option (F × F) → Option (F × F)
  if_guided (some guided) mode = mode
  if_guided (some unguided) mode = none
  if_guided (some other_medium) mode = none
  if_guided none mode = none

  unfoldable pub guided_mode : Simulation d → Comm → Option (F × F)
  guided_mode sim comm = if_guided (sim.medium comm) (sim.current_mode comm)

  unfoldable pub drawn_rate : ℕ → Option F → ℕ
  unfolding is_rate cast_rate
  drawn_rate fallback none = fallback
  drawn_rate fallback (some rate) = if is_rate d m rate then cast_rate d m rate else fallback

  -- The comm is not null where this is called. The rates after the call stand beside the rate.
  unfoldable pub configured_data_rate :
      Simulation d → RuntimeConfig d → Comm → Map Comm ℕ → Map Comm ℕ × ℕ
  unfolding lookup insert drawn_rate max
  configured_data_rate sim config comm rates = elim (lookup comm rates) [
    | some rate ↦ (rates, rate)
    | none ↦
        let configured = max 1 (drawn_rate config.default_data_rate_bps (sim.transfer_rate comm)) in
        (insert comm configured rates, configured)
  ]

  unfoldable pub distance : F × (F × F) → F
  distance (x, (y, z)) = m.square_root (plus (plus (times x x) (times y y)) (times z z))

  -- The seconds that the signal needs, where the speed and both platforms are known.
  unfoldable pub add_propagation : Simulation d → Comm → Option Comm → F → F → F
  unfolding distance
  add_propagation sim transmitter none speed delay = delay
  add_propagation sim transmitter (some receiver) speed delay =
      elim (sim.comm_platform transmitter) [
        | none ↦ delay
        | some source ↦ elim (sim.comm_platform receiver) [
          | none ↦ delay
          | some target ↦
              if less d.nought speed
              then plus delay (divide (distance (sim.relative_location_wcs source target)) speed)
              else delay
        ]
      ]

  -- -1.0 where the medium is not guided.
  unfoldable pub native_guided_delay_ms : Simulation d → Comm → Option Comm → F
  unfolding guided_mode add_propagation
  native_guided_delay_ms sim transmitter receiver = elim (guided_mode sim transmitter) [
    | none ↦ m.negate d.unit
    | some (delay, speed) ↦ fmax d d.nought (
        times (add_propagation sim transmitter receiver speed (fmax d d.nought delay))
          (of_uint64 1000))
  ]

  unfoldable pub configured_delay_ms : Simulation d → RuntimeConfig d → Comm → Option Comm → F
  unfolding native_guided_delay_ms
  configured_delay_ms sim config transmitter receiver =
      let native = native_guided_delay_ms sim transmitter receiver in
      if config.delay_override
      then config.default_delay_ms
      else if at_least d native d.nought
      then native
      else config.default_delay_ms

  unfoldable pub configured_loss_rate : RuntimeConfig d → F
  configured_loss_rate config = config.default_loss_rate

  unfoldable pub link_kind : Simulation d → RuntimeConfig d → Comm → Bytes
  unfolding cmp_bytes
  link_kind sim config comm =
      let fallback =
        if equals config.link_kind (codes "wired") then codes "wired" else codes "wireless" in
      elim (sim.medium comm) [
        | none ↦ fallback
        | some guided ↦ codes "wired"
        | some unguided ↦ codes "wireless"
        | some other_medium ↦ fallback
      ]

  -- The two blocks that turn the counters into rates, and start them again.
  unfoldable pub sample_loss : LinkObservation d → LinkObservation d
  sample_loss observation =
      if ltb 0 observation.completed
      then record observation {
        last_loss_rate =
            fmin d d.unit
              (divide (of_uint64 observation.failures) (of_uint64 observation.completed));
        has_loss = true;
        completed = 0;
        failures = 0;
      }
      else observation

  unfoldable pub sample_delay : LinkObservation d → LinkObservation d
  sample_delay observation =
      if ltb 0 observation.delay_samples
      then record observation {
        last_delay_ms = divide observation.delay_total_ms (of_uint64 observation.delay_samples);
        has_delay = true;
        delay_total_ms = d.nought;
        delay_samples = 0;
      }
      else observation

  pub record LinkRates : Type 0 where
    pub data_rate : ℕ
    pub delay_ms : F
    pub loss_rate : F

  -- What was observed replaces what is configured.
  unfoldable pub observed_rates : RuntimeConfig d → LinkObservation d → LinkRates → LinkRates
  observed_rates config observation rates = record {
    data_rate =
        if observation.has_data_rate then observation.last_data_rate_bps else rates.data_rate;
    delay_ms =
        if observation.has_delay && not config.delay_override
        then observation.last_delay_ms
        else rates.delay_ms;
    loss_rate =
        if observation.has_loss && not config.loss_override
        then observation.last_loss_rate
        else rates.loss_rate;
  }

  -- The observations after the samples, and the rates of the device.
  unfoldable pub link_rates :
      RuntimeConfig d
      → Comm
      → Option Comm
      → LinkRates
      → Map LinkKey (LinkObservation d)
      → Map LinkKey (LinkObservation d) × LinkRates
  unfolding observation_at sample_loss sample_delay observed_rates insert
  link_rates config comm none rates observations = (observations, rates)
  link_rates config comm (some peer) rates observations =
      let observation = sample_delay (sample_loss (observation_at d m (comm, peer) observations)) in
      (insert (comm, peer) observation observations, observed_rates config observation rates)

  -- `isfinite(rate) && rate > 0.0 ? cast : configured`
  unfoldable pub aggregate_data_rate : Simulation d → Comm → ℕ → ℕ
  unfolding is_rate cast_rate
  aggregate_data_rate sim comm configured =
      if is_rate d m (sim.last_data_rate comm)
      then cast_rate d m (sim.last_data_rate comm)
      else configured
