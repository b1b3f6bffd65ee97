-- ===== src/Extension/Sound.antt =====
-- An invariant of the plugin's state, and that the handlers keep it.
pub mod Flows
pub mod Peers
pub mod Collect
pub mod Handlers
use afsim_ns.Base.{
  ℕ, suc, ◌≤◌, ◌<◌, ◌^◌, ◌≡◌, ◌≢◌, refl, true, false, not, ◌&&◌, ◌||◌, ◌==◌, Bool, Bytes, Option,
  none, some, All, arith, Bool-cases, Option-cases, inl, inr, pair_ord, nat_ord, bytes_ord, equals,
  equals_iff, if◌then◌else◌, if-both, subst, sym, ap, ◌∙◌,
}
use afsim_ns.Base.Map.{Map, lookup, insert, erase, All-lookup, All-insert}
use afsim_ns.Double.{Double, Laws, fmax, at_least}
use afsim_ns.Double.Math.{Math, CastLaws}
use afsim_ns.Protocol.{decimal}
use afsim_ns.Delta.{is_empty, is_some}
use afsim_ns.Extension.Config.{max, milliseconds, uint32_max}
use afsim_ns.Extension.Limits.{milliseconds_bounds, max_ge}
use afsim_ns.Extension.Afsim.{Comm, Message, Result, Simulation}
use afsim_ns.Extension.State.{
  FlowKey, LinkKey, MessageKey, LinkObservation, new_observation, ObservedFlow, new_flow, Extension,
}
use afsim_ns.Extension.Observe.{
  observation_at, update_observed_data_rate, add_delay, infer_rate, update_observed_delay_and_rate,
  flow_ends, flow_key, flow_id_text, named_flow, seen_again, seen_flow, flow_at, record_flow,
  magnitude,
}

module _ (d : Double) where
  open d use {less}

  -- No more messages failed than were completed, and the last loss rate is not above 1.0.
  pub record IsCounted (o : LinkObservation d) : Type 0 where
    pub failures : o.failures ≤ o.completed
    pub loss_rate : less d.unit o.last_loss_rate ≡ false

  -- A flow that was observed: a packet of at least 64 bytes, times that the message can hold, and
  -- two entities.
  pub record IsFlow (f : ObservedFlow d) : Type 0 where
    pub packet_size : 64 ≤ f.packet_size_bytes
    pub interval_lower : 1 ≤ f.interval_ms
    pub interval_upper : f.interval_ms ≤ uint32_max
    pub duration_lower : 100 ≤ f.duration_ms
    pub duration_upper : f.duration_ms ≤ uint32_max
    pub ends : equals f.source_entity_id f.target_entity_id ≡ false

  abbrev pub AllCounted : Map LinkKey (LinkObservation d) → Type 0
  AllCounted = All (λ e. IsCounted e.1)

  pub record IsSound (ext : Extension d) : Type 0 where
    pub observations : AllCounted ext.link_observations
    pub flows : All (λ e. IsFlow e.1) ext.observed_flows
    pub loss_rate : less d.unit ext.config.default_loss_rate ≡ false

module _ (d : Double) (m : Math d) where
  open d use {F}

  module _ (laws : Laws d) where
    new-IsCounted : IsCounted d (new_observation d)
    new-IsCounted = record {
      failures = omega arith;
      loss_rate =
          ground (
            arith,
            laws.nought_less_unit,
            laws.trans d.nought d.unit d.nought,
            laws.irrefl d.nought,
          );
    }

    pub observation_at-IsCounted :
        (key : LinkKey) (observations : Map LinkKey (LinkObservation d))
        → AllCounted d observations
        → IsCounted d (observation_at d m key observations)
    unfolding observation_at
    observation_at-IsCounted key observations h = elim (Option-cases (lookup key observations)) [
      | inl e ↦ rw (e, observation_at) new-IsCounted
      | inr (o, e) ↦ rw (e, observation_at) (All-lookup (IsCounted d) key observations o h e)
    ]

  -- The updates of the rates and delays leave the counters and the loss rate alone.
  abbrev pub KeepsCounts : LinkObservation d → LinkObservation d → Type 0
  KeepsCounts o p =
      (p.completed ≡ o.completed)
      × (p.failures ≡ o.failures)
      × (p.last_loss_rate ≡ o.last_loss_rate)

  KeepsCounts-trans :
      (o p q : LinkObservation d) → KeepsCounts o p → KeepsCounts p q → KeepsCounts o q
  KeepsCounts-trans o p q (a, b, c) (e, f, g) = (e ∙ a, f ∙ b, g ∙ c)

  pub KeepsCounts-IsCounted :
      (o p : LinkObservation d) → KeepsCounts o p → IsCounted d o → IsCounted d p
  KeepsCounts-IsCounted o p (a, b, c) h = record {
    failures = rw (a, b) h.failures;
    loss_rate = rw c h.loss_rate;
  }

  pub update_observed_data_rate-KeepsCounts :
      (rate : F) (o : LinkObservation d) → KeepsCounts o (update_observed_data_rate d m rate o)
  unfolding update_observed_data_rate
  update_observed_data_rate-KeepsCounts rate o =
      if-both (KeepsCounts o) _ _ o (refl, refl, refl) (refl, refl, refl)

  add_delay-KeepsCounts :
      (delay : F) (o : LinkObservation d) → KeepsCounts o (add_delay d m delay o)
  unfolding add_delay
  add_delay-KeepsCounts delay o =
      if-both (KeepsCounts o) _ _ o (refl, refl, refl) (refl, refl, refl)

  infer_rate-KeepsCounts :
      (infers : Bool) (delay : F) (message : Message) (o : LinkObservation d)
      → KeepsCounts o (infer_rate d m infers delay message o)
  unfolding infer_rate
  infer_rate-KeepsCounts infers delay message o =
      if-both (KeepsCounts o) _ _ o
        (update_observed_data_rate-KeepsCounts
          (d.divide (d.of_uint64 (magnitude message.size_bits)) delay) o)
        (refl, refl, refl)

  pub delay_and_rate-KeepsCounts :
      (time : F) (key : MessageKey) (message : Message) (infers : Bool) (o : LinkObservation d)
      (times : Map MessageKey F)
      → KeepsCounts o (update_observed_delay_and_rate d m time key message infers (o, times)).0
  unfolding update_observed_delay_and_rate
  delay_and_rate-KeepsCounts time key message infers o times =
      elim (Option-cases (lookup key times)) [
        | inl e ↦ rw (e, update_observed_delay_and_rate) (refl, refl, refl)
        | inr (sent, e) ↦
            let delay = fmax d d.nought (m.minus time sent) in
            let delayed = add_delay d m (d.times delay (d.of_uint64 1000)) o in
            rw (e, update_observed_delay_and_rate)
              (KeepsCounts-trans o delayed (infer_rate d m infers delay message delayed)
                (add_delay-KeepsCounts (d.times delay (d.of_uint64 1000)) o)
                (infer_rate-KeepsCounts infers delay message delayed))
      ]
