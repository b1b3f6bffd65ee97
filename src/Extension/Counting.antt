-- ===== src/Extension/Counting.antt =====
-- What a discarded message adds to the counters of its link.
use afsim_ns.Base.{
  subst, ℕ, suc, ◌≡◌, refl, true, false, not, Bool, Bool-cases, inl, inr, Bytes, Option, none, some,
  equals_refl, pair_ord, nat_ord, if◌then◌else◌, ap, sym, ◌∙◌,
}
use afsim_ns.Base.Map.{Map, lookup, insert, lookup-insert, IsSorted}
use afsim_ns.Double.{Double}
use afsim_ns.Double.Math.{Math}
use afsim_ns.Delta.{is_some}
use afsim_ns.Transport
use afsim_ns.Transport.{MessageTransportDecision}
use afsim_ns.Controller.{decide_message}
use afsim_ns.Extension.Afsim.{Comm, Message, Result, Simulation}
use afsim_ns.Extension.State.{LinkKey, MessageKey, LinkObservation, Extension}
use afsim_ns.Extension.Observe.{observation_at, record_flow}
use afsim_ns.Extension.Messages.{
  is_delivered, decided, end_entities, attempted, gate_between, message_delivery_attempt, count,
  discarded, message_discarded,
}
use afsim_ns.Extension.Sound.{KeepsCounts, update_observed_data_rate-KeepsCounts}
use afsim_ns.Extension.Sound.Handlers.{settle-KeepsCounts}
use afsim_ns.Extension.Gating.{
  record_flow-rest, attempted-rest, Answers, AnswersFor, message_delivery_attempt_lem,
}

module _ (d : Double) (m : Math d) where
  open d use {F}

  -- One more completed and one more failure, if so told.
  abbrev pub CountsFailure : Bool → LinkObservation d → LinkObservation d → Type 0
  CountsFailure counts before after =
      (after.completed ≡ (if counts then suc before.completed else before.completed))
      × (after.failures ≡ (if counts then suc before.failures else before.failures))

  pub observation_at-insert :
      (link : LinkKey) (o : LinkObservation d) (observations : Map LinkKey (LinkObservation d))
      → observation_at d m link (insert link o observations) ≡ o
  unfolding observation_at
  observation_at-insert link o observations =
      rw (lookup-insert link link o observations, equals_refl link, observation_at) refl

  discarded-CountsFailure :
      (time : F) (link : LinkKey) (key : MessageKey) (message : Message) (ext : Extension d)
      (counts : Bool)
      → is_some (lookup key ext.externally_dropped) ≡ not counts
      → CountsFailure counts
          (observation_at d m link ext.link_observations)
          (observation_at d m link (discarded d m time link key message ext).link_observations)
  unfolding discarded count
  discarded-CountsFailure time link key message ext false e =
      rw (e, discarded, observation_at-insert link) (refl, refl)
  discarded-CountsFailure time link key message ext true e =
      let counted = count d m true (observation_at d m link ext.link_observations) in
      let gated = is_some (lookup key ext.externally_gated) in
      let (completed, failures, _) =
        settle-KeepsCounts d m time key message false gated counted ext.transmit_times in
      rw (e, discarded, observation_at-insert link) (completed, failures)

  decided-links :
      (key : MessageKey) (decision : MessageTransportDecision d) (result : Result d)
      (ext : Extension d)
      → (decided d m key decision result ext).0.link_observations ≡ ext.link_observations
  unfolding decided
  decided-links key decision result ext = elim (Bool-cases (is_delivered decision.disposition)) [
    | inl e ↦ rw (e, decided) refl
    | inr e ↦ rw (e, decided) refl
  ]

  gate_between-links :
      (ends : Option (Bytes × Bytes)) (key : MessageKey) (serial : ℕ) (result : Result d)
      (ext : Extension d)
      → (gate_between d m ends key serial result ext).0.link_observations ≡ ext.link_observations
  unfolding gate_between
  gate_between-links none key serial result ext = refl
  gate_between-links (some (source, target)) key serial result ext =
      decided-links key (decide_message d ext.controller source target serial) result ext

  -- The counters of the link are those before the attempt.
  attempt-KeepsCounts :
      (sim : Simulation d) (time : F) (transmitter receiver : Comm) (message : Message)
      (result : Result d) (ext : Extension d)
      → let link : LinkKey = (transmitter, receiver) in
        let after =
          (message_delivery_attempt d m sim time
            (some transmitter)
            (some receiver)
            message
            result
            ext).0 in
        KeepsCounts d m
          (observation_at d m link ext.link_observations)
          (observation_at d m link after.link_observations)
  unfolding message_delivery_attempt
  attempt-KeepsCounts sim time transmitter receiver message result ext =
      let (_, _, _, links) = attempted-rest d m sim time transmitter receiver message result ext in
      let link : LinkKey = (transmitter, receiver) in
      rw
        (
          gate_between-links (end_entities d m sim transmitter receiver)
              (transmitter, message.serial_number) message.serial_number result
              (attempted d m sim time transmitter receiver message result ext),
          links,
          observation_at-insert link,
        )
        (update_observed_data_rate-KeepsCounts d m result.data_rate
          (observation_at d m link ext.link_observations))

  KeepsCounts-CountsFailure :
      (counts : Bool) (o p q : LinkObservation d)
      → KeepsCounts d m o p
      → CountsFailure counts p q
      → CountsFailure counts o q
  KeepsCounts-CountsFailure counts o p q (completed, failures, _) (a, b) =
      (rw completed at a, rw failures at b)

  -- A message that the gate does not deliver adds nothing to the counters of its link when AFSIM
  -- then discards it, while a message that the gate delivers adds one completed message and one
  -- failure when AFSIM discards it. Both ends of the attempt have a platform, and the address of
  -- the message is the receiver's.
  pub discarded_once :
      (sim later : Simulation d) (time discard_time : F) (transmitter receiver : Comm)
      (message : Message) (result : Result d) (ext : Extension d) (source target : Bytes)
      → end_entities d m sim transmitter receiver ≡ some (source, target)
      → later.comm_at message.destination ≡ some receiver
      → IsSorted ext.externally_dropped
      → let link : LinkKey = (transmitter, receiver) in
        let serial = message.serial_number in
        let decision = Transport.decide d ext.controller.message_gate source target serial in
        let attempt =
          message_delivery_attempt d m sim time
            (some transmitter)
            (some receiver)
            message
            result
            ext in
        let after = message_discarded d m later discard_time (some transmitter) message attempt.0 in
        CountsFailure
          (is_delivered decision.disposition)
          (observation_at d m link ext.link_observations)
          (observation_at d m link after.link_observations)
  unfolding message_discarded
  discarded_once sim later time discard_time transmitter receiver message result ext source target
        ends address sorted =
      let link : LinkKey = (transmitter, receiver) in
      let key : MessageKey = (transmitter, message.serial_number) in
      let serial = message.serial_number in
      let decision = Transport.decide d ext.controller.message_gate source target serial in
      let attempt =
        message_delivery_attempt d m sim time (some transmitter) (some receiver) message result
          ext in
      let noted =
        record_flow d m later discard_time transmitter (some receiver) message attempt.0 in
      let rest =
        record_flow-rest d m later discard_time transmitter (some receiver) message attempt.0 in
      let answers : Answers d m key decision result attempt =
        subst (λ e. AnswersFor d m e key serial ext.controller result attempt) ends
          (message_delivery_attempt_lem d m sim time transmitter receiver message result ext
            sorted) in
      let dropped : is_some (lookup key noted.externally_dropped)
          ≡ not (is_delivered decision.disposition) =
        ap (λ x. is_some (lookup key x.externally_dropped)) rest ∙ answers.1 in
      let counted =
        discarded-CountsFailure discard_time link key message noted
          (is_delivered decision.disposition) dropped in
      let before = observation_at d m link ext.link_observations in
      let keeps =
        subst (λ x. KeepsCounts d m before (observation_at d m link x))
          (ap (λ x. x.link_observations) (sym rest))
          (attempt-KeepsCounts sim time transmitter receiver message result ext) in
      rw (address, message_discarded)
        (KeepsCounts-CountsFailure (is_delivered decision.disposition) before
          (observation_at d m link noted.link_observations)
          (observation_at d m link
            (discarded d m discard_time link key message noted).link_observations)
          keeps counted)
