-- ===== src/Extension/Receiving.antt =====
-- What a received message adds to its link, after its delivery attempt.
use afsim_ns.Base.{
  ℕ, suc, ◌≡◌, refl, true, Bool, Bool-cases, inl, inr, Bytes, Option, none, some, equals_refl,
  pair_ord, nat_ord, if◌then◌else◌, ap, ◌∙◌, sym, if-both, subst,
}
use afsim_ns.Base.Map.{lookup, insert, lookup-insert, lookup-erase, IsSorted, insert-IsSorted}
use afsim_ns.Double.{Double}
use afsim_ns.Double.Math.{Math}
use afsim_ns.Delta.{is_some}
use afsim_ns.Transport.{MessageTransportDecision}
use afsim_ns.Controller.{decide_message}
use afsim_ns.Extension.Afsim.{Comm, Message, Result, Simulation}
use afsim_ns.Extension.State.{LinkKey, MessageKey, LinkObservation, Extension}
use afsim_ns.Extension.Observe.{observation_at, update_observed_data_rate, record_flow}
use afsim_ns.Extension.Messages.{
  is_nonzero, is_delivered, decided, end_entities, attempted, gate_between,
  message_delivery_attempt, count, settle, received, message_received,
}
use afsim_ns.Extension.Gating.{record_flow-rest, attempted-rest}
use afsim_ns.Extension.Counting.{observation_at-insert}

module _ (d : Double) (m : Math d) where
  open d use {F}

  -- The counters and the delays of the link.
  pub record IsObserved (completed failures samples : ℕ) (total : F) (o : LinkObservation d)
      : Type 0 where
    pub completed_is : o.completed ≡ completed
    pub failures_is : o.failures ≡ failures
    pub samples_is : o.delay_samples ≡ samples
    pub total_is : o.delay_total_ms ≡ total

  rate-IsObserved :
      (completed failures samples : ℕ) (total rate : F) (o : LinkObservation d)
      → IsObserved completed failures samples total o
      → IsObserved completed failures samples total (update_observed_data_rate d m rate o)
  unfolding update_observed_data_rate
  rate-IsObserved completed failures samples total rate o h =
      if-both (IsObserved completed failures samples total) _ _ o
        (record {
          completed_is = h.completed_is;
          failures_is = h.failures_is;
          samples_is = h.samples_is;
          total_is = h.total_is;
        })
        h

  -- The message is counted, its delay is not noted, and its marks are gone.
  abbrev pub Receives : Bool → LinkKey → MessageKey → LinkObservation d → Extension d → Type 0
  Receives failed link key before after =
      IsObserved (suc before.completed) (if failed then suc before.failures else before.failures)
        before.delay_samples before.delay_total_ms (observation_at d m link after.link_observations)
      × (lookup key after.externally_gated ≡ none)
      × (lookup key after.transmit_times ≡ none)

  received-Receives :
      (time : F) (link : LinkKey) (key : MessageKey) (message : Message) (result : Result d)
      (ext : Extension d)
      → is_some (lookup key ext.externally_gated) ≡ true
      → IsSorted ext.externally_gated
      → IsSorted ext.transmit_times
      → Receives
          (is_nonzero result.failed_status)
          link
          key
          (observation_at d m link ext.link_observations)
          (received d m time link key message result ext)
  unfolding received settle count
  received-Receives time link key message result ext gated s t =
      let failed = is_nonzero result.failed_status in
      let before = observation_at d m link ext.link_observations in
      let counted = count d m failed before in
      rw
        (
          gated,
          received,
          settle,
          observation_at-insert d m link,
          lookup-erase key key ext.externally_gated s,
          lookup-erase key key ext.transmit_times t,
          equals_refl key,
        )
        (
          rate-IsObserved (suc before.completed)
              (if failed then suc before.failures else before.failures) before.delay_samples
              before.delay_total_ms result.data_rate counted
              (record {
                completed_is = refl;
                failures_is = refl;
                samples_is = refl;
                total_is = refl;
              }),
          refl,
          refl,
        )

  decided-rest :
      (key : MessageKey) (decision : MessageTransportDecision d) (result : Result d)
      (ext : Extension d)
      → (decided d m key decision result ext).0 ≡ record ext {
        externally_dropped = (decided d m key decision result ext).0.externally_dropped;
      }
  unfolding decided
  decided-rest key decision result ext = elim (Bool-cases (is_delivered decision.disposition)) [
    | inl e ↦ rw (e, decided) refl
    | inr e ↦ rw (e, decided) refl
  ]

  gate_between-rest :
      (ends : Option (Bytes × Bytes)) (key : MessageKey) (serial : ℕ) (result : Result d)
      (ext : Extension d)
      → (gate_between d m ends key serial result ext).0 ≡ record ext {
        externally_dropped = (gate_between d m ends key serial result ext).0.externally_dropped;
      }
  unfolding gate_between
  gate_between-rest none key serial result ext = refl
  gate_between-rest (some (source, target)) key serial result ext =
      decided-rest key (decide_message d ext.controller source target serial) result ext

  -- What the attempt leaves for the message to be received.
  record IsAttempted (link : LinkKey) (key : MessageKey) (ext after : Extension d) : Type 0 where
    pub gated : after.externally_gated ≡ insert key tt ext.externally_gated
    pub times : after.transmit_times ≡ ext.transmit_times
    pub observed :
        IsObserved
          (observation_at d m link ext.link_observations).completed
          (observation_at d m link ext.link_observations).failures
          (observation_at d m link ext.link_observations).delay_samples
          (observation_at d m link ext.link_observations).delay_total_ms
          (observation_at d m link after.link_observations)

  attempt-IsAttempted :
      (sim : Simulation d) (time : F) (transmitter receiver : Comm) (message : Message)
      (result : Result d) (ext : Extension d)
      → IsAttempted
          (transmitter, receiver)
          (transmitter, message.serial_number)
          ext
          (message_delivery_attempt d m sim time
            (some transmitter)
            (some receiver)
            message
            result
            ext).0
  unfolding message_delivery_attempt attempted
  attempt-IsAttempted sim time transmitter receiver message result ext =
      let link : LinkKey = (transmitter, receiver) in
      let key : MessageKey = (transmitter, message.serial_number) in
      let before = observation_at d m link ext.link_observations in
      let (_, _, gated, links) =
        attempted-rest d m sim time transmitter receiver message result ext in
      let noted =
        record_flow-rest d m sim time transmitter (some receiver) message
          (record ext { externally_gated = insert key tt ext.externally_gated }) in
      let rest =
        gate_between-rest (end_entities d m sim transmitter receiver) key message.serial_number
          result (attempted d m sim time transmitter receiver message result ext) in
      record {
        gated = ap (λ x. x.externally_gated) rest ∙ gated;
        times = ap (λ x. x.transmit_times) rest ∙ ap (λ x. x.transmit_times) noted;
        observed =
            subst
              (λ links.
                IsObserved before.completed before.failures before.delay_samples
                  before.delay_total_ms (observation_at d m link links))
              (sym (ap (λ x. x.link_observations) rest ∙ links))
              (rw (observation_at-insert d m link) (
                rate-IsObserved before.completed before.failures before.delay_samples
                  before.delay_total_ms result.data_rate before
                  (record {
                    completed_is = refl;
                    failures_is = refl;
                    samples_is = refl;
                    total_is = refl;
                  })));
      }

  -- A message that is received after its delivery attempt, whatever the gate decided, adds one
  -- completed message to its link, and one failure if AFSIM reports a status of failure. Its delay
  -- in AFSIM is not noted, since the gate has given the delay: the samples and the total stay as
  -- they were. The mark of the attempt and the time of the transmission are gone.
  pub received_once :
      (sim later : Simulation d) (time receive_time : F) (transmitter receiver : Comm)
      (message : Message) (result received_result : Result d) (ext : Extension d)
      → IsSorted ext.externally_gated
      → IsSorted ext.transmit_times
      → let attempt =
          message_delivery_attempt d m sim time
            (some transmitter)
            (some receiver)
            message
            result
            ext in
        Receives
          (is_nonzero received_result.failed_status)
          (transmitter, receiver)
          (transmitter, message.serial_number)
          (observation_at d m (transmitter, receiver) ext.link_observations)
          (message_received d m later receive_time
            (some transmitter)
            (some receiver)
            message
            received_result
            attempt.0)
  unfolding message_received
  received_once sim later time receive_time transmitter receiver message result received_result ext
        s t =
      let link : LinkKey = (transmitter, receiver) in
      let key : MessageKey = (transmitter, message.serial_number) in
      let after =
        (message_delivery_attempt d m sim time (some transmitter) (some receiver) message result
          ext).0 in
      let h = attempt-IsAttempted sim time transmitter receiver message result ext in
      let noted = record_flow d m later receive_time transmitter (some receiver) message after in
      let rest =
        record_flow-rest d m later receive_time transmitter (some receiver) message after in
      let gated = ap (λ x. x.externally_gated) rest ∙ h.gated in
      let times = ap (λ x. x.transmit_times) rest ∙ h.times in
      let marked : is_some (lookup key noted.externally_gated) ≡ true =
        rw (gated, lookup-insert key key tt ext.externally_gated, equals_refl key) refl in
      let failed = is_nonzero received_result.failed_status in
      let (observed, unmarked, untimed) =
        received-Receives receive_time link key message received_result noted marked
          (subst IsSorted (sym gated) (insert-IsSorted key tt ext.externally_gated s))
          (subst IsSorted (sym times) t) in
      let links = ap (λ x. observation_at d m link x.link_observations) rest in
      (
        record {
          completed_is =
              observed.completed_is
              ∙ ap suc (ap (λ o. o.completed) links ∙ h.observed.completed_is);
          failures_is =
              observed.failures_is
              ∙ ap (λ n. if failed then suc n else n)
                  (ap (λ o. o.failures) links ∙ h.observed.failures_is);
          samples_is =
              observed.samples_is ∙ ap (λ o. o.delay_samples) links ∙ h.observed.samples_is;
          total_is = observed.total_is ∙ ap (λ o. o.delay_total_ms) links ∙ h.observed.total_is;
        },
        unmarked,
        untimed,
      )
