-- ===== src/Controller/Throws.antt =====
-- When `SubmitCurrentState` throws, and what it leaves then.
use afsim_ns.Base.{
  ℕ, ◌≡◌, ◌↔◌, refl, ap, sym, ◌∙◌, subst, Bool, true, false, List, Bytes, Result, ok, err, arith,
  Bool-cases, Result-cases, inl, inr,
}
use afsim_ns.Double.{Double}
use afsim_ns.Protocol.{EntityState, FlowConfig, DeltaState}
use afsim_ns.Delta.{
  StateDeltaTracker, StateError, reset, update, index, entity_id_of, flow_id_of, is_empty_delta,
  difference,
}
use afsim_ns.Delta.Index.{HasDistinctIds, index_lem}
use afsim_ns.Delta.Update.{update-eq-ok}
use afsim_ns.Controller.Submit.{
  AfsimBridgeController, StateSubmitResult, initial_queued, delta_queued, resync_queued, no_change,
  initial_reset, submit_initial, delta_reset, submit_delta, initial_result, delta_result,
  after_update, submit_current_state,
}
use afsim_ns.Controller.Current.{submit-Holds, submit_when}

module _ (d : Double) where
  -- The controllers have the same client, gates and pending effects, and both or neither have
  -- sent a first state.
  pub record KeepsClient (c after : AfsimBridgeController d) : Type 0 where
    pub client : after.client ≡ c.client
    pub message_gate : after.message_gate ≡ c.message_gate
    pub gate : after.gate ≡ c.gate
    pub pending_effects : after.pending_effects ≡ c.pending_effects
    pub initialized : after.delta_tracker.initialized ≡ c.delta_tracker.initialized

  reset_throws :
      (entities : List (EntityState d)) (flows : List FlowConfig) (t u : StateDeltaTracker d)
      (e : StateError)
      → reset d entities flows t ≡ (u, err e)
      → u.initialized ≡ t.initialized
  unfolding reset
  reset_throws entities flows t u e h = elim (Result-cases (index (entity_id_of d) entities)) [
    | inr (x, p) ↦ ground (arith, p, h)
    | inl (m, p) ↦ elim (Result-cases (index flow_id_of flows)) [
      | inr (x, q) ↦ ground (arith, p, q, h)
      | inl (n, q) ↦ ground (arith, p, q, h)
    ]
  ]

  reset_returns :
      (entities : List (EntityState d)) (flows : List FlowConfig) (t : StateDeltaTracker d)
      → HasDistinctIds (entity_id_of d) entities
      → HasDistinctIds flow_id_of flows
      → (reset d entities flows t).1 ≡ ok tt
  unfolding reset
  reset_returns entities flows t h k =
      let (m, p) = (index_lem (entity_id_of d) entities).1 h in
      let (n, q) = (index_lem flow_id_of flows).1 k in rw (p, q) refl

  update_returns :
      (entities : List (EntityState d)) (flows : List FlowConfig) (t : StateDeltaTracker d)
      → HasDistinctIds (entity_id_of d) entities
      → HasDistinctIds flow_id_of flows
      → (delta : DeltaState d) × ((update d entities flows t).1 ≡ ok delta)
  unfolding update
  update_returns entities flows t h k =
      let (m, p) = (index_lem (entity_id_of d) entities).1 h in
      let (n, q) = (index_lem flow_id_of flows).1 k in (difference d t m n, rw (p, q) refl)

  -- The call that sends the state, behind the test of the flag.
  Returns : AfsimBridgeController d × Result StateError StateSubmitResult → Type 0
  Returns r = (result : StateSubmitResult) × (r.1 ≡ ok result)

  -- What was thrown, without what is returned otherwise.
  abbrev outcome : Result StateError StateSubmitResult → Result StateError (Unit {0})
  outcome (err e) = err e
  outcome (ok result) = ok tt

  keeps :
      (c after : AfsimBridgeController d) (tracker : StateDeltaTracker d)
      → after ≡ record c { delta_tracker = tracker }
      → tracker.initialized ≡ c.delta_tracker.initialized
      → KeepsClient c after
  keeps c after tracker e i = record {
    client = ap (λ a. a.client) e;
    message_gate = ap (λ a. a.message_gate) e;
    gate = ap (λ a. a.gate) e;
    pending_effects = ap (λ a. a.pending_effects) e;
    initialized = ap (λ a. a.delta_tracker.initialized) e ∙ i;
  }

  update_throws :
      (entities : List (EntityState d)) (flows : List FlowConfig) (t u : StateDeltaTracker d)
      (e : StateError)
      → update d entities flows t ≡ (u, err e)
      → u.initialized ≡ t.initialized
  unfolding update
  update_throws entities flows t u e h = elim (Result-cases (index (entity_id_of d) entities)) [
    | inr (x, p) ↦ ground (arith, p, h)
    | inl (m, p) ↦ elim (Result-cases (index flow_id_of flows)) [
      | inr (x, q) ↦ ground (arith, p, q, h)
      | inl (n, q) ↦ ground (arith, p, q, h)
    ]
  ]

  module _ (request_id : Bytes) (timestamp_ms : ℕ) (entities : List (EntityState d))
      (flows : List FlowConfig) where
    initial-Returns :
        (c : AfsimBridgeController d) (r : StateDeltaTracker d × Result StateError (Unit {0}))
        → r.1 ≡ ok tt
        → Returns (initial_result d (initial_reset d request_id timestamp_ms entities flows c r))
    unfolding initial_result initial_reset Returns
    initial-Returns c (tracker, err x) h = cc
    initial-Returns c (tracker, ok done) h = (initial_queued, refl)

    delta_result-Returns :
        (c : AfsimBridgeController d) (queued : Bool) → Returns (delta_result d (c, ok queued))
    unfolding delta_result Returns
    delta_result-Returns c true = (delta_queued, refl)
    delta_result-Returns c false = (resync_queued, refl)

    delta-Returns :
        (delta : DeltaState d) (c : AfsimBridgeController d)
        (r : StateDeltaTracker d × Result StateError (Unit {0}))
        → r.1 ≡ ok tt
        → Returns (delta_result d (delta_reset d request_id timestamp_ms delta entities flows c r))
    unfolding delta_reset
    delta-Returns delta c (tracker, err x) h = cc
    delta-Returns delta c (tracker, ok done) h = delta_result-Returns _ _

    after_update-Returns :
        (c : AfsimBridgeController d) (r : StateDeltaTracker d × Result StateError (DeltaState d))
        (delta : DeltaState d)
        → HasDistinctIds (entity_id_of d) entities
        → HasDistinctIds flow_id_of flows
        → r.1 ≡ ok delta
        → Returns (after_update d request_id timestamp_ms entities flows c r)
    unfolding after_update submit_delta Returns
    after_update-Returns c (tracker, err x) delta h k e = cc
    after_update-Returns c (tracker, ok found) delta h k e =
        elim (Bool-cases (is_empty_delta d found)) [
          | inl b ↦ rw b (no_change, refl)
          | inr b ↦ rw b (
              delta-Returns found (record c { delta_tracker = tracker }) _
                (reset_returns entities flows tracker h k))
        ]

    submit-Returns :
        (c : AfsimBridgeController d)
        → HasDistinctIds (entity_id_of d) entities
        → HasDistinctIds flow_id_of flows
        → Returns (submit_current_state d request_id timestamp_ms entities flows c)
    unfolding submit_initial
    submit-Returns c h k = elim (Bool-cases c.delta_tracker.initialized) [
      | inl b ↦
          let (delta, e) = update_returns entities flows c.delta_tracker h k in
          subst Returns (sym (submit_when d request_id timestamp_ms entities flows c true b))
            (after_update-Returns c (update d entities flows c.delta_tracker) delta h k e)
      | inr b ↦
          subst Returns (sym (submit_when d request_id timestamp_ms entities flows c false b))
            (initial-Returns c _ (reset_returns entities flows c.delta_tracker h k))
    ]

    initial_throws :
        (c after : AfsimBridgeController d) (r : StateDeltaTracker d × Result StateError (Unit {0}))
        (e : StateError)
        → initial_result d (initial_reset d request_id timestamp_ms entities flows c r)
          ≡ (after, err e)
        → (r ≡ (after.delta_tracker, err e)) × (after ≡ record c { delta_tracker = r.0 })
    unfolding initial_result initial_reset
    initial_throws c after (tracker, err x) e h =
        (ap (λ s. (s.0.delta_tracker, outcome s.1)) h, sym (ap (λ s. s.0) h))
    initial_throws c after (tracker, ok done) e h = cc

    delta_throws :
        (delta : DeltaState d) (c after : AfsimBridgeController d)
        (r : StateDeltaTracker d × Result StateError (Unit {0})) (e : StateError)
        → delta_result d (delta_reset d request_id timestamp_ms delta entities flows c r)
          ≡ (after, err e)
        → (r ≡ (after.delta_tracker, err e)) × (after ≡ record c { delta_tracker = r.0 })
    unfolding delta_result delta_reset Returns
    delta_throws delta c after (tracker, err x) e h =
        (ap (λ s. (s.0.delta_tracker, outcome s.1)) h, sym (ap (λ s. s.0) h))
    delta_throws delta c after (tracker, ok done) e h =
        let (found, p) = delta-Returns delta c (tracker, ok done) refl in
        let q : ◌≡◌ {A = Result StateError StateSubmitResult} (ok found) (err e) =
          sym p ∙ ap (λ s. s.1) h in
        cc

    after_update_throws :
        (c after : AfsimBridgeController d) (e : StateError)
        (r : StateDeltaTracker d × Result StateError (DeltaState d))
        → c.delta_tracker.initialized ≡ true
        → update d entities flows c.delta_tracker ≡ r
        → after_update d request_id timestamp_ms entities flows c r ≡ (after, err e)
        → KeepsClient c after
    unfolding after_update submit_delta
    after_update_throws c after e (tracker, err x) i u h =
        keeps c after tracker (sym (ap (λ s. s.0) h))
          (update_throws entities flows c.delta_tracker tracker x u)
    after_update_throws c after e (tracker, ok delta) i u h =
        elim (Bool-cases (is_empty_delta d delta)) [
          | inl b ↦ absurd (returned (ap (λ s. s.1) (rw b at h)))
          | inr b ↦
              let (p, q) =
                delta_throws delta (record c { delta_tracker = tracker }) after _ e (rw b at h) in
              let (_, _, _, set) = update-eq-ok d entities flows c.delta_tracker tracker delta u in
              keeps c after after.delta_tracker
                (q ∙ ap (λ t. record c { delta_tracker = t }) (ap (λ s. s.0) p))
                (reset_throws entities flows tracker after.delta_tracker e p ∙ set ∙ sym i)
        ]
      where
        returned : ◌≡◌ {A = Result StateError StateSubmitResult} (ok no_change) (err e) → ⊥
        returned k = cc

    -- A call that throws has queued nothing: the client, the gates and the pending effects are as
    -- they were, and the tracker counts as initialised exactly if it did before.
    pub submit_throws :
        (c after : AfsimBridgeController d) (e : StateError)
        → submit_current_state d request_id timestamp_ms entities flows c ≡ (after, err e)
        → KeepsClient c after
    unfolding submit_initial
    submit_throws c after e h = elim (Bool-cases c.delta_tracker.initialized) [
      | inl b ↦
          after_update_throws c after e _ b refl
            (sym (submit_when d request_id timestamp_ms entities flows c true b) ∙ h)
      | inr b ↦
          let (p, q) =
            initial_throws c after _ e
              (sym (submit_when d request_id timestamp_ms entities flows c false b) ∙ h) in
          keeps c after after.delta_tracker
            (q ∙ ap (λ t. record c { delta_tracker = t }) (ap (λ s. s.0) p))
            (reset_throws entities flows c.delta_tracker after.delta_tracker e p)
    ]

    -- The call returns exactly for states in which no identifier is empty and no two entities and
    -- no two flows have the same one.
    pub submit_current_state_lem :
        (c : AfsimBridgeController d)
        → ((result : StateSubmitResult) × ((submit_current_state d request_id timestamp_ms entities
                flows c).1
              ≡ ok result))
          ↔ (HasDistinctIds (entity_id_of d) entities × HasDistinctIds flow_id_of flows)
    unfolding Returns
    submit_current_state_lem c = (
      λ (result, e).
          let held =
            submit-Holds d request_id timestamp_ms entities flows c
              (submit_current_state d request_id timestamp_ms entities flows c).0 result
              (ap (λ r. ((submit_current_state d request_id timestamp_ms entities flows c).0, r))
                e) in
          (
            (index_lem (entity_id_of d) entities).0 (_, held.entities_held),
            (index_lem flow_id_of flows).0 (_, held.flows_held),
          ),
      λ (h, k). submit-Returns c h k,
    )
