-- ===== src/Controller/Current.antt =====
-- What `SubmitCurrentState` queues.
use afsim_ns.Base.{
  ℕ, ◌≡◌, refl, ap, sym, ◌∙◌, subst, Bool, true, false, not, List, [], ◌∷◌, Bytes, Option, none,
  some, Result, ok, err, arith, All, cmp_bytes, cmp_bytes_eq, Ordering, bytes_ord, if◌then◌else◌,
  Bool-cases, inl, inr, Result-cases, ok-injective,
}
use afsim_ns.Base.Map.{Map, lookup, insert, All-insert, All-lookup}
use afsim_ns.Double.{Double}
use afsim_ns.Protocol.{EntityState, FlowConfig, DeltaState}
use afsim_ns.Delta.{
  StateDeltaTracker, StateError, reset, update, index, index_from, entity_id_of, flow_id_of,
  is_empty_delta, same_entity, same_flow, difference,
}
use afsim_ns.Delta.Update.{update_empty, update-eq-ok}
use afsim_ns.Delta.Unchanged.{SameEntry}
use afsim_ns.Controller.Submit.{
  AfsimBridgeController, StateSubmitResult, no_change, initial_reset, submit_initial, delta_reset,
  submit_delta, initial_result, delta_result, after_update, submit_current_state,
}

cmp_refl : (a : Bytes) → cmp_bytes a a ≡ Ordering.eq
cmp_refl a = (cmp_bytes_eq a a).1 refl

same_flow_refl : (flow : FlowConfig) → same_flow flow flow ≡ true
unfolding same_flow
same_flow_refl flow =
    ground
      (arith, cmp_refl flow.flow_id, cmp_refl flow.source_entity_id, cmp_refl flow.target_entity_id)

module _ (d : Double) where
  -- Both maps are those of the given lists, and the baseline counts as set.
  pub record Holds (t : StateDeltaTracker d) (entities : List (EntityState d))
      (flows : List FlowConfig) : Type 0 where
    pub entities_held : index (entity_id_of d) entities ≡ ok t.entities
    pub flows_held : index flow_id_of flows ≡ ok t.flows
    pub initialized : t.initialized ≡ true

  reset-Holds :
      (entities : List (EntityState d)) (flows : List FlowConfig) (t u : StateDeltaTracker d)
      → reset d entities flows t ≡ (u, ok tt)
      → Holds u entities flows
  unfolding reset
  reset-Holds entities flows t u e = elim (Result-cases (index (entity_id_of d) entities)) [
    | inr (x, p) ↦ ground (arith, p, e)
    | inl (m, p) ↦ elim (Result-cases (index flow_id_of flows)) [
      | inr (x, q) ↦ ground (arith, p, q, e)
      | inl (n, q) ↦
          subst (λ v. Holds v entities flows) (ap (λ r. r.0) (rw (p, q) at e))
            (record { entities_held = p; flows_held = q; initialized = refl })
    ]
  ]

  update-Holds :
      (entities : List (EntityState d)) (flows : List FlowConfig) (t u : StateDeltaTracker d)
      (delta : DeltaState d)
      → update d entities flows t ≡ (u, ok delta)
      → Holds u entities flows
  update-Holds entities flows t u delta e =
      let (p, q, _, i) = update-eq-ok d entities flows t u delta e in
      record { entities_held = p; flows_held = q; initialized = i }

  initial_reset-ok :
      (request_id : Bytes) (timestamp_ms : ℕ) (entities : List (EntityState d))
      (flows : List FlowConfig) (c after : AfsimBridgeController d)
      (r : StateDeltaTracker d × Result StateError (Unit {0})) (result : StateSubmitResult)
      → initial_result d (initial_reset d request_id timestamp_ms entities flows c r)
        ≡ (after, ok result)
      → r ≡ (after.delta_tracker, ok tt)
  unfolding initial_reset initial_result
  initial_reset-ok request_id timestamp_ms entities flows c after (tracker, err x) result e = cc
  initial_reset-ok request_id timestamp_ms entities flows c after (tracker, ok done) result e =
      ap (λ s. (s.0.delta_tracker, ok tt)) e

  delta_result-ok :
      (r : AfsimBridgeController d × Result StateError Bool) (after : AfsimBridgeController d)
      (result : StateSubmitResult)
      → delta_result d r ≡ (after, ok result)
      → (queued : Bool) × (r ≡ (after, ok queued))
  unfolding delta_result
  delta_result-ok (c, err e) after result h = cc
  delta_result-ok (c, ok true) after result h = (true, ap (λ s. (s.0, ok true)) h)
  delta_result-ok (c, ok false) after result h = (false, ap (λ s. (s.0, ok false)) h)

  delta_reset-ok :
      (request_id : Bytes) (timestamp_ms : ℕ) (delta : DeltaState d)
      (entities : List (EntityState d)) (flows : List FlowConfig)
      (c after : AfsimBridgeController d) (queued : Bool)
      (r : StateDeltaTracker d × Result StateError (Unit {0}))
      → delta_reset d request_id timestamp_ms delta entities flows c r ≡ (after, ok queued)
      → r ≡ (after.delta_tracker, ok tt)
  unfolding delta_reset
  delta_reset-ok request_id timestamp_ms delta entities flows c after queued (tracker, err x) e = cc
  delta_reset-ok request_id timestamp_ms delta entities flows c after queued (tracker, ok done) e =
      ap (λ s. (s.0.delta_tracker, ok tt)) e

  after_update-Holds :
      (request_id : Bytes) (timestamp_ms : ℕ) (entities : List (EntityState d))
      (flows : List FlowConfig) (c after : AfsimBridgeController d) (result : StateSubmitResult)
      (r : StateDeltaTracker d × Result StateError (DeltaState d))
      → update d entities flows c.delta_tracker ≡ r
      → after_update d request_id timestamp_ms entities flows c r ≡ (after, ok result)
      → Holds after.delta_tracker entities flows
  unfolding after_update submit_delta
  after_update-Holds request_id timestamp_ms entities flows c after result (tracker, err x) u e = cc
  after_update-Holds request_id timestamp_ms entities flows c after result (tracker, ok delta) u e =
      elim (Bool-cases (is_empty_delta d delta)) [
        | inl b ↦
            subst (λ t. Holds t entities flows) (ap (λ s. s.0.delta_tracker) (rw b at e))
              (update-Holds entities flows c.delta_tracker tracker delta u)
        | inr b ↦
            let (queued, f) = delta_result-ok _ after result (rw b at e) in
            reset-Holds entities flows tracker after.delta_tracker (
              delta_reset-ok request_id timestamp_ms delta entities flows
                (record c { delta_tracker = tracker }) after queued _ f)
      ]

  pub submit_when :
      (request_id : Bytes) (timestamp_ms : ℕ) (entities : List (EntityState d))
      (flows : List FlowConfig) (c : AfsimBridgeController d) (initialized : Bool)
      → c.delta_tracker.initialized ≡ initialized
      → submit_current_state d request_id timestamp_ms entities flows c ≡ (
          if initialized
          then after_update d request_id timestamp_ms entities flows c
              (update d entities flows c.delta_tracker)
          else initial_result d (submit_initial d request_id timestamp_ms entities flows c))
  unfolding submit_current_state
  submit_when request_id timestamp_ms entities flows c initialized i =
      ap
        (λ b.
          if not b
          then initial_result d (submit_initial d request_id timestamp_ms entities flows c)
          else after_update d request_id timestamp_ms entities flows c
              (update d entities flows c.delta_tracker))
        i
      ∙ by_flag initialized _ _
    where
      by_flag :
          (b : Bool) (x y : AfsimBridgeController d × Result StateError StateSubmitResult)
          → (if not b then x else y) ≡ (if b then y else x)
      by_flag true x y = refl
      by_flag false x y = refl

  pub submit-Holds :
      (request_id : Bytes) (timestamp_ms : ℕ) (entities : List (EntityState d))
      (flows : List FlowConfig) (c after : AfsimBridgeController d) (result : StateSubmitResult)
      → submit_current_state d request_id timestamp_ms entities flows c ≡ (after, ok result)
      → Holds after.delta_tracker entities flows
  unfolding submit_initial
  submit-Holds request_id timestamp_ms entities flows c after result e =
      elim (Bool-cases c.delta_tracker.initialized) [
        | inr b ↦ reset-Holds entities flows c.delta_tracker after.delta_tracker (
            initial_reset-ok request_id timestamp_ms entities flows c after _ result
              (sym (submit_when request_id timestamp_ms entities flows c false b) ∙ e))
        | inl b ↦
            after_update-Holds request_id timestamp_ms entities flows c after result _ refl
              (sym (submit_when request_id timestamp_ms entities flows c true b) ∙ e)
      ]

  index_from-All :
      {V : Type 0} (P : V → Type 0) (id : V → Bytes) (values : List V) (m indexed : Map Bytes V)
      → All P values
      → All (λ e. P e.1) m
      → index_from id m values ≡ ok indexed
      → All (λ e. P e.1) indexed
  unfolding index_from
  index_from-All P id [] m indexed h k e = subst (All (λ e. P e.1)) (ok-injective e) k
  index_from-All P id (v ∷ vs) m indexed h k e =
      index_from-All P id vs (insert (id v) v m) indexed h.1 (All-insert P (id v) v m h.0 k)
        (ground (arith, e))

  entry_refl :
      {V : Type 0} (same : V → V → Bool) (entry : Option V)
      → ((v : V) → entry ≡ some v → same v v ≡ true)
      → SameEntry same entry entry
  entry_refl same none h = tt
  entry_refl same (some v) h = h v refl

  All-same_flow : (flows : List FlowConfig) → All (λ f. same_flow f f ≡ true) flows
  All-same_flow [] = tt
  All-same_flow (flow ∷ flows) = (same_flow_refl flow, All-same_flow flows)

  unchanged-empty :
      (entities : List (EntityState d)) (flows : List FlowConfig) (t : StateDeltaTracker d)
      → All (λ e. same_entity d e e ≡ true) entities
      → Holds t entities flows
      → (delta : DeltaState d) × (update d entities flows t ≡ (t, ok delta))
        × (is_empty_delta d delta ≡ true)
  unfolding update index
  unchanged-empty entities flows t h k =
      let e : update d entities flows t ≡ (t, ok (difference d t t.entities t.flows)) =
        rw (k.entities_held, k.flows_held, sym k.initialized) refl in
      (
        difference d t t.entities t.flows,
        e,
        (update_empty d entities flows t t _ e).1 (
          λ key. entry_refl (same_entity d) (lookup key t.entities) (λ v.
              All-lookup (λ e. same_entity d e e ≡ true) key t.entities v
                (index_from-All (λ e. same_entity d e e ≡ true) (entity_id_of d) entities []
                  t.entities h tt k.entities_held)),
          λ key. entry_refl same_flow (lookup key t.flows) (λ v _. same_flow_refl v),
        ),
      )

  again :
      (request_id : Bytes) (timestamp_ms : ℕ) (entities : List (EntityState d))
      (flows : List FlowConfig) (c : AfsimBridgeController d) (delta : DeltaState d)
      → c.delta_tracker.initialized ≡ true
      → update d entities flows c.delta_tracker ≡ (c.delta_tracker, ok delta)
      → is_empty_delta d delta ≡ true
      → submit_current_state d request_id timestamp_ms entities flows c ≡ (c, ok no_change)
  unfolding after_update
  again request_id timestamp_ms entities flows c delta i u b =
      submit_when request_id timestamp_ms entities flows c true i
      ∙ ap (after_update d request_id timestamp_ms entities flows c) u
      ∙ rw b refl

  -- Let a submission of the current state return. The baseline then holds exactly what was
  -- submitted. If the same state is submitted again, and every entity compares equal to itself
  -- (none of its numbers is a NaN), then nothing has changed: the call says so and queues nothing.
  pub submit_twice :
      (request_id next_id : Bytes) (timestamp_ms next_ms : ℕ) (entities : List (EntityState d))
      (flows : List FlowConfig) (c after : AfsimBridgeController d) (result : StateSubmitResult)
      → All (λ e. same_entity d e e ≡ true) entities
      → submit_current_state d request_id timestamp_ms entities flows c ≡ (after, ok result)
      → Holds after.delta_tracker entities flows
        × (submit_current_state d next_id next_ms entities flows after ≡ (after, ok no_change))
  submit_twice request_id next_id timestamp_ms next_ms entities flows c after result h e =
      let held = submit-Holds request_id timestamp_ms entities flows c after result e in
      let (delta, u, b) = unchanged-empty entities flows after.delta_tracker h held in
      (held, again next_id next_ms entities flows after delta held.initialized u b)
