-- ===== src/Controller/Pending.antt =====
-- The effects between the network thread and the simulation thread.
use afsim_ns.Base.{
  ◌≤◌, ◌≡◌, refl, ap, sym, ◌∙◌, Bool, List, [], ◌∷◌, ◌++◌, map, Bytes, Option, none, some, ok, err,
  arith, Option-cases, equals, bytes_ord, pair_ord, if◌then◌else◌, inl, inr, length, append_assoc,
  append-nil,
}
use afsim_ns.Base.Map.{Map, lookup, insert, lookup-insert}
use afsim_ns.Double.{Double}
use afsim_ns.Json.{Json}
use afsim_ns.Effects
use afsim_ns.Effects.{EffectDecision, NetworkEffectGate}
use afsim_ns.Transport
use afsim_ns.Transport.{MessageTransportGate}
use afsim_ns.Controller.Submit.{AfsimBridgeController, EffectKey}
use afsim_ns.Controller.Receive.{
  effect_key, keep_newest, effects_after, on_json_line, EffectSink, Thrown, report_effect_error,
  attempt, apply_each, apply_pending_effects,
}

-- The last decision with the key, or what was there before.
abbrev pub newest_for :
    EffectKey → List EffectDecision → Option EffectDecision → Option EffectDecision
newest_for key [] before = before
newest_for key (decision ∷ decisions) before =
    newest_for key decisions (if equals (effect_key decision) key then some decision else before)

keep_newest-lookup :
    (key : EffectKey) (decisions : List EffectDecision) (pending : Map EffectKey EffectDecision)
    → lookup key (keep_newest decisions pending) ≡ newest_for key decisions (lookup key pending)
unfolding keep_newest
keep_newest-lookup key [] pending = refl
keep_newest-lookup key (decision ∷ decisions) pending =
    keep_newest-lookup key decisions (insert (effect_key decision) decision pending)
    ∙ ap (newest_for key decisions) (lookup-insert (effect_key decision) key decision pending)

module _ (d : Double) where
  -- What a line does to the controller, by what the two gates do with it.
  abbrev pub Received :
      AfsimBridgeController d
      → AfsimBridgeController d
      → MessageTransportGate d × Json Bool
      → NetworkEffectGate × Json (List EffectDecision)
      → Json (Unit {0})
      → Type 0
  Received c after (message_gate, err e) (gate, decisions) result =
      (result ≡ err e)
      × (after.message_gate ≡ message_gate)
      × (after.gate ≡ c.gate)
      × (after.pending_effects ≡ c.pending_effects)
  Received c after (message_gate, ok fresh) (gate, err e) result =
      (result ≡ err e)
      × (after.message_gate ≡ message_gate)
      × (after.gate ≡ gate)
      × (after.pending_effects ≡ c.pending_effects)
  Received c after (message_gate, ok fresh) (gate, ok decisions) result =
      (result ≡ ok tt)
      × (after.message_gate ≡ message_gate)
      × (after.gate ≡ gate)
      × ((key : EffectKey)
          → lookup key after.pending_effects
            ≡ newest_for key decisions (lookup key c.pending_effects))

  effects_after-Received :
      (line : Bytes) (c : AfsimBridgeController d)
      (transported : MessageTransportGate d × Json Bool)
      (effected : NetworkEffectGate × Json (List EffectDecision))
      → Effects.update_from_metrics_json line c.gate ≡ effected
      → Received c
          (effects_after d line c transported).0
          transported
          effected
          (effects_after d line c transported).1
  unfolding effects_after
  effects_after-Received line c (message_gate, err e) effected h = (refl, refl, refl, refl)
  effects_after-Received line c (message_gate, ok fresh) (gate, err e) h =
      rw (ap (λ r. r.1) h, effects_after) (refl, refl, ap (λ r. r.0) h, refl)
  effects_after-Received line c (message_gate, ok fresh) (gate, ok decisions) h =
      rw (ap (λ r. r.1) h, effects_after)
        (refl, refl, ap (λ r. r.0) h, λ key. keep_newest-lookup key decisions c.pending_effects)

  -- A line goes to the message gate first, and to the effect gate if that did not throw. What a
  -- gate throws is thrown on and leaves the pending effects as they were. Otherwise, under each key
  -- of entity, subsystem type, subsystem and peer, the last decision of the line is pending, or
  -- what was pending before, if the line has none.
  pub on_json_line_lem :
      (line : Bytes) (c : AfsimBridgeController d)
      → Received c
          (on_json_line d line c).0
          (Transport.update_from_metrics_json d line c.message_gate)
          (Effects.update_from_metrics_json line c.gate)
          (on_json_line d line c).1
  unfolding on_json_line
  on_json_line_lem line c =
      effects_after-Received line c (Transport.update_from_metrics_json d line c.message_gate)
        (Effects.update_from_metrics_json line c.gate) refl

module _ {S : Type 0} (sink : EffectSink S) where
  -- The sink that also notes each decision that it is given.
  abbrev pub noted_report :
      Option (EffectDecision → Bytes → S → S)
      → Option (EffectDecision → Bytes → S × List EffectDecision → S × List EffectDecision)
  noted_report none = none
  noted_report (some handler) =
      some (λ decision message (s, log). (handler decision message s, log))

  abbrev pub noted : EffectSink (S × List EffectDecision)
  noted = record {
    apply = λ decision (s, log).
        let (t, thrown) = sink.apply decision s in ((t, log ++ decision ∷ []), thrown);
    report = noted_report sink.report;
  }

module _ {S : Type 0} (sink : EffectSink S) where
  attempt-noted :
      (decision : EffectDecision) (log : List EffectDecision) (r : S × Option Thrown)
      → attempt (noted sink) decision ((r.0, log), r.1)
        ≡ (((attempt sink decision r).0, log), (attempt sink decision r).1)
  unfolding attempt report_effect_error
  attempt-noted decision log (s, none) = refl
  attempt-noted decision log (s, some thrown) = elim (Option-cases sink.report) [
    | inl e ↦ rw e refl
    | inr (handler, e) ↦ rw e refl
  ]

  noted_each :
      (pending : Map EffectKey EffectDecision) (s : S) (log : List EffectDecision)
      → apply_each (noted sink) pending (s, log) ≡ (
        ((apply_each sink pending s).0, log ++ map (λ e. e.1) pending),
        (apply_each sink pending s).1,
      )
  unfolding apply_each
  noted_each [] s log = ap (λ l. ((s, l), 0)) (sym (append-nil log))
  noted_each ((key, decision) ∷ pending) s log =
      rw
        (
          attempt-noted decision (log ++ decision ∷ []) (sink.apply decision s),
          noted_each pending (attempt sink decision (sink.apply decision s)).0
              (log ++ decision ∷ []),
          append_assoc log (decision ∷ []) (map (λ e. e.1) pending),
        )
        refl

  attempt_le : (decision : EffectDecision) (r : S × Option Thrown) → (attempt sink decision r).1 ≤ 1
  unfolding attempt
  attempt_le decision (s, none) = omega arith
  attempt_le decision (s, some thrown) = omega arith

  applied_le :
      (pending : Map EffectKey EffectDecision) (s : S)
      → (apply_each sink pending s).1 ≤ length pending
  unfolding apply_each
  applied_le [] s = omega arith
  applied_le ((key, decision) ∷ pending) s = omega (
    arith,
    attempt_le decision (sink.apply decision s),
    applied_le pending (attempt sink decision (sink.apply decision s)).0,
  )

  -- Applying the pending effects leaves none pending, and gives every one of them to the
  -- simulation exactly once, in the order of the keys, whichever of them throw: a sink that also
  -- notes what it is given ends with the same state of the simulation, the same number of applied
  -- effects and a note of each pending effect. No more are counted than were pending.
  pub apply_pending_effects_lem :
      (d : Double) (c : AfsimBridgeController d) (s : S)
      → ((apply_pending_effects sink d c s).0.pending_effects ≡ [])
        × ((apply_pending_effects (noted sink) d c (s, [])).1 ≡ (
          ((apply_pending_effects sink d c s).1.0, map (λ e. e.1) c.pending_effects),
          (apply_pending_effects sink d c s).1.1,
        ))
        × ((apply_pending_effects sink d c s).1.1 ≤ length c.pending_effects)
  unfolding apply_pending_effects
  apply_pending_effects_lem d c s =
      (refl, noted_each c.pending_effects s [], applied_le c.pending_effects s)
