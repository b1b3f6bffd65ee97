-- ===== src/Effects/Update.antt =====
-- What a metrics line does to the gate.
use Prim.Native.Nat.{max}
use afsim_ns.Base.{
  ℕ, ◌≤◌, ◌<◌, ◌≡◌, refl, ap, ◌∙◌, Bool, true, false, List, [], ◌∷◌, Option, none, some, Bytes,
  arith, leb, equals, bytes_ord, pair_ord, if◌then◌else◌, ok, err, Bool-cases, inl, inr, ◌⊎◌,
}
use afsim_ns.Base.Map.{Map, lookup, lookup-insert}
use afsim_ns.Json.{Json}
use afsim_ns.Effects.Gate.{
  EffectState, EffectDecision, NetworkEffectGate, store, commit, commit_read, read_metrics,
  update_from_metrics_json, get_state, or_blocked,
}

-- The state that the decisions give to a subsystem of an entity: the last one counts.
abbrev pub decided : Bytes → Bytes → List EffectDecision → EffectState → EffectState
decided entity subsystem [] before = before
decided entity subsystem (e ∷ decisions) before = decided entity subsystem decisions (
    if equals {K = Bytes × Bytes} (e.entity_id, e.subsystem_id) (entity, subsystem)
    then e.state
    else before)

or_blocked-if :
    (b : Bool) (state : EffectState) (old : Option EffectState)
    → or_blocked (if b then some state else old) ≡ (if b then state else or_blocked old)
or_blocked-if true state old = unfold or_blocked in refl
or_blocked-if false state old = refl

store-decided :
    (entity subsystem : Bytes) (decisions : List EffectDecision)
    (states : Map (Bytes × Bytes) EffectState)
    → or_blocked (lookup (entity, subsystem) (store decisions states))
      ≡ decided entity subsystem decisions (or_blocked (lookup (entity, subsystem) states))
unfolding store
store-decided entity subsystem [] states = refl
store-decided entity subsystem (e ∷ decisions) states =
    store-decided entity subsystem decisions _
    ∙ ap (decided entity subsystem decisions) (
        rw (lookup-insert (e.entity_id, e.subsystem_id) (entity, subsystem) e.state states)
          (or_blocked-if _ e.state _))

get_state-store :
    (entity subsystem : Bytes) (revision : ℕ) (decisions : List EffectDecision)
    (gate : NetworkEffectGate)
    → get_state
        (record { states = store decisions gate.states; latest_revision = revision })
        entity
        subsystem
      ≡ decided entity subsystem decisions (get_state gate entity subsystem)
unfolding get_state
get_state-store entity subsystem revision decisions gate =
    store-decided entity subsystem decisions gate.states

-- What the gate does with a line, by what the line holds.
abbrev pub Behaves :
    NetworkEffectGate
    → Json (Option (ℕ × List EffectDecision))
    → NetworkEffectGate × Json (List EffectDecision)
    → Type 0
Behaves gate (err e) (after, result) = (after ≡ gate) × (result ≡ err e)
Behaves gate (ok none) (after, result) = (after ≡ gate) × (result ≡ ok [])
Behaves gate (ok (some (revision, decisions))) (after, result) =
    (revision ≤ gate.latest_revision) × (after ≡ gate) × (result ≡ ok [])
    ⊎ (gate.latest_revision < revision)
      × (after.latest_revision ≡ revision)
      × (result ≡ ok decisions)
      × ((entity subsystem : Bytes)
          → get_state after entity subsystem
            ≡ decided entity subsystem decisions (get_state gate entity subsystem))

commit_read-Behaves :
    (gate : NetworkEffectGate) (r : Json (Option (ℕ × List EffectDecision)))
    → Behaves gate r (commit_read gate r)
unfolding commit_read commit
commit_read-Behaves gate (err e) = (refl, refl)
commit_read-Behaves gate (ok none) = (refl, refl)
commit_read-Behaves gate (ok (some (revision, decisions))) =
    elim (Bool-cases (leb revision gate.latest_revision)) [
      | inl e ↦ rw e (inl (ground arith, refl, refl))
      | inr e ↦ rw e (
          inr (
            ground arith,
            refl,
            refl,
            λ entity subsystem. get_state-store entity subsystem revision decisions gate,
          ))
    ]

-- A line that cannot be read leaves the gate as it was and throws; a message of another type
-- leaves it as it was and gives no decisions, and so do metrics whose revision is not above the
-- latest one. Metrics with a newer revision set it and give their decisions. A subsystem then
-- has the state of the last decision for it, or, if there is none, the state that it had.
pub update_lem :
    (line : Bytes) (gate : NetworkEffectGate)
    → Behaves gate (read_metrics line) (update_from_metrics_json line gate)
unfolding update_from_metrics_json
update_lem line gate = commit_read-Behaves gate (read_metrics line)

-- The gate after lines in their order.
abbrev pub update_all : List Bytes → NetworkEffectGate → NetworkEffectGate
update_all [] gate = gate
update_all (line ∷ lines) gate = update_all lines (update_from_metrics_json line gate).0

-- The revision that a line carries, if it is metrics that can be read.
abbrev pub revision_of : Json (Option (ℕ × List EffectDecision)) → ℕ → ℕ
revision_of (err e) latest = latest
revision_of (ok none) latest = latest
revision_of (ok (some (revision, decisions))) latest = max latest revision

abbrev pub newest : List Bytes → ℕ → ℕ
newest [] latest = latest
newest (line ∷ lines) latest = newest lines (revision_of (read_metrics line) latest)

commit_read-revision :
    (gate : NetworkEffectGate) (r : Json (Option (ℕ × List EffectDecision)))
    → (commit_read gate r).0.latest_revision ≡ revision_of r gate.latest_revision
unfolding commit_read
commit_read-revision gate (err e) = refl
commit_read-revision gate (ok none) = refl
commit_read-revision gate (ok (some (revision, decisions))) = ground arith

commit_read-again :
    (gate : NetworkEffectGate) (r : Json (Option (ℕ × List EffectDecision)))
    → (commit_read (commit_read gate r).0 r).0 ≡ (commit_read gate r).0
unfolding commit_read
commit_read-again gate (err e) = refl
commit_read-again gate (ok none) = refl
commit_read-again gate (ok (some (revision, decisions))) = ground arith

-- After any lines the latest revision is the greatest one among the metrics that could be read
-- and the one at the start, in whatever order the lines came; and a line that comes again at once
-- changes nothing.
pub update_all-revision :
    (lines : List Bytes) (line : Bytes) (gate : NetworkEffectGate)
    → ((update_all lines gate).latest_revision ≡ newest lines gate.latest_revision)
      × ((update_from_metrics_json line (update_from_metrics_json line gate).0).0
          ≡ (update_from_metrics_json line gate).0)
unfolding update_from_metrics_json
update_all-revision [] line gate = (refl, commit_read-again gate (read_metrics line))
update_all-revision (l ∷ lines) line gate = (
  (update_all-revision lines line (update_from_metrics_json l gate).0).0
      ∙ ap (newest lines) (commit_read-revision gate (read_metrics l)),
  commit_read-again gate (read_metrics line),
)
