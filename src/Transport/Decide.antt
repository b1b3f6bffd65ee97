-- ===== src/Transport/Decide.antt =====
-- What the gate decides for a message.
use afsim_ns.Base.{
  ℕ, ◌≡◌, ◌≢◌, refl, sym, ap, ◌∙◌, true, false, List, [], ◌∷◌, Option, none, some, Bytes, arith,
  leb, codes, subst, ok, err, ok-injective, >>=-eq-ok, Bool-cases, Option-cases, inl, inr,
  bytes_ord, pair_ord, equals, equals_iff,
}
use afsim_ns.Base.Map.{lookup, insert, lookup-insert}
use afsim_ns.Double.{Double, Laws, at_least}
use afsim_ns.Json.{Json, json_string, json_uint64, json_double, json_object_array}
use afsim_ns.Transport.Hash.{unit_draw}
use afsim_ns.Transport.Draw.{unit_draw_bounds}
use afsim_ns.Transport.Gate.{
  Profile, Profiles, MessageTransportGate, no_link, deliver, profile_at, metric_connected, add_link,
  add_metric, fold_objects, read_profiles, read_metrics, commit, commit_read,
  update_from_metrics_json, decide, decide_profile,
}

module _ (d : Double) (gate : MessageTransportGate d) (source target : Bytes) (serial : ℕ) where
  decide_found :
      (p : Profile d)
      → lookup (source, target) gate.profiles ≡ some p
      → decide d gate source target serial
        ≡ decide_profile d source target gate.latest_revision
            (unit_draw d source target serial gate.latest_revision)
            p
  unfolding decide
  decide_found p e = rw (e, decide) refl

  decide_missing :
      lookup (source, target) gate.profiles ≡ none
      → (decide d gate source target serial).disposition ≡ no_link
  unfolding decide
  decide_missing e = rw (e, decide) refl

commit_read-fresh :
    (d : Double) (gate after : MessageTransportGate d) (r : Json (Option (ℕ × Profiles d)))
    → commit_read d gate r ≡ (after, ok true)
    → (revision : ℕ) × (profiles : Profiles d) × (r ≡ ok (some (revision, profiles)))
      × (after.profiles ≡ profiles)
unfolding commit_read commit
commit_read-fresh d gate after (err e) h = cc
commit_read-fresh d gate after (ok none) h = cc
commit_read-fresh d gate after (ok (some (revision, profiles))) h =
    elim (Bool-cases (leb revision gate.latest_revision)) [
      | inl e ↦ ground (arith, h, e)
      | inr e ↦ (revision, profiles, refl, ground (arith, h, e))
    ]

read_metrics-profiles :
    (d : Double) (line : Bytes) (revision : ℕ) (profiles : Profiles d)
    → read_metrics d line ≡ ok (some (revision, profiles))
    → read_profiles d line ≡ ok profiles
unfolding read_metrics
read_metrics-profiles d line revision profiles e =
    let (message_type, _, e1) = >>=-eq-ok (json_string line (codes "message_type")) _ e in
    elim (Bool-cases (equals message_type (codes "ns3_metrics"))) [
      | inr b ↦ ground (arith, e1, b)
      | inl b ↦
          let (r, _, e2) = >>=-eq-ok (json_uint64 line (codes "revision")) _ (rw b at e1) in
          let (found, p, e3) = >>=-eq-ok (read_profiles d line) _ e2 in p ∙ cc
    ]

-- The profiles that the gate has taken are those that the line holds.
updated-profiles :
    (d : Double) (line : Bytes) (gate after : MessageTransportGate d)
    → update_from_metrics_json d line gate ≡ (after, ok true)
    → (revision : ℕ) × (profiles : Profiles d) × (read_profiles d line ≡ ok profiles)
      × (after.profiles ≡ profiles)
unfolding update_from_metrics_json
updated-profiles d line gate after e =
    let (revision, profiles, p, q) = commit_read-fresh d gate after (read_metrics d line) e in
    (revision, profiles, read_metrics-profiles d line revision profiles p, q)

module _ (d : Double) (laws : Laws d) where
  nought_below : (a : d.F) → a ≡ d.nought → at_least d a d.unit ≡ false
  nought_below a e = rw e (
      ground (
        arith,
        laws.nought_less_unit,
        laws.less_not_same d.nought d.unit,
        laws.trans d.nought d.unit d.nought,
        laws.irrefl d.nought,
      ))

  -- Where doubles obey the laws: a message over a connected pair whose loss rate is 0.0 is
  -- delivered, whatever its serial and the revision of the gate, with the delay of the profile.
  pub lossless_delivers :
      (gate : MessageTransportGate d) (source target : Bytes) (serial : ℕ) (p : Profile d)
      → lookup (source, target) gate.profiles ≡ some p
      → p.connected ≡ true
      → p.loss_rate ≡ d.nought
      → ((decide d gate source target serial).disposition ≡ deliver)
        × ((decide d gate source target serial).delay_ms ≡ p.delay_ms)
  lossless_delivers gate source target serial p found up lossless =
      let (draw, _) = unit_draw_bounds d laws source target serial gate.latest_revision in
      rw (decide_found d gate source target serial p found) (
        unfold decide_profile in
        rw (up, nought_below p.loss_rate lossless, lossless, draw) (refl, refl))

  at_least_unit : (p : Profile d) → p.loss_rate ≡ d.unit → at_least d p.loss_rate d.unit ≡ true
  at_least_unit p e = rw e (ground (arith, laws.irrefl d.unit, laws.same_refl_unit))

  -- The pair has no profile, or one with loss rate 1.0.
  abbrev IsUnlinked : Option (Profile d) → Type 0
  IsUnlinked none = Unit
  IsUnlinked (some p) = p.loss_rate ≡ d.unit

  profile_at-loss :
      (key : Bytes × Bytes) (profiles : Profiles d)
      → IsUnlinked (lookup key profiles)
      → (profile_at d key profiles).loss_rate ≡ d.unit
  unfolding profile_at
  profile_at-loss key profiles h = elim (Option-cases (lookup key profiles)) [
    | inl e ↦ rw (e, profile_at) refl
    | inr (p, e) ↦ rw (e, profile_at) (subst IsUnlinked e h)
  ]

  insert-IsUnlinked :
      (key other : Bytes × Bytes) (profiles : Profiles d) (p : Profile d)
      → IsUnlinked (lookup key profiles)
      → (other ≡ key → p.loss_rate ≡ d.unit)
      → IsUnlinked (lookup key (insert other p profiles))
  insert-IsUnlinked key other profiles p h k =
      rw (lookup-insert other key p profiles) (elim (Bool-cases (equals other key)) [
        | inl e ↦ rw e (k ((equals_iff other key).0 e))
        | inr e ↦ rw e h
      ])

  add_metric-IsUnlinked :
      (key : Bytes × Bytes) (profiles after : Profiles d) (object : Bytes)
      → IsUnlinked (lookup key profiles)
      → add_metric d profiles object ≡ ok after
      → IsUnlinked (lookup key after)
  unfolding add_metric
  add_metric-IsUnlinked key profiles after object h e =
      let (source, _, e1) = >>=-eq-ok (json_string object (codes "source_entity_id")) _ e in
      let (target, _, e2) = >>=-eq-ok (json_string object (codes "target_entity_id")) _ e1 in
      let (connected, _, e3) = >>=-eq-ok (metric_connected d object) _ e2 in
      let (latency, _, e4) = >>=-eq-ok (json_double d object (codes "latency_ms")) _ e3 in
      subst (λ m. IsUnlinked (lookup key m)) (ok-injective e4)
        (insert-IsUnlinked key (source, target) profiles _ h
          λ same. profile_at-loss (source, target) profiles (rw same h))

  add_metrics-IsUnlinked :
      (key : Bytes × Bytes) (objects : List Bytes) (profiles after : Profiles d)
      → IsUnlinked (lookup key profiles)
      → fold_objects d (add_metric d) profiles objects ≡ ok after
      → IsUnlinked (lookup key after)
  unfolding fold_objects
  add_metrics-IsUnlinked key [] profiles after h e =
      subst (λ m. IsUnlinked (lookup key m)) (ok-injective e) h
  add_metrics-IsUnlinked key (object ∷ objects) profiles after h e =
      let (next, e1, e2) = >>=-eq-ok (add_metric d profiles object) _ e in
      add_metrics-IsUnlinked key objects next after
        (add_metric-IsUnlinked key profiles next object h e1) e2

  unlinked-decide_profile :
      (source target : Bytes) (revision : ℕ) (draw : d.F) (p : Profile d)
      → p.loss_rate ≡ d.unit
      → (decide_profile d source target revision draw p).disposition ≢ deliver
  unfolding decide_profile
  unlinked-decide_profile source target revision draw p h = elim (Bool-cases p.connected) [
    | inr down ↦ rw down (λ c. cc)
    | inl up ↦ rw (up, at_least_unit p h) (λ c. cc)
  ]

  unlinked-decide :
      (gate : MessageTransportGate d) (source target : Bytes) (serial : ℕ)
      → IsUnlinked (lookup (source, target) gate.profiles)
      → (decide d gate source target serial).disposition ≢ deliver
  unlinked-decide gate source target serial h =
      elim (Option-cases (lookup (source, target) gate.profiles)) [
        | inl e ↦ rw (decide_missing d gate source target serial e) (λ c. cc)
        | inr (p, e) ↦
            rw (decide_found d gate source target serial p e) (
              unlinked-decide_profile source target gate.latest_revision _ p (subst IsUnlinked e h))
      ]

  read_profiles-IsUnlinked :
      (line : Bytes) (key : Bytes × Bytes) (links : List Bytes) (linked profiles : Profiles d)
      → json_object_array line (codes "links") ≡ ok links
      → fold_objects d (add_link d) [] links ≡ ok linked
      → lookup key linked ≡ none
      → read_profiles d line ≡ ok profiles
      → IsUnlinked (lookup key profiles)
  unfolding read_profiles
  read_profiles-IsUnlinked line key links linked profiles el ek missing e =
      let (links', p1, e1) = >>=-eq-ok (json_object_array line (codes "links")) _ e in
      let (linked', p2, e2) = >>=-eq-ok (fold_objects d (add_link d) [] links') _ e1 in
      let (metrics, _, e3) = >>=-eq-ok (json_object_array line (codes "metrics")) _ e2 in
      let same_links : links ≡ links' = ok-injective (sym el ∙ p1) in
      let same_linked : linked ≡ linked' =
        ok-injective (sym ek ∙ ap (fold_objects d (add_link d) []) same_links ∙ p2) in
      add_metrics-IsUnlinked key metrics linked' profiles
        (subst IsUnlinked (sym missing ∙ ap (lookup key) same_linked) tt) e3

  -- Let a line give the gate new profiles, and let none of its links run from the source to the
  -- target. Then no message from this source to this target is ever delivered, whatever its serial
  -- and whatever the metrics of the line say of the pair.
  pub unlinked_never :
      (line : Bytes) (gate after : MessageTransportGate d) (links : List Bytes)
      (linked : Profiles d) (source target : Bytes) (serial : ℕ)
      → json_object_array line (codes "links") ≡ ok links
      → fold_objects d (add_link d) [] links ≡ ok linked
      → lookup (source, target) linked ≡ none
      → update_from_metrics_json d line gate ≡ (after, ok true)
      → (decide d after source target serial).disposition ≢ deliver
  unlinked_never line gate after links linked source target serial el ek missing e =
      let (revision, profiles, p, q) = updated-profiles d line gate after e in
      unlinked-decide after source target serial (
        rw q (read_profiles-IsUnlinked line (source, target) links linked profiles el ek missing p))
