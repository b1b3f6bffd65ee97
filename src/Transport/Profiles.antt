-- ===== src/Transport/Profiles.antt =====
-- The range of the delays and loss rates in the profiles of the gate.
use afsim_ns.Base.{
  ℕ, ◌≤◌, ◌≡◌, true, false, List, [], ◌∷◌, Option, none, some, Bytes, arith, All, codes,
  Option-cases, subst, ok, err, ◌>>=◌, Bool-cases, Result-cases, inl, inr, bytes_ord, pair_ord,
  equals,
}
use afsim_ns.Base.Map.{lookup, All-lookup, All-insert}
use afsim_ns.Double.{Double, Laws, fmax, fmin}
use afsim_ns.Json.{Json, json_string, json_double, json_uint64, json_object_array}
use afsim_ns.Transport.Gate.{
  Profile, Profiles, MessageTransportGate, default_profile, profile_at, metric_connected, add_link,
  add_metric, fold_objects, read_profiles, read_metrics, commit, commit_read,
  update_from_metrics_json, new_gate,
}

module _ (d : Double) (laws : Laws d) where
  open d use {F, less}

  -- The delay is not below 0.0, and the loss rate neither below 0.0 nor above 1.0.
  pub record InRange (p : Profile d) : Type 0 where
    pub delay_lower : less p.delay_ms d.nought ≡ false
    pub loss_lower : less p.loss_rate d.nought ≡ false
    pub loss_upper : less d.unit p.loss_rate ≡ false

  abbrev pub AllInRange : Profiles d → Type 0
  AllInRange = All (λ e. InRange e.1)

  less_asym : (a b : F) → less a b ≡ true → less b a ≡ false
  less_asym a b h = ground (arith, laws.trans a b a h, laws.irrefl a)

  fmax_lower : (a b c : F) → less a c ≡ false → less b c ≡ false → less (fmax d a b) c ≡ false
  fmax_lower a b c h k = ground arith

  fmax_nought : (b : F) → less (fmax d d.nought b) d.nought ≡ false
  fmax_nought b = ground (arith, laws.irrefl d.nought, less_asym d.nought b)

  clamp_upper : (a : F) → less d.unit (fmax d d.nought (fmin d d.unit a)) ≡ false
  clamp_upper a = ground (
    arith,
    laws.irrefl d.unit,
    less_asym a d.unit,
    less_asym d.nought d.unit,
    laws.nought_less_unit,
  )

  default-InRange : InRange (default_profile d)
  default-InRange = record {
    delay_lower = laws.irrefl d.nought;
    loss_lower = less_asym d.nought d.unit laws.nought_less_unit;
    loss_upper = laws.irrefl d.unit;
  }

  profile_at-InRange :
      (key : Bytes × Bytes) (profiles : Profiles d)
      → AllInRange profiles
      → InRange (profile_at d key profiles)
  unfolding profile_at
  profile_at-InRange key profiles h = elim (Option-cases (lookup key profiles)) [
    | inl e ↦ rw (e, profile_at) default-InRange
    | inr (p, e) ↦ rw (e, profile_at) (All-lookup InRange key profiles p h e)
  ]

  -- What holds of the value, where one is returned.
  abbrev Returns : {A : Type 0} → (A → Type 0) → Json A → Type 0
  Returns P (ok a) = P a
  Returns P (err e) = Unit

  Returns->>= :
      {A B : Type 0} (P : B → Type 0) (m : Json A) (f : A → Json B)
      → ((a : A) → Returns P (f a))
      → Returns P (m >>= f)
  Returns->>= P (ok a) f h = h a
  Returns->>= P (err e) f h = tt

  add_link-AllInRange :
      (profiles : Profiles d) (object : Bytes)
      → AllInRange profiles
      → Returns AllInRange (add_link d profiles object)
  unfolding add_link
  add_link-AllInRange profiles object h =
      Returns->>= AllInRange (json_string object (codes "state")) _ λ state.
        Returns->>= AllInRange (json_double d object (codes "delay_ms")) _ λ delay.
          Returns->>= AllInRange (json_double d object (codes "configured_loss_rate")) _ λ loss.
            Returns->>= AllInRange (json_string object (codes "source_entity_id")) _ λ source.
              Returns->>= AllInRange (json_string object (codes "target_entity_id")) _ λ target.
                All-insert InRange _ _ profiles
                  (record {
                    delay_lower = fmax_nought delay;
                    loss_lower = fmax_nought (fmin d d.unit loss);
                    loss_upper = clamp_upper loss;
                  })
                  h

  add_metric-AllInRange :
      (profiles : Profiles d) (object : Bytes)
      → AllInRange profiles
      → Returns AllInRange (add_metric d profiles object)
  unfolding add_metric
  add_metric-AllInRange profiles object h =
      Returns->>= AllInRange (json_string object (codes "source_entity_id")) _ λ source.
        Returns->>= AllInRange (json_string object (codes "target_entity_id")) _ λ target.
          Returns->>= AllInRange (metric_connected d object) _ λ connected.
            Returns->>= AllInRange (json_double d object (codes "latency_ms")) _ λ latency.
              let old = profile_at-InRange (source, target) profiles h in
              All-insert InRange _ _ profiles
                (record {
                  delay_lower = fmax_lower _ _ d.nought old.delay_lower (fmax_nought latency);
                  loss_lower = old.loss_lower;
                  loss_upper = old.loss_upper;
                })
                h

  fold_objects-AllInRange :
      (body : Profiles d → Bytes → Json (Profiles d))
      → ((profiles : Profiles d) (object : Bytes)
          → AllInRange profiles
          → Returns AllInRange (body profiles object))
      → (profiles : Profiles d) (objects : List Bytes) → AllInRange profiles
      → Returns AllInRange (fold_objects d body profiles objects)
  unfolding fold_objects
  fold_objects-AllInRange body step profiles [] h = h
  fold_objects-AllInRange body step profiles (object ∷ objects) h =
      elim (Result-cases (body profiles object)) [
        | inr (e, p) ↦ rw p tt
        | inl (after, p) ↦ rw p (
            fold_objects-AllInRange body step after objects
              (subst (Returns AllInRange) p (step profiles object h)))
      ]

  read_profiles-AllInRange : (line : Bytes) → Returns AllInRange (read_profiles d line)
  unfolding read_profiles
  read_profiles-AllInRange line =
      Returns->>= AllInRange (json_object_array line (codes "links")) _ λ links.
        elim (Result-cases (fold_objects d (add_link d) [] links)) [
          | inr (e, p) ↦ rw p tt
          | inl (linked, p) ↦ rw p (
              Returns->>= AllInRange (json_object_array line (codes "metrics")) _ λ metrics.
                fold_objects-AllInRange (add_metric d) add_metric-AllInRange linked metrics (
                  subst (Returns AllInRange) p
                    (fold_objects-AllInRange (add_link d) add_link-AllInRange [] links tt)))
        ]

  Returns-then :
      {A B : Type 0} (P : A → Type 0) (Q : B → Type 0) (m : Json A) (f : A → Json B)
      → Returns P m
      → ((a : A) → P a → Returns Q (f a))
      → Returns Q (m >>= f)
  Returns-then P Q (ok a) f h k = k a h
  Returns-then P Q (err e) f h k = tt

  -- What a line holds is in range.
  abbrev Held : Option (ℕ × Profiles d) → Type 0
  Held none = Unit
  Held (some (revision, profiles)) = AllInRange profiles

  read_metrics-Held : (line : Bytes) → Returns Held (read_metrics d line)
  unfolding read_metrics
  read_metrics-Held line =
      Returns->>= Held (json_string line (codes "message_type")) _ λ message_type.
        elim (Bool-cases (equals message_type (codes "ns3_metrics"))) [
          | inr e ↦ rw e tt
          | inl e ↦ rw e (
              Returns->>= Held (json_uint64 line (codes "revision")) _ λ revision.
                Returns-then AllInRange Held (read_profiles d line) _
                  (read_profiles-AllInRange line) λ profiles h. h)
        ]

  commit_read-AllInRange :
      (gate : MessageTransportGate d) (r : Json (Option (ℕ × Profiles d)))
      → AllInRange gate.profiles
      → Returns Held r
      → AllInRange (commit_read d gate r).0.profiles
        × (gate.latest_revision ≤ (commit_read d gate r).0.latest_revision)
  unfolding commit_read commit
  commit_read-AllInRange gate (err e) h k = (h, omega arith)
  commit_read-AllInRange gate (ok none) h k = (h, omega arith)
  commit_read-AllInRange gate (ok (some (revision, profiles))) h k = ground arith

  -- Where doubles obey the laws: the gate starts with all profiles in range, meaning with a delay
  -- that is not negative and a loss rate within [0, 1], whatever the numbers in a line, and a line
  -- keeps that so and never lowers the latest revision.
  pub update-AllInRange :
      (line : Bytes) (gate : MessageTransportGate d)
      → AllInRange gate.profiles
      → AllInRange (new_gate d).profiles
        × AllInRange (update_from_metrics_json d line gate).0.profiles
        × (gate.latest_revision ≤ (update_from_metrics_json d line gate).0.latest_revision)
  unfolding update_from_metrics_json
  update-AllInRange line gate h =
      let (in_range, revision) =
        commit_read-AllInRange gate (read_metrics d line) h (read_metrics-Held line) in
      (tt, in_range, revision)
