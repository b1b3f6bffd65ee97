-- ===== src/Transport/Gate.antt =====
-- The gate and its methods.
use afsim_ns.Base.{
  ℕ, Bool, true, false, not, ◌||◌, List, [], ◌∷◌, Option, none, some, Bytes, codes, leb, equals,
  bytes_ord, pair_ord, if◌then◌else◌, ok, err, ◌>>=◌, cmp_bytes,
}
use afsim_ns.Base.Map.{Map, lookup, insert}
use afsim_ns.Double.{Double, fmax, fmin, at_least}
use afsim_ns.Json.{Json, json_string, json_uint64, json_double, json_bool, json_object_array}
use afsim_ns.Transport.Hash.{unit_draw}

pub data MessageDisposition : Type 0 where
  no_link drop_message deliver : MessageDisposition

unfoldable pub to_string : MessageDisposition → Bytes
to_string no_link = codes "NO_LINK"
to_string drop_message = codes "DROP"
to_string deliver = codes "DELIVER"

module _ (d : Double) where
  pub record MessageTransportDecision : Type 0 where
    pub source_entity_id : Bytes
    pub target_entity_id : Bytes
    pub disposition : MessageDisposition
    pub delay_ms : d.F
    pub loss_rate : d.F
    pub revision : ℕ
    pub reason : Bytes

  pub record Profile : Type 0 where
    pub connected : Bool
    pub delay_ms : d.F
    pub loss_rate : d.F

  pub record MessageTransportGate : Type 0 where
    pub profiles : Map (Bytes × Bytes) Profile
    pub latest_revision : ℕ

  abbrev pub new_gate : MessageTransportGate
  new_gate = record { profiles = []; latest_revision = 0 }

  -- A profile as its members initialise it.
  abbrev pub default_profile : Profile
  default_profile = record { connected = false; delay_ms = d.nought; loss_rate = d.unit }

  abbrev pub Profiles : Type 0
  Profiles = Map (Bytes × Bytes) Profile

  -- The body of the loop over "links".
  unfoldable pub add_link : Profiles → Bytes → Json Profiles
  unfolding json_string json_double insert cmp_bytes
  add_link profiles object = do
    state ← json_string object (codes "state")
    delay ← json_double d object (codes "delay_ms")
    loss ← json_double d object (codes "configured_loss_rate")
    source ← json_string object (codes "source_entity_id")
    target ← json_string object (codes "target_entity_id")
    ok (
        insert (source, target)
          (record {
            connected = equals state (codes "UP");
            delay_ms = fmax d d.nought delay;
            loss_rate = fmax d d.nought (fmin d d.unit loss);
          })
          profiles)

  -- `profiles[key]`, which creates what is missing
  unfoldable pub profile_at : Bytes × Bytes → Profiles → Profile
  unfolding lookup
  profile_at key profiles = elim (lookup key profiles) [ none ↦ default_profile | some p ↦ p ]

  -- `JsonBool(object, "connected") && JsonString(object, "link_state") == "UP"`: the second field
  -- is read only if the first is true.
  unfoldable pub metric_connected : Bytes → Json Bool
  unfolding json_bool json_string cmp_bytes
  metric_connected object = do
    connected ← json_bool object (codes "connected")
    elim connected [
      | false ↦ ok false
      | true ↦ json_string object (codes "link_state") >>= λ link_state.
          ok (equals link_state (codes "UP"))
    ]

  -- The body of the loop over "metrics".
  unfoldable pub add_metric : Profiles → Bytes → Json Profiles
  unfolding json_string json_double insert profile_at metric_connected
  add_metric profiles object = do
    source ← json_string object (codes "source_entity_id")
    target ← json_string object (codes "target_entity_id")
    let profile = profile_at (source, target) profiles
    connected ← metric_connected object
    latency ← json_double d object (codes "latency_ms")
    ok (
        insert (source, target)
          (record profile {
            connected = connected;
            delay_ms = fmax d profile.delay_ms (fmax d d.nought latency);
          })
          profiles)

  unfoldable pub fold_objects :
      (Profiles → Bytes → Json Profiles) → Profiles → List Bytes → Json Profiles
  fold_objects body profiles [] = ok profiles
  fold_objects body profiles (object ∷ objects) =
      body profiles object >>= λ profiles'. fold_objects body profiles' objects

  unfoldable pub read_profiles : Bytes → Json Profiles
  unfolding json_object_array fold_objects add_link add_metric
  read_profiles line = do
    links ← json_object_array line (codes "links")
    linked ← fold_objects add_link [] links
    metrics ← json_object_array line (codes "metrics")
    fold_objects add_metric linked metrics

  -- What a line holds: `none` for a message of another type.
  unfoldable pub read_metrics : Bytes → Json (Option (ℕ × Profiles))
  unfolding json_string json_uint64 read_profiles cmp_bytes
  read_metrics line = do
    message_type ← json_string line (codes "message_type")
    if not (equals message_type (codes "ns3_metrics"))
        then ok none
        else (json_uint64 line (codes "revision") >>= λ revision.
            read_profiles line >>= λ profiles. ok (some (revision, profiles)))

  -- The part under the lock.
  unfoldable pub commit : ℕ → Profiles → MessageTransportGate → MessageTransportGate × Bool
  commit revision profiles gate =
      if leb revision gate.latest_revision
      then (gate, false)
      else (record { profiles = profiles; latest_revision = revision }, true)

  unfoldable pub commit_read :
      MessageTransportGate → Json (Option (ℕ × Profiles)) → MessageTransportGate × Json Bool
  unfolding commit
  commit_read gate (err e) = (gate, err e)
  commit_read gate (ok none) = (gate, ok false)
  commit_read gate (ok (some (revision, profiles))) =
      let (gate', fresh) = commit revision profiles gate in (gate', ok fresh)

  unfoldable pub update_from_metrics_json :
      Bytes → MessageTransportGate → MessageTransportGate × Json Bool
  unfolding read_metrics commit_read
  update_from_metrics_json line gate = commit_read gate (read_metrics line)

  -- The tests of `Decide` once the profile is found, with the draw for this message.
  unfoldable pub decide_profile : Bytes → Bytes → ℕ → d.F → Profile → MessageTransportDecision
  unfolding unit_draw
  decide_profile source target revision draw profile =
      let blank : MessageTransportDecision = record {
        source_entity_id = source;
        target_entity_id = target;
        disposition = no_link;
        delay_ms = profile.delay_ms;
        loss_rate = profile.loss_rate;
        revision = revision;
        reason = codes "LINK_DOWN";
      } in
      if not profile.connected
      then blank
      else if at_least d profile.loss_rate d.unit || d.less draw profile.loss_rate
      then record blank { disposition = drop_message; reason = codes "PACKET_LOSS" }
      else record blank { disposition = deliver; reason = codes "NONE" }

  unfoldable pub decide : MessageTransportGate → Bytes → Bytes → ℕ → MessageTransportDecision
  unfolding lookup decide_profile unit_draw
  decide gate source target serial = elim (lookup (source, target) gate.profiles) [
    | none ↦ record {
      source_entity_id = source;
      target_entity_id = target;
      disposition = no_link;
      delay_ms = d.nought;
      loss_rate = d.unit;
      revision = gate.latest_revision;
      reason = codes "NO_NETWORK_PROFILE";
    }
    | some profile ↦
        decide_profile source target gate.latest_revision
          (unit_draw d source target serial gate.latest_revision) profile
  ]
