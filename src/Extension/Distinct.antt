-- ===== src/Extension/Distinct.antt =====
-- The identifiers of what `CollectState` collects, where the indices of the platforms differ.
use afsim_ns.Base.{
  ℕ, zero, suc, ◌≤◌, ◌/◌, ◌%◌, ◌+◌, ◌≡◌, ◌≢◌, refl, ap, sym, ◌∙◌, false, Bool, Bool-cases, inl, inr,
  List, [], ◌∷◌, ◌++◌, Bytes, Option, none, some, All, ok-injective, equals, equals_iff, bytes_ord,
  ltb,
}
use afsim_ns.Base.Map.{Map}
use afsim_ns.Double.{Double}
use afsim_ns.Double.Math.{Math}
use afsim_ns.Json.{u64_max, read_uint64}
use afsim_ns.Protocol.{FlowConfig, EntityState, decimal, decimal_from}
use afsim_ns.Protocol.RoundTrip.{read_uint64-decimal}
use afsim_ns.Delta.{is_empty, entity_id_of, flow_id_of}
use afsim_ns.Delta.Index.{HasDistinctIds}
use afsim_ns.Extension.Afsim.{Platform, Simulation}
use afsim_ns.Extension.State.{Set, FlowKey, ObservedFlow}
use afsim_ns.Extension.Peers.{PlatformRecord, platform_records}
use afsim_ns.Extension.Collect.{flow_config, collect_flows}
use afsim_ns.Extension.Active.Entities.{AreOf}

-- Numbers of 64 bits with the same decimal text are the same.
decimal-injective : (a b : ℕ) → a ≤ u64_max → b ≤ u64_max → decimal a ≡ decimal b → a ≡ b
decimal-injective a b h k e = ok-injective (
    sym (read_uint64-decimal a [] h refl)
    ∙ ap (λ s. read_uint64 (s ++ []) 0) e
    ∙ read_uint64-decimal b [] k refl)

decimal_from-filled :
    (digits n x : ℕ) (tail : Bytes) → is_empty (decimal_from digits n (x ∷ tail)) ≡ false
unfolding decimal_from is_empty
decimal_from-filled zero n x tail = refl
decimal_from-filled (suc digits) n x tail = elim (Bool-cases (ltb n 10)) [
  | inl e ↦ rw (e, decimal_from) refl
  | inr e ↦ rw (e, decimal_from) (decimal_from-filled digits _ _ (x ∷ tail))
]

decimal-filled : (n : ℕ) → is_empty (decimal n) ≡ false
unfolding decimal decimal_from is_empty
decimal-filled n = elim (Bool-cases (ltb n 10)) [
  | inl e ↦ rw (e, decimal_from) refl
  | inr e ↦ rw (e, decimal_from) (decimal_from-filled 19 (n / 10) (b'0' + n % 10) [])
]

not-equals : (a b : Bytes) → a ≢ b → equals a b ≡ false
not-equals a b h = elim (Bool-cases (equals a b)) [
  | inl e ↦ absurd (h ((equals_iff a b).0 e))
  | inr e ↦ e
]

module _ (d : Double) (sim : Simulation d) where
  -- The platform has another index of 64 bits.
  abbrev HasOtherIndex : Platform → Option Platform → Type 0
  HasOtherIndex p none = Unit
  HasOtherIndex p (some q) =
      (sim.platform_index q ≤ u64_max) × (sim.platform_index p ≢ sim.platform_index q)

  -- No two platforms have the same index.
  abbrev pub HaveIndices : List (Option Platform) → Type 0
  HaveIndices [] = Unit
  HaveIndices (none ∷ entries) = HaveIndices entries
  HaveIndices (some p ∷ entries) =
      (sim.platform_index p ≤ u64_max) × All (HasOtherIndex p) entries × HaveIndices entries

  others-distinct :
      (p : Platform) (entries : List (Option Platform))
      → sim.platform_index p ≤ u64_max
      → All (HasOtherIndex p) entries
      → All
          (λ r. equals (decimal (sim.platform_index p)) r.entity_id ≡ false)
          (platform_records d sim entries)
  unfolding platform_records
  others-distinct p [] h k = tt
  others-distinct p (none ∷ entries) h k = others-distinct p entries h k.1
  others-distinct p (some q ∷ entries) h k = (
    not-equals (decimal (sim.platform_index p)) (decimal (sim.platform_index q))
        (λ e. k.0.1 (decimal-injective _ _ h k.0.0 e)),
    others-distinct p entries h k.1,
  )

  records-distinct :
      (entries : List (Option Platform))
      → HaveIndices entries
      → HasDistinctIds (λ r. r.entity_id) (platform_records d sim entries)
  unfolding platform_records
  records-distinct [] h = tt
  records-distinct (none ∷ entries) h = records-distinct entries h
  records-distinct (some p ∷ entries) (bound, others, h) = (
    decimal-filled (sim.platform_index p),
    others-distinct p entries bound others,
    records-distinct entries h,
  )

  AreOf-others :
      (id : Bytes) (records : List PlatformRecord) (entities : List (EntityState d))
      → AreOf d records entities
      → All (λ r. equals id r.entity_id ≡ false) records
      → All (λ e. equals id e.entity_id ≡ false) entities
  AreOf-others id [] [] h k = tt
  AreOf-others id [] (entity ∷ entities) h k = elim h [ ]
  AreOf-others id (r ∷ records) [] h k = tt
  AreOf-others id (r ∷ records) (entity ∷ entities) h k =
      (rw (h.0.0) k.0, AreOf-others id records entities h.1 k.1)

  AreOf-distinct :
      (records : List PlatformRecord) (entities : List (EntityState d))
      → AreOf d records entities
      → HasDistinctIds (λ r. r.entity_id) records
      → HasDistinctIds (entity_id_of d) entities
  AreOf-distinct [] [] h k = tt
  AreOf-distinct [] (entity ∷ entities) h k = elim h [ ]
  AreOf-distinct (r ∷ records) [] h k = tt
  AreOf-distinct (r ∷ records) (entity ∷ entities) h (filled, others, k) = (
    rw (h.0.0) filled,
    rw (h.0.0) (AreOf-others r.entity_id records entities h.1 others),
    AreOf-distinct records entities h.1 k,
  )

  -- One entity for each platform has its own identifier.
  pub entities-distinct :
      (entities : List (EntityState d))
      → HaveIndices sim.platform_entries
      → AreOf d (platform_records d sim sim.platform_entries) entities
      → HasDistinctIds (entity_id_of d) entities
  entities-distinct entities h k =
      AreOf-distinct (platform_records d sim sim.platform_entries) entities k
        (records-distinct sim.platform_entries h)

module _ (d : Double) (m : Math d) where
  -- The identifiers of the observed flows.
  abbrev pub flow_of : FlowKey × ObservedFlow d → Bytes
  flow_of (key, observed) = observed.flow_id

  flows-others :
      (id : Bytes) (alive : Map Bytes Bool) (up_links : Set (Bytes × Bytes))
      (flows : Map FlowKey (ObservedFlow d))
      → All (λ e. equals id (flow_of e) ≡ false) flows
      → All (λ f. equals id (flow_id_of f) ≡ false) (collect_flows d m alive up_links flows)
  unfolding collect_flows flow_config
  flows-others id alive up_links [] h = tt
  flows-others id alive up_links ((key, observed) ∷ flows) h =
      (h.0, flows-others id alive up_links flows h.1)

  pub flows-distinct :
      (alive : Map Bytes Bool) (up_links : Set (Bytes × Bytes))
      (flows : Map FlowKey (ObservedFlow d))
      → HasDistinctIds flow_of flows
      → HasDistinctIds flow_id_of (collect_flows d m alive up_links flows)
  unfolding collect_flows flow_config
  flows-distinct alive up_links [] h = tt
  flows-distinct alive up_links ((key, observed) ∷ flows) (filled, others, h) = (
    filled,
    flows-others observed.flow_id alive up_links flows others,
    flows-distinct alive up_links flows h,
  )

  -- The flow has what was observed.
  pub record IsFlowOf (observed : ObservedFlow d) (flow : FlowConfig) : Type 0 where
    pub flow_id : flow.flow_id ≡ observed.flow_id
    pub source : flow.source_entity_id ≡ observed.source_entity_id
    pub target : flow.target_entity_id ≡ observed.target_entity_id
    pub packet_size : flow.packet_size_bytes ≡ observed.packet_size_bytes
    pub interval : flow.interval_ms ≡ observed.interval_ms
    pub duration : flow.duration_ms ≡ observed.duration_ms

  -- One flow for each observed flow, in their order.
  abbrev pub AreFlowsOf : Map FlowKey (ObservedFlow d) → List FlowConfig → Type 0
  AreFlowsOf [] [] = Unit
  AreFlowsOf [] (flow ∷ flows) = ⊥
  AreFlowsOf (entry ∷ observed) [] = ⊥
  AreFlowsOf (entry ∷ observed) (flow ∷ flows) = IsFlowOf entry.1 flow × AreFlowsOf observed flows

  pub collect_flows-AreFlowsOf :
      (alive : Map Bytes Bool) (up_links : Set (Bytes × Bytes))
      (observed : Map FlowKey (ObservedFlow d))
      → AreFlowsOf observed (collect_flows d m alive up_links observed)
  unfolding collect_flows flow_config
  collect_flows-AreFlowsOf alive up_links [] = tt
  collect_flows-AreFlowsOf alive up_links ((key, observed) ∷ rest) = (
    record {
      flow_id = refl;
      source = refl;
      target = refl;
      packet_size = refl;
      interval = refl;
      duration = refl;
    },
    collect_flows-AreFlowsOf alive up_links rest,
  )
