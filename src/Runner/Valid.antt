-- ===== src/Runner/Valid.antt =====
-- The scenarios that `ValidateScenario` accepts.
use afsim_ns.Base.{
  ℕ, suc, ◌≤◌, ◌<◌, ◌≡◌, refl, false, List, [], ◌∷◌, arith, Result, ok, err, ◌>>=◌, length, All,
  ◌↔◌,
}
use afsim_ns.Double.{Double}
use afsim_ns.Runner.Scenario.{
  NodeInput, LinkInput, FlowInput, Scenario, check_nodes, check_link, check_links, check_flow,
  check_flows, validate_scenario,
}

-- Nothing is returned but that nothing was thrown.
then_ok :
    {E : Type 0} (m n : Result E (Unit {0}))
    → ((m >>= λ _. n) ≡ ok tt) ↔ ((m ≡ ok tt) × (n ≡ ok tt))
then_ok (ok tt) n = (λ e. (refl, e), λ (p, q). q)
then_ok (err e) n = (λ h. cc, λ (p, q). cc)

pub record IsFlow (count : ℕ) (flow : FlowInput) : Type 0 where
  pub source_lt : flow.source < count
  pub target_lt : flow.target < count
  pub packet_lower : 64 ≤ flow.packet_size_bytes
  pub interval_positive : 0 < flow.interval_ms
  pub duration_lower : 100 ≤ flow.duration_ms

check_flow-ok : (count : ℕ) (flow : FlowInput) → (check_flow count flow ≡ ok tt) ↔ IsFlow count flow
unfolding check_flow
check_flow-ok count flow = (
  λ e. record {
    source_lt = ground (arith, e);
    target_lt = ground (arith, e);
    packet_lower = ground (arith, e);
    interval_positive = ground (arith, e);
    duration_lower = ground (arith, e);
  },
  λ h.
      ground
        (arith, h.source_lt, h.target_lt, h.packet_lower, h.interval_positive, h.duration_lower),
)

check_flows-ok :
    (count : ℕ) (flows : List FlowInput)
    → (check_flows count flows ≡ ok tt) ↔ All (IsFlow count) flows
unfolding check_flows
check_flows-ok count [] = (λ _. tt, λ _. refl)
check_flows-ok count (flow ∷ flows) =
    let (split, join) = then_ok (check_flow count flow) (check_flows count flows) in
    let (p, q) = check_flow-ok count flow in
    let (r, s) = check_flows-ok count flows in
    (λ e. let (a, b) = split e in (p a, r b), λ (a, b). join (q a, s b))

module _ (d : Double) where
  -- The nodes stand at their indexes.
  abbrev pub AreIndexed : ℕ → List (NodeInput d) → Type 0
  AreIndexed index [] = Unit
  AreIndexed index (node ∷ nodes) = (node.index ≡ index) × AreIndexed (suc index) nodes

  check_nodes-ok :
      (index : ℕ) (nodes : List (NodeInput d))
      → (check_nodes d index nodes ≡ ok tt) ↔ AreIndexed index nodes
  unfolding check_nodes
  check_nodes-ok index [] = (λ _. tt, λ _. refl)
  check_nodes-ok index (node ∷ nodes) = ground (arith, check_nodes-ok (suc index) nodes)

  pub record IsLink (count : ℕ) (link : LinkInput d) : Type 0 where
    pub source_lt : link.source < count
    pub target_lt : link.target < count
    pub rate_positive : 0 < link.data_rate_bps
    pub delay_lower : d.less link.delay_ms d.nought ≡ false
    pub loss_lower : d.less link.loss_rate d.nought ≡ false
    pub loss_upper : d.less d.unit link.loss_rate ≡ false

  check_link-ok :
      (count : ℕ) (link : LinkInput d) → (check_link d count link ≡ ok tt) ↔ IsLink count link
  unfolding check_link
  check_link-ok count link = (
    λ e. record {
      source_lt = ground (arith, e);
      target_lt = ground (arith, e);
      rate_positive = ground (arith, e);
      delay_lower = ground (arith, e);
      loss_lower = ground (arith, e);
      loss_upper = ground (arith, e);
    },
    λ h. ground (
      arith, h.source_lt, h.target_lt, h.rate_positive, h.delay_lower, h.loss_lower, h.loss_upper,
    ),
  )

  check_links-ok :
      (count : ℕ) (links : List (LinkInput d))
      → (check_links d count links ≡ ok tt) ↔ All (IsLink count) links
  unfolding check_links
  check_links-ok count [] = (λ _. tt, λ _. refl)
  check_links-ok count (link ∷ links) =
      let (split, join) = then_ok (check_link d count link) (check_links d count links) in
      let (p, q) = check_link-ok count link in
      let (r, s) = check_links-ok count links in
      (λ e. let (a, b) = split e in (p a, r b), λ (a, b). join (q a, s b))

  pub record IsScenario (s : Scenario d) : Type 0 where
    pub node_count : length s.nodes ≡ s.expected_nodes
    pub link_count : length s.links ≡ s.expected_links
    pub flow_count : length s.flows ≡ s.expected_flows
    pub indexed : AreIndexed 0 s.nodes
    pub links : All (IsLink (length s.nodes)) s.links
    pub flows : All (IsFlow (length s.nodes)) s.flows

  -- `ValidateScenario` returns exactly for scenarios that have as many records as they announce,
  -- nodes in the order of their indexes from 0, links between known nodes with a positive rate, a
  -- delay not below 0.0 and a loss rate within [0, 1], and flows between known nodes with packets
  -- of at least 64 bytes, a positive interval and at least 100 ms.
  pub validate_scenario_lem : (s : Scenario d) → (validate_scenario d s ≡ ok tt) ↔ IsScenario s
  unfolding validate_scenario
  validate_scenario_lem s =
      let (split, join) =
        then_ok (check_nodes d 0 s.nodes >>= λ _. check_links d (length s.nodes) s.links)
          (check_flows (length s.nodes) s.flows) in
      let (split', join') =
        then_ok (check_nodes d 0 s.nodes) (check_links d (length s.nodes) s.links) in
      let by_nodes = check_nodes-ok 0 s.nodes in
      let by_links = check_links-ok (length s.nodes) s.links in
      let by_flows = check_flows-ok (length s.nodes) s.flows in
      (
        λ e.
            let counts : (length s.nodes ≡ s.expected_nodes)
                × (length s.links ≡ s.expected_links)
                × (length s.flows ≡ s.expected_flows) =
              ground (arith, e) in
            let (a, b) = split (ground (arith, e)) in
            let (p, q) = split' a in
            record {
              node_count = counts.0;
              link_count = counts.1;
              flow_count = counts.2;
              indexed = by_nodes.0 p;
              links = by_links.0 q;
              flows = by_flows.0 b;
            },
        λ h. ground (
          arith,
          h.node_count,
          h.link_count,
          h.flow_count,
          join (join' (by_nodes.1 h.indexed, by_links.1 h.links), by_flows.1 h.flows),
        ),
      )
