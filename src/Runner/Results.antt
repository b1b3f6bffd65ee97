-- ===== src/Runner/Results.antt =====
-- What `RunScenario` reports of each flow.
use afsim_ns.Base.{
  ℕ, ◌≡◌, ◌≢◌, refl, ap, sym, ◌∙◌, Bool, false, ◌&&◌, List, [], ◌∷◌, ◌++◌, map, none, some, arith,
  ok, ◌==◌, ==_iff, All, Bool-cases, Option-cases, inl, inr, >>=-eq-ok, ok-injective,
}
use afsim_ns.Double.{Double}
use afsim_ns.Runner.Scenario.{FlowInput, Scenario, validate_scenario}
use afsim_ns.Runner.Path.{has_active_path}
use afsim_ns.Runner.Network.{
  Ns3, FlowStats, FlowResult, flow_port, find_number, port_to_flow_index, measure, measured_result,
  flow_result, run_scenario,
}
use afsim_ns.Runner.Valid.{IsScenario, validate_scenario_lem}

module _ (d : Double) where
  flow_result_head :
      (s : Scenario d) (measured : List (ℕ × FlowStats d.F)) (flow : FlowInput)
      → ◌≡◌ {A = ℕ × Bool}
          ((flow_result d s measured flow).index, (flow_result d s measured flow).connected)
          (flow.index, flow.enabled && has_active_path d s flow.source flow.target)
  unfolding flow_result measured_result
  flow_result_head s measured flow = elim (Option-cases (find_number flow.index measured)) [
    | inl e ↦ rw (e, flow_result) refl
    | inr (stats, e) ↦ rw (e, flow_result) refl
  ]

  map-flow_result :
      (s : Scenario d) (measured : List (ℕ × FlowStats d.F)) (flows : List FlowInput)
      → map {B = ℕ × Bool} (λ r. (r.index, r.connected)) (map (flow_result d s measured) flows)
        ≡ map (λ f. (f.index, f.enabled && has_active_path d s f.source f.target)) flows
  map-flow_result s measured [] = refl
  map-flow_result s measured (flow ∷ flows) =
      rw (flow_result_head s measured flow, map-flow_result s measured flows) refl

  -- A run that returns had a valid scenario. Its results name the flows of the scenario in their
  -- order, and each counts as connected exactly where the flow is enabled and a path joins its
  -- ends, whatever ns-3 has measured.
  pub run_scenario_lem :
      (ns3 : Ns3 d.F) (s : Scenario d) (results : List (FlowResult d.F))
      → run_scenario d ns3 s ≡ ok results
      → IsScenario d s
        × (map {B = ℕ × Bool} (λ r. (r.index, r.connected)) results
            ≡ map (λ f. (f.index, f.enabled && has_active_path d s f.source f.target)) s.flows)
  unfolding run_scenario
  run_scenario_lem ns3 s results e =
      let (done, valid, f) = >>=-eq-ok (validate_scenario d s) _ e in
      (
        (validate_scenario_lem d s).0 valid,
        ap (map (λ r. (r.index, r.connected))) (sym (ok-injective f)) ∙ map-flow_result s _ s.flows,
      )

  -- Each entry of the table stands under the port of its flow.
  abbrev OwnPorts : List (ℕ × ℕ) → Type 0
  OwnPorts = All (λ e. e.0 ≡ flow_port e.1)

  port_to_flow_index-OwnPorts :
      (flows : List FlowInput) (m : List (ℕ × ℕ))
      → OwnPorts m
      → OwnPorts (port_to_flow_index d flows m)
  unfolding port_to_flow_index
  port_to_flow_index-OwnPorts [] m h = h
  port_to_flow_index-OwnPorts (flow ∷ flows) m h =
      port_to_flow_index-OwnPorts flows ((flow_port flow.index, flow.index) ∷ m) (refl, h)

  find_number-own :
      (port k : ℕ) (m : List (ℕ × ℕ))
      → OwnPorts m
      → find_number port m ≡ some k
      → port ≡ flow_port k
  unfolding find_number
  find_number-own port k [] h e = cc
  find_number-own port k ((j, i) ∷ m) h e =
      ground (arith, ==_iff j port, find_number-own port k m h.1)

  -- Flows with other indexes do not put this index into the table.
  others_keep :
      (port k : ℕ) (flows : List FlowInput) (m : List (ℕ × ℕ))
      → All (λ g. (g.index == k) ≡ false) flows
      → find_number port (port_to_flow_index d flows m) ≡ some k
      → find_number port m ≡ some k
  unfolding port_to_flow_index find_number
  others_keep port k [] m h e = e
  others_keep port k (flow ∷ flows) m h e =
      let f = others_keep port k flows ((flow_port flow.index, flow.index) ∷ m) h.1 e in
      ground (arith, f, ==_iff flow.index k)

  port_to_flow_index-append :
      (front back : List FlowInput) (m : List (ℕ × ℕ))
      → port_to_flow_index d (front ++ back) m
        ≡ port_to_flow_index d back (port_to_flow_index d front m)
  unfolding port_to_flow_index
  port_to_flow_index-append [] back m = refl
  port_to_flow_index-append (flow ∷ front) back m =
      port_to_flow_index-append front back ((flow_port flow.index, flow.index) ∷ m)

  replaced :
      (front back : List FlowInput) (g : FlowInput) (k port : ℕ)
      → flow_port g.index ≡ flow_port k
      → (g.index == k) ≡ false
      → All (λ h. (h.index == k) ≡ false) back
      → find_number port (port_to_flow_index d (front ++ g ∷ back) []) ≢ some k
  unfolding find_number port_to_flow_index
  replaced front back g k port same differs others e =
      let table = port_to_flow_index d front [] in
      let e1 : find_number port (port_to_flow_index d (g ∷ back) table) ≡ some k =
        ap (find_number port) (sym (port_to_flow_index-append front (g ∷ back) [])) ∙ e in
      let e2 : find_number port ((flow_port g.index, g.index) ∷ table) ≡ some k =
        others_keep port k back ((flow_port g.index, g.index) ∷ table) others e1 in
      let own = find_number-own port k table (port_to_flow_index-OwnPorts front [] tt) in
      ground (arith, e2, own, ==_iff (flow_port g.index) port, ==_iff g.index k)

  measure-without :
      (k : ℕ) (ports : List (ℕ × ℕ)) (reports : List (ℕ × (ℕ × FlowStats d.F)))
      (measured : List (ℕ × FlowStats d.F))
      → ((port : ℕ) → find_number port ports ≢ some k)
      → find_number k measured ≡ none
      → find_number k (measure d ports reports measured) ≡ none
  unfolding measure find_number
  measure-without k ports [] measured h e = e
  measure-without k ports ((port, (protocol, stats)) ∷ reports) measured h e =
      measure-without k ports reports _ h (elim (Option-cases (find_number port ports)) [
        | inl p ↦ rw (p, find_number) e
        | inr (index, p) ↦ elim (Bool-cases (protocol == 17)) [
          | inr q ↦ rw (p, q) e
          | inl q ↦ rw (p, q) (ground (arith, h port, p, e, ==_iff index k))
        ]
      ])

  no_traffic :
      (s : Scenario d) (measured : List (ℕ × FlowStats d.F)) (flow : FlowInput)
      → find_number flow.index measured ≡ none
      → ((flow_result d s measured flow).tx_packets ≡ 0)
        × ((flow_result d s measured flow).rx_packets ≡ 0)
        × ((flow_result d s measured flow).loss_rate ≡ d.unit)
  unfolding flow_result
  no_traffic s measured flow e = rw (e, flow_result) (refl, refl, refl)

  -- Let a flow be followed, among the flows that are set up, by one of another index that gets the
  -- same port, and let no flow behind that one have the index of the first. Then the first flow is
  -- reported with no packets and a loss rate of 1.0, whatever ns-3 reports of the ports.
  pub port_taken :
      (s : Scenario d) (front back : List FlowInput) (flow g : FlowInput)
      (reports : List (ℕ × (ℕ × FlowStats d.F)))
      → flow_port g.index ≡ flow_port flow.index
      → (g.index == flow.index) ≡ false
      → All (λ h. (h.index == flow.index) ≡ false) back
      → let measured = measure d (port_to_flow_index d (front ++ g ∷ back) []) reports [] in
        ((flow_result d s measured flow).tx_packets ≡ 0)
        × ((flow_result d s measured flow).rx_packets ≡ 0)
        × ((flow_result d s measured flow).loss_rate ≡ d.unit)
  unfolding find_number
  port_taken s front back flow g reports same differs others = no_traffic s _ flow (
      measure-without flow.index _ reports []
        (λ port. replaced front back g flow.index port same differs others) refl)
