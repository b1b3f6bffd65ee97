-- ===== src/Runner/Examples.antt =====
-- Scenarios, checked and searched.
use afsim_ns.Base.{◌-◌, ◌^◌, ◌/◌, map, ℕ, ◌≡◌, ◌↔◌, refl, Bool, true, false, [], ◌∷◌, codes, ok}
use afsim_ns.Double.{fixed_point}
use afsim_ns.Runner.Scenario.{NodeInput, LinkInput, FlowInput, Scenario, validate_scenario}
use afsim_ns.Runner.Path.{is_alive, has_active_path}
use afsim_ns.Runner.Path.Correct.{Walk, has_active_path_lem}
use afsim_ns.Runner.Network.{
  Ns3, FlowStats, FlowResult, flow_port, measure, port_to_flow_index, flow_result, run_scenario,
}
use afsim_ns.Runner.Results.{run_scenario_lem, port_taken}
use afsim_ns.Runner.Parse.{to_uint64}
use afsim_ns.Runner.Valid.{IsScenario, validate_scenario_lem}

abbrev node : ℕ → Bool → NodeInput fixed_point
node index alive = record { index = index; x = 0; y = 0; z = 0; alive = alive }

abbrev link : ℕ → ℕ → ℕ → Bool → LinkInput fixed_point
link index source target up = record {
  index = index;
  source = source;
  target = target;
  data_rate_bps = 1000;
  delay_ms = 1;
  loss_rate = 0;
  up = up;
}

abbrev flow : FlowInput
flow = record {
  index = 0;
  source = 0;
  target = 2;
  packet_size_bytes = 100;
  interval_ms = 10;
  duration_ms = 1000;
  enabled = true;
}

-- A chain 0 - 1 - 2, and a dead node 3.
abbrev chain : Scenario fixed_point
chain = record {
  id = codes "s";
  expected_nodes = 4;
  expected_links = 3;
  expected_flows = 1;
  nodes = node 0 true ∷ node 1 true ∷ node 2 true ∷ node 3 false ∷ [];
  links = link 0 0 1 true ∷ link 1 2 1 true ∷ link 2 2 3 true ∷ [];
  flows = flow ∷ [];
}

chain-path : has_active_path fixed_point chain 0 2 ≡ true
unfolding has_active_path
chain-path = refl

dead-path : has_active_path fixed_point chain 0 3 ≡ false
unfolding has_active_path
dead-path = refl

chain-valid : validate_scenario fixed_point chain ≡ ok tt
unfolding validate_scenario
chain-valid = refl

has_active_path_lem_example : (has_active_path fixed_point chain 0 2 ≡ true) ↔ (
    (is_alive fixed_point chain.nodes 0 ≡ true)
    × (is_alive fixed_point chain.nodes 2 ≡ true)
    × ∥ Walk fixed_point chain.nodes chain.links 0 2 ∥₁)
has_active_path_lem_example = has_active_path_lem fixed_point chain 0 2

validate_scenario_lem_example :
    (validate_scenario fixed_point chain ≡ ok tt) ↔ IsScenario fixed_point chain
validate_scenario_lem_example = validate_scenario_lem fixed_point chain

-- Ten packets of the first flow, of which nine arrive.
abbrev stats : FlowStats ℕ
stats = record {
  tx_packets = 10;
  rx_packets = 9;
  rx_bytes = 900;
  delay_sum = 9;
  active_seconds = 0;
}

abbrev ns3 : Ns3 ℕ
ns3 = record {
  has_address = λ links node. true;
  simulate = λ links flows stop. (9000, (17, stats)) ∷ [];
}

abbrev result : FlowResult ℕ
result = record {
  index = 0;
  connected = true;
  latency_ms = 1000;
  loss_rate = 2 ^ 53 / 10;
  throughput_bps = 0;
  tx_packets = 10;
  rx_packets = 9;
}

run_scenario_lem_example :
    IsScenario fixed_point chain
    × (map {B = ℕ × Bool} (λ r. (r.index, r.connected)) (result ∷ []) ≡ (0, true) ∷ [])
unfolding run_scenario has_active_path
run_scenario_lem_example = run_scenario_lem fixed_point ns3 chain (result ∷ []) refl

port_taken_example :
    let measured =
      measure fixed_point
        (port_to_flow_index fixed_point (flow ∷ record flow { index = 50000 } ∷ []) [])
        ((9000, (17, stats)) ∷ [])
        [] in
    ((flow_result fixed_point chain measured flow).tx_packets ≡ 0)
    × ((flow_result fixed_point chain measured flow).rx_packets ≡ 0)
    × ((flow_result fixed_point chain measured flow).loss_rate ≡ 2 ^ 53)
unfolding flow_port
port_taken_example =
    port_taken fixed_point chain (flow ∷ []) [] flow (record flow { index = 50000 })
      ((9000, (17, stats)) ∷ []) refl refl tt

-- A sign is taken, and the number wraps around.
negative-number : to_uint64 (codes "-5") ≡ ok (2 ^ 64 - 5)
unfolding to_uint64
negative-number = refl
