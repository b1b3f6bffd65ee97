-- ===== src/Runner/Network.antt =====
-- `RunScenario`: what is set up in ns-3, and the results that are read from it.
use afsim_ns.Base.{
  ℕ, ◌+◌, ◌-◌, ◌/◌, ◌%◌, ◌^◌, Bool, ◌&&◌, List, [], ◌∷◌, Option, none, some, Result, ok, ◌>>=◌, ltb,
  ◌==◌, if◌then◌else◌, map,
}
use Prim.Native.Nat.{max}
use afsim_ns.Double.{Double}
use afsim_ns.Runner.Scenario.{
  NodeInput, LinkInput, FlowInput, Scenario, RunnerError, validate_scenario,
}
use afsim_ns.Runner.Path.{is_alive, is_usable, has_active_path}

-- A pair of point-to-point devices in the subnet 10.`second_octet`.`third_octet`.0.
pub record InstalledLink (F : Type 0) : Type 0 where
  pub source : ℕ
  pub target : ℕ
  pub data_rate_bps : ℕ
  pub delay_ms : F
  pub loss_rate : F
  pub second_octet : ℕ
  pub third_octet : ℕ

-- A UDP server and its client; the times are in milliseconds.
pub record InstalledFlow : Type 0 where
  pub source : ℕ
  pub target : ℕ
  pub port : ℕ
  pub max_packets : ℕ
  pub interval_ms : ℕ
  pub packet_size_bytes : ℕ
  pub client_stop_ms : ℕ
  pub server_stop_ms : ℕ

-- `FlowMonitor::FlowStats`, the times in seconds; `active_seconds` is the time from the first
-- packet sent to the last one received.
pub record FlowStats (F : Type 0) : Type 0 where
  pub tx_packets : ℕ
  pub rx_packets : ℕ
  pub rx_bytes : ℕ
  pub delay_sum : F
  pub active_seconds : F

-- ns-3: which nodes have an address that `FirstNodeAddress` finds, and what the flow monitor and
-- its classifier report, as (destination port, protocol, statistics) in the order of the flow
-- identifiers.
pub record Ns3 (F : Type 0) : Type 0 where
  pub has_address : List (InstalledLink F) → ℕ → Bool
  pub simulate : List (InstalledLink F) → List InstalledFlow → ℕ → List (ℕ × (ℕ × FlowStats F))

pub record FlowResult (F : Type 0) : Type 0 where
  pub index : ℕ
  pub connected : Bool
  pub latency_ms : F
  pub loss_rate : F
  pub throughput_bps : F
  pub tx_packets : ℕ
  pub rx_packets : ℕ

-- `static_cast<uint16_t>(9000 + (flow.index % 50000))`
unfoldable pub flow_port : ℕ → ℕ
flow_port index = (9000 + index % 50000) % 2 ^ 16

-- `m[k]` of a map with numbers as keys: the entry that was written last stands first.
unfoldable pub find_number {ℓ} : {V : Type ℓ} → ℕ → List (ℕ × V) → Option V
find_number k [] = none
find_number k ((j, v) ∷ m) = if j == k then some v else find_number k m

-- The sum `100 + flow.durationMs + n` in 32 bits.
abbrev add32 : ℕ → ℕ → ℕ
add32 a b = (a + b) % 2 ^ 32

unfoldable pub installed_flow : FlowInput → InstalledFlow
unfolding flow_port
installed_flow flow = record {
  source = flow.source;
  target = flow.target;
  port = flow_port flow.index;
  max_packets = max 1 (flow.duration_ms / flow.interval_ms);
  interval_ms = flow.interval_ms;
  packet_size_bytes = flow.packet_size_bytes;
  client_stop_ms = add32 100 flow.duration_ms;
  server_stop_ms = add32 (add32 100 flow.duration_ms) 200;
}

module _ (d : Double) where
  unfoldable pub installed_link : LinkInput d → InstalledLink d.F
  installed_link link = record {
    source = link.source;
    target = link.target;
    data_rate_bps = link.data_rate_bps;
    delay_ms = link.delay_ms;
    loss_rate = link.loss_rate;
    second_octet = (1 + link.index / 256) % 2 ^ 32;
    third_octet = link.index % 256;
  }

  -- The first loop over the links.
  unfoldable pub install_links : List (NodeInput d) → List (LinkInput d) → List (InstalledLink d.F)
  unfolding is_usable installed_link
  install_links nodes [] = []
  install_links nodes (link ∷ links) =
      if is_usable d nodes link
      then installed_link link ∷ install_links nodes links
      else install_links nodes links

  module _ (ns3 : Ns3 d.F) where
    -- The flow is not skipped by a `continue`.
    unfoldable pub is_installed : List (NodeInput d) → List (InstalledLink d.F) → FlowInput → Bool
    is_installed nodes links flow =
        flow.enabled
        && is_alive d nodes flow.source
        && is_alive d nodes flow.target
        && ns3.has_address links flow.target

    -- The flows that the loop installs.
    unfoldable pub install_flows :
        List (NodeInput d) → List (InstalledLink d.F) → List FlowInput → List FlowInput
    unfolding is_installed
    install_flows nodes links [] = []
    install_flows nodes links (flow ∷ flows) =
        if is_installed nodes links flow
        then flow ∷ install_flows nodes links flows
        else install_flows nodes links flows

  -- `portToFlowIndex`: a later flow with the same port replaces an earlier one.
  unfoldable pub port_to_flow_index : List FlowInput → List (ℕ × ℕ) → List (ℕ × ℕ)
  unfolding flow_port
  port_to_flow_index [] m = m
  port_to_flow_index (flow ∷ flows) m =
      port_to_flow_index flows ((flow_port flow.index, flow.index) ∷ m)

  -- `stopSeconds`, in milliseconds; the sum is of doubles.
  unfoldable pub stop_ms : List FlowInput → ℕ → ℕ
  stop_ms [] stop = stop
  stop_ms (flow ∷ flows) stop = stop_ms flows (max stop (100 + flow.duration_ms + 200))

  -- `measured`, by the index of the flow.
  unfoldable pub measure :
      List (ℕ × ℕ)
      → List (ℕ × (ℕ × FlowStats d.F))
      → List (ℕ × FlowStats d.F)
      → List (ℕ × FlowStats d.F)
  unfolding find_number
  measure ports [] measured = measured
  measure ports ((port, (protocol, stats)) ∷ reports) measured =
      measure ports reports (elim (find_number port ports) [
        | none ↦ measured
        | some index ↦ if protocol == 17 then (index, stats) ∷ measured else measured
      ])

  -- The quotients of the statistics.
  unfoldable pub measured_result : ℕ → Bool → FlowStats d.F → FlowResult d.F
  measured_result index connected stats = record {
    index = index;
    connected = connected;
    latency_ms =
        if ltb 0 stats.rx_packets
        then d.divide (d.times stats.delay_sum (d.of_uint64 1000)) (d.of_uint64 stats.rx_packets)
        else d.nought;
    loss_rate =
        if ltb 0 stats.tx_packets
        then d.divide (d.of_uint64 ((stats.tx_packets + 2 ^ 64 - stats.rx_packets) % 2 ^ 64))
            (d.of_uint64 stats.tx_packets)
        else d.unit;
    throughput_bps =
        if ltb 0 stats.rx_packets && d.less d.nought stats.active_seconds
        then d.divide (d.times (d.of_uint64 stats.rx_bytes) (d.of_uint64 8)) stats.active_seconds
        else d.nought;
    tx_packets = stats.tx_packets;
    rx_packets = stats.rx_packets;
  }

  -- The body of the loop that writes the results.
  unfoldable pub flow_result : Scenario d → List (ℕ × FlowStats d.F) → FlowInput → FlowResult d.F
  unfolding has_active_path find_number measured_result
  flow_result s measured flow =
      let connected = flow.enabled && has_active_path d s flow.source flow.target in
      elim (find_number flow.index measured) [
        | none ↦ record {
          index = flow.index;
          connected = connected;
          latency_ms = d.nought;
          loss_rate = d.unit;
          throughput_bps = d.nought;
          tx_packets = 0;
          rx_packets = 0;
        }
        | some stats ↦ measured_result flow.index connected stats
      ]

  -- The lines "RESULT".
  unfoldable pub run_scenario : Ns3 d.F → Scenario d → Result RunnerError (List (FlowResult d.F))
  unfolding validate_scenario install_links install_flows port_to_flow_index stop_ms measure
      flow_result installed_flow
  run_scenario ns3 s = validate_scenario d s >>= λ _.
      let links = install_links s.nodes s.links in
      let flows = install_flows ns3 s.nodes links s.flows in
      let reports = ns3.simulate links (map installed_flow flows) (stop_ms flows 500) in
      let measured = measure (port_to_flow_index flows []) reports [] in
      ok (map (flow_result s measured) s.flows)
