-- ===== src/Runner/Main.antt =====
-- `main`: the commands, one to a line. An error drops the scenario that was being read.
use afsim_ns.Base.{
  true, false, List, [], ◌∷◌, ◌++◌, Bytes, codes, Result, ok, err, ◌>>=◌, if◌then◌else◌, equals,
  bytes_ord, cmp_bytes,
}
use afsim_ns.Double.{Double}
use afsim_ns.Runner.Scenario.{
  NodeInput, LinkInput, FlowInput, Scenario, RunnerError, empty_scenario, invalid_scenario_line,
  invalid_node_line, invalid_link_line, invalid_flow_line, unknown_command,
}
use afsim_ns.Runner.Parse.{split_tabs, to_uint32, to_uint64, to_double, to_bool}
use afsim_ns.Runner.Network.{Ns3, FlowResult, run_scenario}

unfoldable pub flow_line : List Bytes → Result RunnerError FlowInput
unfolding to_uint32 to_bool
flow_line (p1 ∷ p2 ∷ p3 ∷ p4 ∷ p5 ∷ p6 ∷ p7 ∷ []) = do
  index ← to_uint32 p1
  source ← to_uint32 p2
  target ← to_uint32 p3
  size ← to_uint32 p4
  interval ← to_uint32 p5
  duration ← to_uint32 p6
  enabled ← to_bool p7
  ok (record {
    index = index;
    source = source;
    target = target;
    packet_size_bytes = size;
    interval_ms = interval;
    duration_ms = duration;
    enabled = enabled;
  })
flow_line _ = err invalid_flow_line

module _ (d : Double) where
  -- What one line writes: the results and "DONE", or "ERROR".
  pub data Output : Type 0 where
    results : List (FlowResult d.F) → Bytes → Output
    failed : RunnerError → Output

  unfoldable pub scenario_line : List Bytes → Result RunnerError (Scenario d)
  unfolding to_uint32
  scenario_line (id ∷ p2 ∷ p3 ∷ p4 ∷ []) = do
    nodes ← to_uint32 p2
    links ← to_uint32 p3
    flows ← to_uint32 p4
    ok (record (empty_scenario d) {
      id = id;
      expected_nodes = nodes;
      expected_links = links;
      expected_flows = flows;
    })
  scenario_line _ = err invalid_scenario_line

  unfoldable pub node_line : List Bytes → Result RunnerError (NodeInput d)
  unfolding to_uint32 to_double to_bool
  node_line (p1 ∷ p2 ∷ p3 ∷ p4 ∷ p5 ∷ []) = do
    index ← to_uint32 p1
    x ← to_double d p2
    y ← to_double d p3
    z ← to_double d p4
    alive ← to_bool p5
    ok (record { index = index; x = x; y = y; z = z; alive = alive })
  node_line _ = err invalid_node_line

  unfoldable pub link_line : List Bytes → Result RunnerError (LinkInput d)
  unfolding to_uint32 to_uint64 to_double to_bool
  link_line (p1 ∷ p2 ∷ p3 ∷ p4 ∷ p5 ∷ p6 ∷ p7 ∷ []) = do
    index ← to_uint32 p1
    source ← to_uint32 p2
    target ← to_uint32 p3
    rate ← to_uint64 p4
    delay ← to_double d p5
    loss ← to_double d p6
    up ← to_bool p7
    ok (record {
      index = index;
      source = source;
      target = target;
      data_rate_bps = rate;
      delay_ms = delay;
      loss_rate = loss;
      up = up;
    })
  link_line _ = err invalid_link_line

  -- The body of the `try`, on the parts of the line.
  unfoldable pub command :
      Ns3 d.F → Scenario d → List Bytes → Result RunnerError (Scenario d × List Output)
  unfolding scenario_line node_line link_line flow_line run_scenario cmp_bytes
  command ns3 s [] = ok (s, [])
  command ns3 s (name ∷ arguments) =
      if equals name (codes "SCENARIO")
      then (scenario_line arguments >>= λ t. ok (t, []))
      else if equals name (codes "NODE")
      then (node_line arguments >>= λ node. ok (record s { nodes = s.nodes ++ node ∷ [] }, []))
      else if equals name (codes "LINK")
      then (link_line arguments >>= λ link. ok (record s { links = s.links ++ link ∷ [] }, []))
      else if equals name (codes "FLOW")
      then (flow_line arguments >>= λ flow. ok (record s { flows = s.flows ++ flow ∷ [] }, []))
      else if equals name (codes "RUN")
      then (run_scenario d ns3 s >>= λ lines. ok (s, results lines s.id ∷ []))
      else err unknown_command

  -- The `catch`.
  recover : Result RunnerError (Scenario d × List Output) → Scenario d × List Output
  recover (ok done) = done
  recover (err e) = (empty_scenario d, failed e ∷ [])

  unfoldable pub step : Ns3 d.F → Scenario d → Bytes → Scenario d × List Output
  unfolding command split_tabs recover
  step ns3 s line = recover (command ns3 s (split_tabs line))

  -- The loop over the lines of the input, up to "QUIT".
  unfoldable pub run : Ns3 d.F → Scenario d → List Bytes → List Output
  unfolding step cmp_bytes
  run ns3 s [] = []
  run ns3 s (line ∷ lines) = elim (equals line (codes "QUIT")) [
    | true ↦ []
    | false ↦ let (t, written) = step ns3 s line in written ++ run ns3 t lines
  ]
