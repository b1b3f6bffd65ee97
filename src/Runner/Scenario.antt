-- ===== src/Runner/Scenario.antt =====
-- The records of a scenario, the errors, and `ValidateScenario`.
use afsim_ns.Base.{
  ℕ, suc, Bool, not, ◌||◌, List, [], ◌∷◌, Bytes, Result, ok, err, ◌>>=◌, leb, ltb, ◌==◌,
  if◌then◌else◌, length,
}
use afsim_ns.Double.{Double}

-- The texts of the exceptions; `stoull` and `stod` throw their own.
pub data RunnerError : Type 0 where
  uint32_range not_zero_or_one number_error : RunnerError
  record_count_mismatch indexes_not_contiguous : RunnerError
  link_unknown_node invalid_link flow_unknown_node invalid_flow : RunnerError
  invalid_scenario_line invalid_node_line invalid_link_line invalid_flow_line : RunnerError
  unknown_command : RunnerError

pub record FlowInput : Type 0 where
  pub index : ℕ
  pub source : ℕ
  pub target : ℕ
  pub packet_size_bytes : ℕ
  pub interval_ms : ℕ
  pub duration_ms : ℕ
  pub enabled : Bool

module _ (d : Double) where
  pub record NodeInput : Type 0 where
    pub index : ℕ
    pub x : d.F
    pub y : d.F
    pub z : d.F
    pub alive : Bool

  pub record LinkInput : Type 0 where
    pub index : ℕ
    pub source : ℕ
    pub target : ℕ
    pub data_rate_bps : ℕ
    pub delay_ms : d.F
    pub loss_rate : d.F
    pub up : Bool

  pub record Scenario : Type 0 where
    pub id : Bytes
    pub expected_nodes : ℕ
    pub expected_links : ℕ
    pub expected_flows : ℕ
    pub nodes : List NodeInput
    pub links : List LinkInput
    pub flows : List FlowInput

  -- `Scenario{}`
  abbrev pub empty_scenario : Scenario
  empty_scenario = record {
    id = [];
    expected_nodes = 0;
    expected_links = 0;
    expected_flows = 0;
    nodes = [];
    links = [];
    flows = [];
  }

  -- The loop over the nodes, from `index`.
  unfoldable pub check_nodes : ℕ → List NodeInput → Result RunnerError (Unit {0})
  check_nodes index [] = ok tt
  check_nodes index (node ∷ nodes) =
      if node.index == index then check_nodes (suc index) nodes else err indexes_not_contiguous

  unfoldable pub check_link : ℕ → LinkInput → Result RunnerError (Unit {0})
  check_link count link =
      if leb count link.source || leb count link.target
      then err link_unknown_node
      else if link.data_rate_bps == 0
          || d.less link.delay_ms d.nought
          || d.less link.loss_rate d.nought
          || d.less d.unit link.loss_rate
      then err invalid_link
      else ok tt

  unfoldable pub check_links : ℕ → List LinkInput → Result RunnerError (Unit {0})
  unfolding check_link
  check_links count [] = ok tt
  check_links count (link ∷ links) = check_link count link >>= λ _. check_links count links

unfoldable pub check_flow : ℕ → FlowInput → Result RunnerError (Unit {0})
check_flow count flow =
    if leb count flow.source || leb count flow.target
    then err flow_unknown_node
    else if ltb flow.packet_size_bytes 64 || flow.interval_ms == 0 || ltb flow.duration_ms 100
    then err invalid_flow
    else ok tt

unfoldable pub check_flows : ℕ → List FlowInput → Result RunnerError (Unit {0})
unfolding check_flow
check_flows count [] = ok tt
check_flows count (flow ∷ flows) = check_flow count flow >>= λ _. check_flows count flows

module _ (d : Double) where
  unfoldable pub validate_scenario : Scenario d → Result RunnerError (Unit {0})
  unfolding check_nodes check_links check_flows
  validate_scenario s =
      if not (length s.nodes == s.expected_nodes)
        || not (length s.links == s.expected_links)
        || not (length s.flows == s.expected_flows)
      then err record_count_mismatch
      else (check_nodes d 0 s.nodes >>= λ _.
          check_links d (length s.nodes) s.links >>= λ _. check_flows (length s.nodes) s.flows)
