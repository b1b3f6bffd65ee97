-- ===== src/Extension/State.antt =====
-- The members of `BridgeSimulationExtension`, and the records that it keeps.
use afsim_ns.Base.{ℕ, Bool, false, [], Bytes, Option, none, Result, ok, err}
use afsim_ns.Base.Map.{Map}
use afsim_ns.Double.{Double}
use afsim_ns.Double.Math.{Math}
use afsim_ns.Geo.{LocalEnuFrame}
use afsim_ns.Tcp.{ConfigError, TcpClientConfig}
use afsim_ns.Controller.{AfsimBridgeController, new_controller}
use afsim_ns.Extension.Config.{Environment, RuntimeConfig, runtime_config}
use afsim_ns.Extension.Afsim.{Comm}

abbrev pub LinkKey : Type 0
LinkKey = Comm × Comm

abbrev pub MessageKey : Type 0
MessageKey = Comm × ℕ

abbrev pub FlowKey : Type 0
FlowKey = Bytes × (Bytes × (Bytes × (Bytes × (Bytes × Bytes))))

-- A `std::set`.
abbrev pub Set : Type 0 → Type 0
Set K = Map K (Unit {0})

module _ (d : Double) where
  pub record LinkObservation : Type 0 where
    pub completed : ℕ
    pub failures : ℕ
    pub delay_total_ms : d.F
    pub delay_samples : ℕ
    pub last_data_rate_bps : ℕ
    pub last_delay_ms : d.F
    pub last_loss_rate : d.F
    pub has_data_rate : Bool
    pub has_delay : Bool
    pub has_loss : Bool

  abbrev pub new_observation : LinkObservation
  new_observation = record {
    completed = 0;
    failures = 0;
    delay_total_ms = d.nought;
    delay_samples = 0;
    last_data_rate_bps = 0;
    last_delay_ms = d.nought;
    last_loss_rate = d.nought;
    has_data_rate = false;
    has_delay = false;
    has_loss = false;
  }

  pub record ObservedFlow : Type 0 where
    pub flow_id : Bytes
    pub source_entity_id : Bytes
    pub target_entity_id : Bytes
    pub packet_size_bytes : ℕ
    pub interval_ms : ℕ
    pub duration_ms : ℕ
    pub last_seen_time : d.F
    pub last_serial : ℕ
    pub has_serial : Bool

  -- A flow as its members initialise it.
  abbrev pub new_flow : Math d → ObservedFlow
  new_flow m = record {
    flow_id = [];
    source_entity_id = [];
    target_entity_id = [];
    packet_size_bytes = 64;
    interval_ms = 1;
    duration_ms = 100;
    last_seen_time = m.negate d.unit;
    last_serial = 0;
    has_serial = false;
  }

  pub record Extension : Type 0 where
    pub config : RuntimeConfig d
    pub controller : AfsimBridgeController d
    pub enu_frame : Option (LocalEnuFrame d)
    -- whether the callbacks are connected
    pub subscribed : Bool
    pub configured_data_rates : Map Comm ℕ
    pub link_observations : Map LinkKey LinkObservation
    pub transmit_times : Map MessageKey d.F
    pub externally_gated : Set MessageKey
    pub externally_dropped : Set MessageKey
    pub observed_flows : Map FlowKey ObservedFlow
    pub run_id : Bytes
    pub tick_count : ℕ
    pub stopping : Bool

  unfoldable pub with_controller :
      RuntimeConfig d
      → Bytes
      → Result ConfigError (AfsimBridgeController d)
      → Result ConfigError Extension
  with_controller config run_id (err e) = err e
  with_controller config run_id (ok controller) = ok (record {
    config = config;
    controller = controller;
    enu_frame = none;
    subscribed = false;
    configured_data_rates = [];
    link_observations = [];
    transmit_times = [];
    externally_gated = [];
    externally_dropped = [];
    observed_flows = [];
    run_id = run_id;
    tick_count = 0;
    stopping = false;
  })

  unfoldable pub client_config : RuntimeConfig d → TcpClientConfig
  client_config config = record {
    host = config.host;
    port = config.port;
    connect_timeout_ms = 250;
    reconnect_delay_ms = 250;
    max_pending_messages = 32;
  }

  -- The constructor; the text of the clock stands in `run_id`.
  unfoldable pub new_extension : Math d → Environment → Bytes → Result ConfigError Extension
  unfolding runtime_config new_controller with_controller client_config
  new_extension m env run_id =
      let config = runtime_config d m env in
      with_controller config run_id (new_controller d (client_config config))
