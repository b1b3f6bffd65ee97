-- ===== src/Controller/Submit.antt =====
-- The state of the controller, and the calls that queue state.
use afsim_ns.Base.{
  ℕ, Bool, true, false, not, List, [], ◌++◌, Bytes, codes, Result, ok, err, if◌then◌else◌,
}
use afsim_ns.Base.Map.{Map}
use afsim_ns.Double.{Double}
use afsim_ns.Protocol.{EntityState, FlowConfig, DeltaState, build_init_message, build_delta_message}
use afsim_ns.Delta.{StateDeltaTracker, StateError, new_tracker, reset, update, is_empty_delta}
use afsim_ns.Effects
use afsim_ns.Effects.{NetworkEffectGate, EffectDecision}
use afsim_ns.Transport
use afsim_ns.Transport.{MessageTransportGate}
use afsim_ns.Tcp.{Client, TcpClientConfig, ConfigError, new_client, queue_initial, queue_delta}

pub data StateSubmitResult : Type 0 where
  initial_queued delta_queued resync_queued no_change : StateSubmitResult

-- `std::tuple` of entity, subsystem type, subsystem and peer.
abbrev pub EffectKey : Type 0
EffectKey = Bytes × (Bytes × (Bytes × Bytes))

module _ (d : Double) where
  pub record AfsimBridgeController : Type 0 where
    pub client : Client
    pub delta_tracker : StateDeltaTracker d
    pub message_gate : MessageTransportGate d
    pub gate : NetworkEffectGate
    pub pending_effects : Map EffectKey EffectDecision

  with_client : Result ConfigError Client → Result ConfigError AfsimBridgeController
  with_client (err e) = err e
  with_client (ok client) = ok (record {
    client = client;
    delta_tracker = new_tracker d;
    message_gate = Transport.new_gate d;
    gate = Effects.new_gate;
    pending_effects = [];
  })

  -- The constructor; the line handler that it sets is `on_json_line`.
  unfoldable pub new_controller : TcpClientConfig → Result ConfigError AfsimBridgeController
  unfolding with_client new_client
  new_controller config = with_client (new_client config)

  unfoldable pub initial_reset :
      Bytes
      → ℕ
      → List (EntityState d)
      → List FlowConfig
      → AfsimBridgeController
      → StateDeltaTracker d × Result StateError (Unit {0})
      → AfsimBridgeController × Result StateError (Unit {0})
  unfolding queue_initial build_init_message
  initial_reset request_id timestamp_ms entities flows c (tracker, err e) =
      (record c { delta_tracker = tracker }, err e)
  initial_reset request_id timestamp_ms entities flows c (tracker, ok done) = (
    record c {
      client = queue_initial (build_init_message d request_id timestamp_ms entities flows) c.client;
      delta_tracker = tracker;
    },
    ok tt,
  )

  unfoldable pub submit_initial :
      Bytes
      → ℕ
      → List (EntityState d)
      → List FlowConfig
      → AfsimBridgeController
      → AfsimBridgeController × Result StateError (Unit {0})
  unfolding initial_reset reset
  submit_initial request_id timestamp_ms entities flows c =
      initial_reset request_id timestamp_ms entities flows c
        (reset d entities flows c.delta_tracker)

  unfoldable pub delta_reset :
      Bytes
      → ℕ
      → DeltaState d
      → List (EntityState d)
      → List FlowConfig
      → AfsimBridgeController
      → StateDeltaTracker d × Result StateError (Unit {0})
      → AfsimBridgeController × Result StateError Bool
  unfolding queue_delta build_init_message build_delta_message
  delta_reset request_id timestamp_ms delta entities flows c (tracker, err e) =
      (record c { delta_tracker = tracker }, err e)
  delta_reset request_id timestamp_ms delta entities flows c (tracker, ok done) =
      let delta_json = build_delta_message d request_id timestamp_ms delta in
      let resync_json =
        build_init_message d (request_id ++ codes "-resync") timestamp_ms entities flows in
      let (client, queued) = queue_delta delta_json resync_json c.client in
      (record c { client = client; delta_tracker = tracker }, ok queued)

  unfoldable pub submit_delta :
      Bytes
      → ℕ
      → DeltaState d
      → List (EntityState d)
      → List FlowConfig
      → AfsimBridgeController
      → AfsimBridgeController × Result StateError Bool
  unfolding delta_reset reset
  submit_delta request_id timestamp_ms delta entities flows c =
      delta_reset request_id timestamp_ms delta entities flows c
        (reset d entities flows c.delta_tracker)

  unfoldable pub initial_result :
      AfsimBridgeController × Result StateError (Unit {0})
      → AfsimBridgeController × Result StateError StateSubmitResult
  initial_result (c, err e) = (c, err e)
  initial_result (c, ok done) = (c, ok initial_queued)

  unfoldable pub delta_result :
      AfsimBridgeController × Result StateError Bool
      → AfsimBridgeController × Result StateError StateSubmitResult
  delta_result (c, err e) = (c, err e)
  delta_result (c, ok true) = (c, ok delta_queued)
  delta_result (c, ok false) = (c, ok resync_queued)

  unfoldable pub after_update :
      Bytes
      → ℕ
      → List (EntityState d)
      → List FlowConfig
      → AfsimBridgeController
      → StateDeltaTracker d × Result StateError (DeltaState d)
      → AfsimBridgeController × Result StateError StateSubmitResult
  unfolding is_empty_delta submit_delta delta_result
  after_update request_id timestamp_ms entities flows c (tracker, err e) =
      (record c { delta_tracker = tracker }, err e)
  after_update request_id timestamp_ms entities flows c (tracker, ok delta) =
      let updated : AfsimBridgeController = record c { delta_tracker = tracker } in
      if is_empty_delta d delta
      then (updated, ok no_change)
      else delta_result (submit_delta request_id timestamp_ms delta entities flows updated)

  unfoldable pub submit_current_state :
      Bytes
      → ℕ
      → List (EntityState d)
      → List FlowConfig
      → AfsimBridgeController
      → AfsimBridgeController × Result StateError StateSubmitResult
  unfolding submit_initial initial_result after_update update
  submit_current_state request_id timestamp_ms entities flows c =
      if not c.delta_tracker.initialized
      then initial_result (submit_initial request_id timestamp_ms entities flows c)
      else after_update request_id timestamp_ms entities flows c
          (update d entities flows c.delta_tracker)
