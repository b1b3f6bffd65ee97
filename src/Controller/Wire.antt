-- ===== src/Controller/Wire.antt =====
-- The messages of the controller, on the way through the stream.
use afsim_ns.Base.{ℕ, ◌≡◌, ◌≢◌, List, [], ◌∷◌, Bytes}
use afsim_ns.Double.{Double}
use afsim_ns.Protocol.{
  EntityState, FlowConfig, DeltaState, build_init_message, build_delta_message, write_envelope,
}
use afsim_ns.Protocol.Framing.{IsPlain, messages-IsPlain}
use afsim_ns.Tcp.{dispatch_lines}
use afsim_ns.Tcp.Stream.{stream, dispatch-stream}

module _ (d : Double) where
  build_init_message-ne-nil :
      (request_id : Bytes) (timestamp_ms : ℕ) (entities : List (EntityState d))
      (flows : List FlowConfig)
      → build_init_message d request_id timestamp_ms entities flows ≢ []
  unfolding build_init_message write_envelope
  build_init_message-ne-nil request_id timestamp_ms entities flows e = cc

  build_delta_message-ne-nil :
      (request_id : Bytes) (timestamp_ms : ℕ) (delta : DeltaState d)
      → build_delta_message d request_id timestamp_ms delta ≢ []
  unfolding build_delta_message write_envelope
  build_delta_message-ne-nil request_id timestamp_ms delta e = cc

  -- Let the text of each number be without control bytes. An initial message and a delta message
  -- that are queued one behind the other then come out of the stream as these two lines, with
  -- nothing left over, if the peer takes lines apart as the client does.
  pub dispatch-messages :
      ((value : d.F) → IsPlain (d.print value))
      → (request_id : Bytes) (timestamp_ms : ℕ) (entities : List (EntityState d))
        (flows : List FlowConfig) (delta : DeltaState d)
      → dispatch_lines (
          stream (
            build_init_message d request_id timestamp_ms entities flows
            ∷ build_delta_message d request_id timestamp_ms delta
            ∷ []))
        ≡ (
          build_init_message d request_id timestamp_ms entities flows
              ∷ build_delta_message d request_id timestamp_ms delta
              ∷ [],
          [],
        )
  dispatch-messages plain request_id timestamp_ms entities flows delta =
      let (initial, later) =
        messages-IsPlain d plain request_id timestamp_ms entities flows delta in
      dispatch-stream
        (build_init_message d request_id timestamp_ms entities flows
          ∷ build_delta_message d request_id timestamp_ms delta
          ∷ [])
        (
          (build_init_message-ne-nil request_id timestamp_ms entities flows, initial.bytes),
          ((build_delta_message-ne-nil request_id timestamp_ms delta, later.bytes), tt),
        )
