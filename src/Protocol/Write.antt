-- ===== src/Protocol/Write.antt =====
-- The writers. A number is written in decimal, a `double` as the stream writes it.
use afsim_ns.Base.{
  ℕ, zero, suc, ◌+◌, ◌-◌, ◌/◌, ◌%◌, Bool, true, false, List, [], ◌∷◌, ◌++◌, Bytes, codes, ltb, ◌==◌,
  if◌then◌else◌,
}
use afsim_ns.Double.{Double}
use afsim_ns.Protocol.State.{DeviceConfig, EffectPolicy, EntityState, FlowConfig, DeltaState}

-- One digit of `std::hex`.
hex_digit : ℕ → ℕ
hex_digit n = if ltb n 10 then b'0' + n else b'a' + (n - 10)

-- The body of the loop of `Quote`.
unfoldable pub quote_byte : ℕ → Bytes
unfolding hex_digit
quote_byte c =
    if c == b'"'
    then b'\\' ∷ b'"' ∷ []
    else if c == b'\\'
    then b'\\' ∷ b'\\' ∷ []
    else if c == 8
    then b'\\' ∷ b'b' ∷ []
    else if c == 12
    then b'\\' ∷ b'f' ∷ []
    else if c == 10
    then b'\\' ∷ b'n' ∷ []
    else if c == 13
    then b'\\' ∷ b'r' ∷ []
    else if c == 9
    then b'\\' ∷ b't' ∷ []
    else if ltb c 0x20
    then b'\\' ∷ b'u' ∷ b'0' ∷ b'0' ∷ hex_digit (c / 16) ∷ hex_digit (c % 16) ∷ []
    else c ∷ []

unfoldable pub quote_body : Bytes → Bytes
unfolding quote_byte
quote_body [] = []
quote_body (c ∷ value) = quote_byte c ++ quote_body value

unfoldable pub quote : Bytes → Bytes
unfolding quote_body
quote value = b'"' ∷ (quote_body value ++ b'"' ∷ [])

unfoldable pub boolean : Bool → Bytes
boolean true = codes "true"
boolean false = codes "false"

-- The digits of `n` before `tail`. A `std::uint64_t` has 20 digits at most.
unfoldable pub decimal_from : ℕ → ℕ → Bytes → Bytes
decimal_from zero n tail = tail
decimal_from (suc digits) n tail = elim (ltb n 10) [
  | true ↦ (b'0' + n) ∷ tail
  | false ↦ decimal_from digits (n / 10) ((b'0' + n % 10) ∷ tail)
]

-- `output << n` for an unsigned integer
unfoldable pub decimal : ℕ → Bytes
unfolding decimal_from
decimal n = decimal_from 20 n []

unfoldable pub write_rest {ℓ} : {A : Type ℓ} → (A → Bytes) → List A → Bytes
write_rest writer [] = []
write_rest writer (value ∷ values) = b',' ∷ (writer value ++ write_rest writer values)

unfoldable pub write_items {ℓ} : {A : Type ℓ} → (A → Bytes) → List A → Bytes
unfolding write_rest
write_items writer [] = []
write_items writer (value ∷ values) = writer value ++ write_rest writer values

unfoldable pub write_array {ℓ} : {A : Type ℓ} → (A → Bytes) → List A → Bytes
unfolding write_items
write_array writer values = b'[' ∷ (write_items writer values ++ b']' ∷ [])

-- The texts between two values of a line.
unfoldable pub write_flow : FlowConfig → Bytes
unfolding quote boolean decimal
write_flow flow =
    codes "{\"flow_id\":"
    ++ quote flow.flow_id
    ++ codes ",\"source_entity_id\":"
    ++ quote flow.source_entity_id
    ++ codes ",\"target_entity_id\":"
    ++ quote flow.target_entity_id
    ++ codes ",\"packet_size_bytes\":"
    ++ decimal flow.packet_size_bytes
    ++ codes ",\"interval_ms\":"
    ++ decimal flow.interval_ms
    ++ codes ",\"duration_ms\":"
    ++ decimal flow.duration_ms
    ++ codes ",\"active\":"
    ++ boolean flow.active
    ++ codes "}"

unfoldable pub write_strings : List Bytes → Bytes
unfolding write_array quote
write_strings values = write_array quote values

unfoldable pub write_envelope : Bytes → Bytes → ℕ → Bytes
unfolding quote decimal
write_envelope message_type request_id timestamp_ms =
    codes "{\"protocol_version\":\"0.2\",\"message_type\":"
    ++ quote message_type
    ++ codes ",\"request_id\":"
    ++ quote request_id
    ++ codes ",\"timestamp_ms\":"
    ++ decimal timestamp_ms

module _ (d : Double) where
  unfoldable pub write_device : DeviceConfig d → Bytes
  unfolding quote decimal
  write_device device =
      codes "{\"device_id\":"
      ++ quote device.device_id
      ++ codes ",\"peer_entity_id\":"
      ++ quote device.peer_entity_id
      ++ codes ",\"kind\":"
      ++ quote device.kind
      ++ codes ",\"data_rate_bps\":"
      ++ decimal device.data_rate_bps
      ++ codes ",\"delay_ms\":"
      ++ d.print device.delay_ms
      ++ codes ",\"loss_rate\":"
      ++ d.print device.loss_rate
      ++ codes ",\"link_state\":"
      ++ quote device.link_state
      ++ codes "}"

  unfoldable pub write_policy : EffectPolicy d → Bytes
  unfolding quote
  write_policy policy =
      codes "{\"subsystem_id\":"
      ++ quote policy.subsystem_id
      ++ codes ",\"subsystem_type\":"
      ++ quote policy.subsystem_type
      ++ codes ",\"peer_entity_id\":"
      ++ quote policy.peer_entity_id
      ++ codes ",\"max_delay_ms\":"
      ++ d.print policy.max_delay_ms
      ++ codes ",\"max_loss_rate\":"
      ++ d.print policy.max_loss_rate
      ++ codes ",\"min_throughput_bps\":"
      ++ d.print policy.min_throughput_bps
      ++ codes ",\"violation_state\":"
      ++ quote policy.violation_state
      ++ codes "}"

  unfoldable pub write_parent : Bool → Bytes → Bytes
  unfolding quote
  write_parent true parent_entity_id = quote parent_entity_id
  write_parent false parent_entity_id = codes "null"

  unfoldable pub write_entity : EntityState d → Bytes
  unfolding quote boolean write_parent write_array write_device write_policy
  write_entity entity =
      codes "{\"entity_id\":"
      ++ quote entity.entity_id
      ++ codes ",\"business_node_id\":"
      ++ quote entity.business_node_id
      ++ codes ",\"parent_entity_id\":"
      ++ write_parent entity.has_parent entity.parent_entity_id
      ++ codes ",\"position\":{\"x_m\":"
      ++ d.print entity.position.x_m
      ++ codes ",\"y_m\":"
      ++ d.print entity.position.y_m
      ++ codes ",\"z_m\":"
      ++ d.print entity.position.z_m
      ++ codes "}"
      ++ codes ",\"velocity\":{\"vx_mps\":"
      ++ d.print entity.velocity.vx_mps
      ++ codes ",\"vy_mps\":"
      ++ d.print entity.velocity.vy_mps
      ++ codes ",\"vz_mps\":"
      ++ d.print entity.velocity.vz_mps
      ++ codes "}"
      ++ codes ",\"heading_deg\":"
      ++ d.print entity.heading_deg
      ++ codes ",\"alive\":"
      ++ boolean entity.alive
      ++ codes ",\"devices\":"
      ++ write_array write_device entity.devices
      ++ codes ",\"effect_policies\":"
      ++ write_array write_policy entity.effect_policies
      ++ codes "}"

  unfoldable pub build_init_message : Bytes → ℕ → List (EntityState d) → List FlowConfig → Bytes
  unfolding write_envelope write_array write_entity write_flow
  build_init_message request_id timestamp_ms entities flows =
      write_envelope (codes "afsim_init") request_id timestamp_ms
      ++ codes ",\"entities\":"
      ++ write_array write_entity entities
      ++ codes ",\"flows\":"
      ++ write_array write_flow flows
      ++ codes "}"

  unfoldable pub build_delta_message : Bytes → ℕ → DeltaState d → Bytes
  unfolding write_envelope write_array write_entity write_flow write_strings
  build_delta_message request_id timestamp_ms delta =
      write_envelope (codes "afsim_delta") request_id timestamp_ms
      ++ codes ",\"entity_upserts\":"
      ++ write_array write_entity delta.entity_upserts
      ++ codes ",\"entity_removals\":"
      ++ write_strings delta.entity_removals
      ++ codes ",\"flow_upserts\":"
      ++ write_array write_flow delta.flow_upserts
      ++ codes ",\"flow_removals\":"
      ++ write_strings delta.flow_removals
      ++ codes "}"
