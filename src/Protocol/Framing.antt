-- ===== src/Protocol/Framing.antt =====
-- No line break stands inside a message.
use afsim_ns.Base.{
  ℕ, zero, suc, ◌+◌, ◌≤◌, ◌≡◌, refl, Bool, true, false, List, [], ◌∷◌, ◌++◌, Bytes, codes, arith,
  All, All-append, leb, ltb, ◌&&◌, ◌/◌, ◌%◌, Bool-cases, inl, inr,
}
use afsim_ns.Double.{Double}
use afsim_ns.Protocol.State.{DeviceConfig, EffectPolicy, EntityState, FlowConfig, DeltaState}
use afsim_ns.Protocol.Write.{
  quote_byte, quote_body, quote, boolean, decimal_from, decimal, write_rest, write_items,
  write_array, write_flow, write_strings, write_envelope, write_device, write_policy, write_parent,
  write_entity, build_init_message, build_delta_message,
}

-- No control byte.
pub record IsPlain (s : Bytes) : Type 0 where
  pub bytes : All (λ c. 0x20 ≤ c) s

infixl 40 ◌then_plain◌
◌then_plain◌ : {s t : Bytes} → IsPlain s → IsPlain t → IsPlain (s ++ t)
◌then_plain◌ {s} {t} p q = record { bytes = All-append (λ c. 0x20 ≤ c) s t p.bytes q.bytes }

abbrev plain_bytes : Bytes → Bool
plain_bytes [] = true
plain_bytes (c ∷ s) = leb 0x20 c && plain_bytes s

-- For a literal.
IsPlain-text : (s : Bytes) → plain_bytes s ≡ true → IsPlain s
IsPlain-text [] h = record { bytes = tt }
IsPlain-text (c ∷ s) h = record { bytes = (ground arith, (IsPlain-text s (ground arith)).bytes) }

quote_byte_plain : (c : ℕ) → All (λ b. 0x20 ≤ b) (quote_byte c)
unfolding quote_byte
quote_byte_plain c = ground arith

quote_byte-IsPlain : (c : ℕ) → IsPlain (quote_byte c)
quote_byte-IsPlain c = record { bytes = quote_byte_plain c }

quote_body-IsPlain : (value : Bytes) → IsPlain (quote_body value)
unfolding quote_body
quote_body-IsPlain [] = IsPlain-text [] refl
quote_body-IsPlain (c ∷ value) = quote_byte-IsPlain c then_plain quote_body-IsPlain value

cons-IsPlain : (c : ℕ) (s : Bytes) → leb 0x20 c ≡ true → IsPlain s → IsPlain (c ∷ s)
cons-IsPlain c s h p = record { bytes = (ground arith, p.bytes) }

quote-IsPlain : (value : Bytes) → IsPlain (quote value)
unfolding quote
quote-IsPlain value =
    cons-IsPlain b'"' _ refl (quote_body-IsPlain value then_plain IsPlain-text (b'"' ∷ []) refl)

decimal_from-IsPlain :
    (digits n : ℕ) (tail : Bytes) → IsPlain tail → IsPlain (decimal_from digits n tail)
unfolding decimal_from
decimal_from-IsPlain zero n tail h = h
decimal_from-IsPlain (suc digits) n tail h = elim (Bool-cases (ltb n 10)) [
  | inl e ↦ rw (e, decimal_from) (cons-IsPlain (b'0' + n) tail (ground arith) h)
  | inr e ↦
      rw (e, decimal_from)
        (decimal_from-IsPlain digits (n / 10) _
          (cons-IsPlain (b'0' + n % 10) tail (ground arith) h))
]

decimal-IsPlain : (n : ℕ) → IsPlain (decimal n)
unfolding decimal
decimal-IsPlain n = decimal_from-IsPlain 20 n [] (IsPlain-text [] refl)

boolean-IsPlain : (b : Bool) → IsPlain (boolean b)
unfolding boolean
boolean-IsPlain true = IsPlain-text (codes "true") refl
boolean-IsPlain false = IsPlain-text (codes "false") refl

write_flow-IsPlain : (flow : FlowConfig) → IsPlain (write_flow flow)
unfolding write_flow
write_flow-IsPlain flow =
    IsPlain-text (codes "{\"flow_id\":") refl
    then_plain quote-IsPlain flow.flow_id
    then_plain IsPlain-text (codes ",\"source_entity_id\":") refl
    then_plain quote-IsPlain flow.source_entity_id
    then_plain IsPlain-text (codes ",\"target_entity_id\":") refl
    then_plain quote-IsPlain flow.target_entity_id
    then_plain IsPlain-text (codes ",\"packet_size_bytes\":") refl
    then_plain decimal-IsPlain flow.packet_size_bytes
    then_plain IsPlain-text (codes ",\"interval_ms\":") refl
    then_plain decimal-IsPlain flow.interval_ms
    then_plain IsPlain-text (codes ",\"duration_ms\":") refl
    then_plain decimal-IsPlain flow.duration_ms
    then_plain IsPlain-text (codes ",\"active\":") refl
    then_plain boolean-IsPlain flow.active
    then_plain IsPlain-text (codes "}") refl

module _ {A : Type 0} (writer : A → Bytes) (plain : (value : A) → IsPlain (writer value)) where
  write_rest-IsPlain : (values : List A) → IsPlain (write_rest writer values)
  unfolding write_rest
  write_rest-IsPlain [] = IsPlain-text [] refl
  write_rest-IsPlain (value ∷ values) =
      cons-IsPlain b',' _ refl (plain value then_plain write_rest-IsPlain values)

  write_items-IsPlain : (values : List A) → IsPlain (write_items writer values)
  unfolding write_items
  write_items-IsPlain [] = IsPlain-text [] refl
  write_items-IsPlain (value ∷ values) = plain value then_plain write_rest-IsPlain values

  write_array-IsPlain : (values : List A) → IsPlain (write_array writer values)
  unfolding write_array
  write_array-IsPlain values =
      cons-IsPlain b'[' _ refl (write_items-IsPlain values then_plain IsPlain-text (b']' ∷ []) refl)

write_strings-IsPlain : (values : List Bytes) → IsPlain (write_strings values)
unfolding write_strings
write_strings-IsPlain values = write_array-IsPlain quote quote-IsPlain values

write_envelope-IsPlain :
    (message_type request_id : Bytes) (timestamp_ms : ℕ)
    → IsPlain (write_envelope message_type request_id timestamp_ms)
unfolding write_envelope
write_envelope-IsPlain message_type request_id timestamp_ms =
    IsPlain-text (codes "{\"protocol_version\":\"0.2\",\"message_type\":") refl
    then_plain quote-IsPlain message_type
    then_plain IsPlain-text (codes ",\"request_id\":") refl
    then_plain quote-IsPlain request_id
    then_plain IsPlain-text (codes ",\"timestamp_ms\":") refl
    then_plain decimal-IsPlain timestamp_ms

module _ (d : Double) (plain : (value : d.F) → IsPlain (d.print value)) where
  write_device-IsPlain : (device : DeviceConfig d) → IsPlain (write_device d device)
  unfolding write_device
  write_device-IsPlain device =
      IsPlain-text (codes "{\"device_id\":") refl
      then_plain quote-IsPlain device.device_id
      then_plain IsPlain-text (codes ",\"peer_entity_id\":") refl
      then_plain quote-IsPlain device.peer_entity_id
      then_plain IsPlain-text (codes ",\"kind\":") refl
      then_plain quote-IsPlain device.kind
      then_plain IsPlain-text (codes ",\"data_rate_bps\":") refl
      then_plain decimal-IsPlain device.data_rate_bps
      then_plain IsPlain-text (codes ",\"delay_ms\":") refl
      then_plain plain device.delay_ms
      then_plain IsPlain-text (codes ",\"loss_rate\":") refl
      then_plain plain device.loss_rate
      then_plain IsPlain-text (codes ",\"link_state\":") refl
      then_plain quote-IsPlain device.link_state
      then_plain IsPlain-text (codes "}") refl

  write_policy-IsPlain : (policy : EffectPolicy d) → IsPlain (write_policy d policy)
  unfolding write_policy
  write_policy-IsPlain policy =
      IsPlain-text (codes "{\"subsystem_id\":") refl
      then_plain quote-IsPlain policy.subsystem_id
      then_plain IsPlain-text (codes ",\"subsystem_type\":") refl
      then_plain quote-IsPlain policy.subsystem_type
      then_plain IsPlain-text (codes ",\"peer_entity_id\":") refl
      then_plain quote-IsPlain policy.peer_entity_id
      then_plain IsPlain-text (codes ",\"max_delay_ms\":") refl
      then_plain plain policy.max_delay_ms
      then_plain IsPlain-text (codes ",\"max_loss_rate\":") refl
      then_plain plain policy.max_loss_rate
      then_plain IsPlain-text (codes ",\"min_throughput_bps\":") refl
      then_plain plain policy.min_throughput_bps
      then_plain IsPlain-text (codes ",\"violation_state\":") refl
      then_plain quote-IsPlain policy.violation_state
      then_plain IsPlain-text (codes "}") refl

  write_parent-IsPlain :
      (has_parent : Bool) (parent_entity_id : Bytes)
      → IsPlain (write_parent d has_parent parent_entity_id)
  unfolding write_parent
  write_parent-IsPlain true parent_entity_id = quote-IsPlain parent_entity_id
  write_parent-IsPlain false parent_entity_id = IsPlain-text (codes "null") refl

  write_entity-IsPlain : (entity : EntityState d) → IsPlain (write_entity d entity)
  unfolding write_entity
  write_entity-IsPlain entity =
      IsPlain-text (codes "{\"entity_id\":") refl
      then_plain quote-IsPlain entity.entity_id
      then_plain IsPlain-text (codes ",\"business_node_id\":") refl
      then_plain quote-IsPlain entity.business_node_id
      then_plain IsPlain-text (codes ",\"parent_entity_id\":") refl
      then_plain write_parent-IsPlain entity.has_parent entity.parent_entity_id
      then_plain IsPlain-text (codes ",\"position\":{\"x_m\":") refl
      then_plain plain entity.position.x_m
      then_plain IsPlain-text (codes ",\"y_m\":") refl
      then_plain plain entity.position.y_m
      then_plain IsPlain-text (codes ",\"z_m\":") refl
      then_plain plain entity.position.z_m
      then_plain IsPlain-text (codes "}") refl
      then_plain IsPlain-text (codes ",\"velocity\":{\"vx_mps\":") refl
      then_plain plain entity.velocity.vx_mps
      then_plain IsPlain-text (codes ",\"vy_mps\":") refl
      then_plain plain entity.velocity.vy_mps
      then_plain IsPlain-text (codes ",\"vz_mps\":") refl
      then_plain plain entity.velocity.vz_mps
      then_plain IsPlain-text (codes "}") refl
      then_plain IsPlain-text (codes ",\"heading_deg\":") refl
      then_plain plain entity.heading_deg
      then_plain IsPlain-text (codes ",\"alive\":") refl
      then_plain boolean-IsPlain entity.alive
      then_plain IsPlain-text (codes ",\"devices\":") refl
      then_plain write_array-IsPlain (write_device d) write_device-IsPlain entity.devices
      then_plain IsPlain-text (codes ",\"effect_policies\":") refl
      then_plain write_array-IsPlain (write_policy d) write_policy-IsPlain entity.effect_policies
      then_plain IsPlain-text (codes "}") refl

  -- Let the text of each number be without control bytes. Then an initial message and a delta
  -- message are without control bytes, line breaks among them, whatever the identifiers and other
  -- texts of the state.
  pub messages-IsPlain :
      (request_id : Bytes) (timestamp_ms : ℕ) (entities : List (EntityState d))
      (flows : List FlowConfig) (delta : DeltaState d)
      → IsPlain (build_init_message d request_id timestamp_ms entities flows)
        × IsPlain (build_delta_message d request_id timestamp_ms delta)
  unfolding build_init_message build_delta_message
  messages-IsPlain request_id timestamp_ms entities flows delta = (
    write_envelope-IsPlain (codes "afsim_init") request_id timestamp_ms
        then_plain IsPlain-text (codes ",\"entities\":") refl
        then_plain write_array-IsPlain (write_entity d) write_entity-IsPlain entities
        then_plain IsPlain-text (codes ",\"flows\":") refl
        then_plain write_array-IsPlain write_flow write_flow-IsPlain flows
        then_plain IsPlain-text (codes "}") refl,
    write_envelope-IsPlain (codes "afsim_delta") request_id timestamp_ms
        then_plain IsPlain-text (codes ",\"entity_upserts\":") refl
        then_plain write_array-IsPlain (write_entity d) write_entity-IsPlain delta.entity_upserts
        then_plain IsPlain-text (codes ",\"entity_removals\":") refl
        then_plain write_strings-IsPlain delta.entity_removals
        then_plain IsPlain-text (codes ",\"flow_upserts\":") refl
        then_plain write_array-IsPlain write_flow write_flow-IsPlain delta.flow_upserts
        then_plain IsPlain-text (codes ",\"flow_removals\":") refl
        then_plain write_strings-IsPlain delta.flow_removals
        then_plain IsPlain-text (codes "}") refl,
  )
