-- ===== src/Delta/Same.antt =====
-- The overloads of `Same`, and `SameVector`. `==` on doubles is that of the compiler: it fails on
-- values that are not numbers.
use afsim_ns.Base.{Bool, true, false, ◌&&◌, List, [], ◌∷◌, ◌==◌, equals, bytes_ord, cmp_bytes}
use afsim_ns.Double.{Double}
use afsim_ns.Protocol.{Position, Velocity, DeviceConfig, EffectPolicy, EntityState, FlowConfig}

-- `left == right` for two flags
abbrev pub same_flag : Bool → Bool → Bool
same_flag true right = right
same_flag false true = false
same_flag false false = true

-- Vectors of different lengths differ; else the elements are compared in order.
unfoldable pub same_vector {ℓ} : {A : Type ℓ} → (A → A → Bool) → List A → List A → Bool
same_vector same [] [] = true
same_vector same [] (y ∷ ys) = false
same_vector same (x ∷ xs) [] = false
same_vector same (x ∷ xs) (y ∷ ys) = same x y && same_vector same xs ys

unfoldable pub same_flow : FlowConfig → FlowConfig → Bool
unfolding cmp_bytes
same_flow left right =
    equals left.flow_id right.flow_id
    && equals left.source_entity_id right.source_entity_id
    && equals left.target_entity_id right.target_entity_id
    && left.packet_size_bytes == right.packet_size_bytes
    && left.interval_ms == right.interval_ms
    && left.duration_ms == right.duration_ms
    && same_flag left.active right.active

module _ (d : Double) where
  unfoldable pub same_position : Position d → Position d → Bool
  same_position left right =
      d.same left.x_m right.x_m && d.same left.y_m right.y_m && d.same left.z_m right.z_m

  unfoldable pub same_velocity : Velocity d → Velocity d → Bool
  same_velocity left right =
      d.same left.vx_mps right.vx_mps
      && d.same left.vy_mps right.vy_mps
      && d.same left.vz_mps right.vz_mps

  unfoldable pub same_device : DeviceConfig d → DeviceConfig d → Bool
  unfolding cmp_bytes
  same_device left right =
      equals left.device_id right.device_id
      && equals left.peer_entity_id right.peer_entity_id
      && equals left.kind right.kind
      && left.data_rate_bps == right.data_rate_bps
      && d.same left.delay_ms right.delay_ms
      && d.same left.loss_rate right.loss_rate
      && equals left.link_state right.link_state

  unfoldable pub same_policy : EffectPolicy d → EffectPolicy d → Bool
  unfolding cmp_bytes
  same_policy left right =
      equals left.subsystem_id right.subsystem_id
      && equals left.subsystem_type right.subsystem_type
      && equals left.peer_entity_id right.peer_entity_id
      && d.same left.max_delay_ms right.max_delay_ms
      && d.same left.max_loss_rate right.max_loss_rate
      && d.same left.min_throughput_bps right.min_throughput_bps
      && equals left.violation_state right.violation_state

  unfoldable pub same_entity : EntityState d → EntityState d → Bool
  unfolding cmp_bytes same_position same_velocity same_vector same_device same_policy
  same_entity left right =
      equals left.entity_id right.entity_id
      && equals left.business_node_id right.business_node_id
      && equals left.parent_entity_id right.parent_entity_id
      && same_flag left.has_parent right.has_parent
      && same_position left.position right.position
      && same_velocity left.velocity right.velocity
      && d.same left.heading_deg right.heading_deg
      && same_flag left.alive right.alive
      && same_vector same_device left.devices right.devices
      && same_vector same_policy left.effect_policies right.effect_policies
