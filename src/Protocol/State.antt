-- ===== src/Protocol/State.antt =====
-- The records of AfsimNs3Protocol.hpp.
use afsim_ns.Base.{ℕ, Bool, List, Bytes}
use afsim_ns.Double.{Double}

module _ (d : Double) where
  pub record Position : Type 0 where
    pub x_m : d.F
    pub y_m : d.F
    pub z_m : d.F

  pub record Velocity : Type 0 where
    pub vx_mps : d.F
    pub vy_mps : d.F
    pub vz_mps : d.F

  pub record DeviceConfig : Type 0 where
    pub device_id : Bytes
    pub peer_entity_id : Bytes
    pub kind : Bytes
    pub data_rate_bps : ℕ
    pub delay_ms : d.F
    pub loss_rate : d.F
    pub link_state : Bytes

  pub record EffectPolicy : Type 0 where
    pub subsystem_id : Bytes
    pub subsystem_type : Bytes
    pub peer_entity_id : Bytes
    pub max_delay_ms : d.F
    pub max_loss_rate : d.F
    pub min_throughput_bps : d.F
    pub violation_state : Bytes

  pub record EntityState : Type 0 where
    pub entity_id : Bytes
    pub business_node_id : Bytes
    pub parent_entity_id : Bytes
    pub has_parent : Bool
    pub position : Position
    pub velocity : Velocity
    pub heading_deg : d.F
    pub alive : Bool
    pub devices : List DeviceConfig
    pub effect_policies : List EffectPolicy

pub record FlowConfig : Type 0 where
  pub flow_id : Bytes
  pub source_entity_id : Bytes
  pub target_entity_id : Bytes
  pub packet_size_bytes : ℕ
  pub interval_ms : ℕ
  pub duration_ms : ℕ
  pub active : Bool

module _ (d : Double) where
  -- What changed or is new, and the identifiers of what is gone.
  pub record DeltaState : Type 0 where
    pub entity_upserts : List (EntityState d)
    pub entity_removals : List Bytes
    pub flow_upserts : List FlowConfig
    pub flow_removals : List Bytes
