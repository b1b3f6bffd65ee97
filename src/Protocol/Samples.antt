-- ===== src/Protocol/Samples.antt =====
-- States for the examples of several parts, with whole numbers for doubles.
use afsim_ns.Base.{ℕ, true, false, [], ◌∷◌, Bytes, codes}
use afsim_ns.Double.{fixed_point}
use afsim_ns.Protocol.State.{DeviceConfig, EntityState, FlowConfig}

abbrev pub radio : DeviceConfig fixed_point
radio = record {
  device_id = codes "d1";
  peer_entity_id = codes "2";
  kind = codes "radio";
  data_rate_bps = 1000;
  delay_ms = 5;
  loss_rate = 0;
  link_state = codes "UP";
}

-- An entity with its identifier and its heading.
abbrev pub tank : Bytes → ℕ → EntityState fixed_point
tank id heading = record {
  entity_id = id;
  business_node_id = codes "n";
  parent_entity_id = [];
  has_parent = false;
  position = record { x_m = 1; y_m = 2; z_m = 3 };
  velocity = record { vx_mps = 0; vy_mps = 0; vz_mps = 0 };
  heading_deg = heading;
  alive = true;
  devices = radio ∷ [];
  effect_policies = [];
}

abbrev pub traffic : Bytes → ℕ → FlowConfig
traffic id interval = record {
  flow_id = id;
  source_entity_id = codes "1";
  target_entity_id = codes "2";
  packet_size_bytes = 100;
  interval_ms = interval;
  duration_ms = 1000;
  active = true;
}
