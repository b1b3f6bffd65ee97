-- ===== src/Extension/Collect/Links.antt =====
-- The loops over the comms and the peers of an entity.
use afsim_ns.Base.{
  ℕ, Bool, false, ◌&&◌, List, [], ◌∷◌, ◌++◌, Bytes, codes, Option, none, some, if◌then◌else◌,
  bytes_ord, pair_ord, cmp_bytes,
}
use afsim_ns.Base.Map.{Map, lookup, insert}
use afsim_ns.Double.{Double}
use afsim_ns.Double.Math.{Math}
use afsim_ns.Protocol.{DeviceConfig}
use afsim_ns.Delta.{StateError}
use afsim_ns.Geo.{GeoError, LocalEnuFrame}
use afsim_ns.Extension.Config.{RuntimeConfig, max}
use afsim_ns.Extension.Afsim.{Comm, Simulation}
use afsim_ns.Extension.State.{Set, LinkKey, LinkObservation}
use afsim_ns.Extension.Devices.{
  LinkRates, link_rates, configured_data_rate, configured_delay_ms, configured_loss_rate,
  aggregate_data_rate, link_kind,
}
use afsim_ns.Extension.Peers.{
  PlatformRecord, PeerEndpoint, Addresses, NetworkPeers, Peers, name_to_entity, entity_alive,
  comm_by_address, network_peers, comm_peers,
}

-- Why a tick ends early. The source throws the first two only: `too_many_turns` is the model's own,
-- for a heading that needs more rounds of the loops of `Degrees` than the fuel allows, where the
-- source would loop on.
pub data TickError : Type 0 where
  geo_error : GeoError → TickError
  state_error : StateError → TickError
  too_many_turns : TickError

-- The maps that the first two loops make.
pub record Directory : Type 0 where
  pub names : Map Bytes Bytes
  pub alive : Map Bytes Bool
  pub addresses : Addresses
  pub networks : NetworkPeers

-- `found != end() && found->second`
unfoldable pub is_alive : Bytes → Map Bytes Bool → Bool
unfolding lookup cmp_bytes
is_alive entity_id alive = elim (lookup entity_id alive) [ none ↦ false | some value ↦ value ]

module _ (d : Double) (m : Math d) where
  open d use {F, less, times, of_uint64}

  unfoldable pub directory : Simulation d → List PlatformRecord → Directory
  unfolding name_to_entity entity_alive comm_by_address network_peers
  directory sim records = record {
    names = name_to_entity d sim records [];
    alive = entity_alive d sim records [];
    addresses = comm_by_address d sim records [];
    networks = network_peers d sim records [];
  }

  -- What the loops over the entities change, and `upLinks`.
  pub record Progress : Type 0 where
    pub enu_frame : Option (LocalEnuFrame d)
    pub configured_data_rates : Map Comm ℕ
    pub link_observations : Map LinkKey (LinkObservation d)
    pub up_links : Set (Bytes × Bytes)

  module _ (sim : Simulation d) (config : RuntimeConfig d) (dir : Directory) where
    unfoldable pub is_up : PlatformRecord → Comm → Bytes → PeerEndpoint → Bool
    unfolding is_alive
    is_up r comm peer_id endpoint =
        r.alive
        && is_alive peer_id dir.alive
        && sim.is_turned_on comm
        && sim.can_send comm
        && endpoint.ready

    unfoldable pub device :
        PlatformRecord → Comm → Bytes → PeerEndpoint → LinkRates d m → DeviceConfig d
    unfolding link_kind is_up max
    device r comm peer_id endpoint rates = record {
      device_id = sim.comm_name comm ++ codes "-to-" ++ peer_id;
      peer_entity_id = peer_id;
      kind = link_kind d m sim config comm;
      data_rate_bps = max 1 rates.data_rate;
      delay_ms = rates.delay_ms;
      loss_rate = rates.loss_rate;
      link_state = if is_up r comm peer_id endpoint then codes "UP" else codes "DOWN";
    }

    -- The body of the loop over the peers.
    unfoldable pub collect_device :
        PlatformRecord → Comm → ℕ → Bytes → PeerEndpoint → Progress → Progress × DeviceConfig d
    unfolding link_rates configured_delay_ms configured_loss_rate device is_up insert cmp_bytes
    collect_device r comm aggregate peer_id endpoint progress =
        let configured : LinkRates d m = record {
          data_rate = aggregate;
          delay_ms = configured_delay_ms d m sim config comm endpoint.comm;
          loss_rate = configured_loss_rate d m config;
        } in
        let (observations, rates) =
          link_rates d m config comm endpoint.comm configured progress.link_observations in
        (
          record progress {
            link_observations = observations;
            up_links =
                if is_up r comm peer_id endpoint
                then insert (r.entity_id, peer_id) tt progress.up_links
                else progress.up_links;
          },
          device r comm peer_id endpoint rates,
        )

    unfoldable pub collect_devices :
        PlatformRecord → Comm → ℕ → Peers → Progress → Progress × List (DeviceConfig d)
    unfolding collect_device
    collect_devices r comm aggregate [] progress = (progress, [])
    collect_devices r comm aggregate ((peer_id, endpoint) ∷ peers) progress =
        let (next, here) = collect_device r comm aggregate peer_id endpoint progress in
        let (last, rest) = collect_devices r comm aggregate peers next in (last, here ∷ rest)

    -- The body of the loop over the comms of an entity.
    unfoldable pub collect_comm :
        PlatformRecord → Comm → Progress → Progress × List (DeviceConfig d)
    unfolding comm_peers configured_data_rate aggregate_data_rate collect_devices
    collect_comm r comm progress =
        let peers = comm_peers d sim dir.names dir.addresses dir.networks r.entity_id comm in
        let (rates, configured) =
          configured_data_rate d m sim config comm progress.configured_data_rates in
        collect_devices r comm (aggregate_data_rate d m sim comm configured) peers
          (record progress { configured_data_rates = rates })

    unfoldable pub collect_comms :
        PlatformRecord → List (Option Comm) → Progress → Progress × List (DeviceConfig d)
    unfolding collect_comm
    collect_comms r [] progress = (progress, [])
    collect_comms r (none ∷ comms) progress = collect_comms r comms progress
    collect_comms r (some comm ∷ comms) progress =
        let (next, here) = collect_comm r comm progress in
        let (last, rest) = collect_comms r comms next in (last, here ++ rest)
