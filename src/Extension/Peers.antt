-- ===== src/Extension/Peers.antt =====
-- The platforms, the comms by address and by network, and the peers of a comm.
use afsim_ns.Base.{
  Bool, false, not, ◌&&◌, ◌||◌, List, [], ◌∷◌, ◌++◌, Bytes, Option, none, some, if◌then◌else◌,
  equals, bytes_ord, pair_ord, cmp_bytes,
}
use afsim_ns.Base.Map.{Map, lookup, insert}
use afsim_ns.Double.{Double}
use afsim_ns.Protocol.{decimal}
use afsim_ns.Delta.{is_empty}
use afsim_ns.Extension.Afsim.{Comm, Platform, Simulation}

pub record PlatformRecord : Type 0 where
  pub platform : Platform
  pub entity_id : Bytes
  pub alive : Bool

pub record CommEndpoint : Type 0 where
  pub entity_id : Bytes
  pub comm : Comm

pub record PeerEndpoint : Type 0 where
  pub comm : Option Comm
  pub ready : Bool

abbrev pub Addresses : Type 0
Addresses = Map (Bytes × Bytes) Comm

abbrev pub NetworkPeers : Type 0
NetworkPeers = Map Bytes (List CommEndpoint)

abbrev pub Peers : Type 0
Peers = Map Bytes PeerEndpoint

-- `peers[id]`, which creates what is missing
unfoldable pub peer_at : Bytes → Peers → PeerEndpoint
unfolding lookup cmp_bytes
peer_at id peers = elim (lookup id peers) [
  | none ↦ record { comm = none; ready = false }
  | some endpoint ↦ endpoint
]

unfoldable pub peers_of_network : Bytes → NetworkPeers → List CommEndpoint
unfolding lookup cmp_bytes
peers_of_network network peers = elim (lookup network peers) [ none ↦ [] | some list ↦ list ]

-- `endpoint.comm` keeps the first comm that is not null; `ready` is set once one is ready.
unfoldable pub join_peer : Option Comm → Bool → PeerEndpoint → PeerEndpoint
join_peer comm ready endpoint = record {
  comm = elim endpoint.comm [ none ↦ comm | some present ↦ some present ];
  ready = endpoint.ready || ready;
}

module _ (d : Double) (sim : Simulation d) where
  unfoldable pub platform_records : List (Option Platform) → List PlatformRecord
  unfolding decimal
  platform_records [] = []
  platform_records (none ∷ entries) = platform_records entries
  platform_records (some platform ∷ entries) =
      record {
        platform = platform;
        entity_id = decimal (sim.platform_index platform);
        alive = not (sim.is_broken platform) && not (sim.is_deleted platform);
      }
      ∷ platform_records entries

  unfoldable pub name_to_entity : List PlatformRecord → Map Bytes Bytes → Map Bytes Bytes
  unfolding insert cmp_bytes
  name_to_entity [] names = names
  name_to_entity (r ∷ records) names =
      name_to_entity records (insert (sim.platform_name r.platform) r.entity_id names)

  unfoldable pub entity_alive : List PlatformRecord → Map Bytes Bool → Map Bytes Bool
  unfolding insert cmp_bytes
  entity_alive [] alive = alive
  entity_alive (r ∷ records) alive = entity_alive records (insert r.entity_id r.alive alive)

  -- The loops over the comms of all platforms.
  unfoldable pub add_comms : Platform → List (Option Comm) → Addresses → Addresses
  unfolding insert cmp_bytes
  add_comms platform [] addresses = addresses
  add_comms platform (none ∷ comms) addresses = add_comms platform comms addresses
  add_comms platform (some comm ∷ comms) addresses =
      add_comms platform comms
        (insert (sim.platform_name platform, sim.comm_name comm) comm addresses)

  unfoldable pub comm_by_address : List PlatformRecord → Addresses → Addresses
  unfolding add_comms
  comm_by_address [] addresses = addresses
  comm_by_address (r ∷ records) addresses =
      comm_by_address records (add_comms r.platform (sim.comm_entries r.platform) addresses)

  unfoldable pub add_network_comms : Bytes → List (Option Comm) → NetworkPeers → NetworkPeers
  unfolding insert peers_of_network is_empty cmp_bytes
  add_network_comms entity_id [] peers = peers
  add_network_comms entity_id (none ∷ comms) peers = add_network_comms entity_id comms peers
  add_network_comms entity_id (some comm ∷ comms) peers = add_network_comms entity_id comms (
      if is_empty (sim.network comm)
      then peers
      else insert (sim.network comm)
          (peers_of_network (sim.network comm) peers
            ++ record { entity_id = entity_id; comm = comm } ∷ [])
          peers)

  unfoldable pub network_peers : List PlatformRecord → NetworkPeers → NetworkPeers
  unfolding add_network_comms
  network_peers [] peers = peers
  network_peers (r ∷ records) peers =
      network_peers records (add_network_comms r.entity_id (sim.comm_entries r.platform) peers)

  unfoldable pub is_ready : Comm → Bool
  is_ready comm = sim.is_turned_on comm && sim.can_receive comm

  unfoldable pub is_remote_ready : Option Comm → Bool
  unfolding is_ready
  is_remote_ready none = false
  is_remote_ready (some comm) = is_ready comm

  -- The loop over the link pairs of a comm.
  unfoldable pub link_peers :
      Map Bytes Bytes → Addresses → Bytes → List (Bytes × Bytes) → Peers → Peers
  unfolding lookup insert peer_at join_peer is_remote_ready cmp_bytes
  link_peers names addresses entity_id [] peers = peers
  link_peers names addresses entity_id (link ∷ links) peers =
      link_peers names addresses entity_id links (elim (lookup link.0 names) [
        | none ↦ peers
        | some peer_id ↦
            let remote = lookup link addresses in
            if equals peer_id entity_id
            then peers
            else insert peer_id (join_peer remote (is_remote_ready remote) (peer_at peer_id peers))
                peers
      ])

  -- The loop over the comms of its network.
  unfoldable pub add_network_peers : Bytes → List CommEndpoint → Peers → Peers
  unfolding insert peer_at join_peer is_ready cmp_bytes
  add_network_peers entity_id [] peers = peers
  add_network_peers entity_id (peer ∷ rest) peers = add_network_peers entity_id rest (
      if equals peer.entity_id entity_id
      then peers
      else insert peer.entity_id
          (join_peer (some peer.comm) (is_ready peer.comm) (peer_at peer.entity_id peers)) peers)

  unfoldable pub comm_peers : Map Bytes Bytes → Addresses → NetworkPeers → Bytes → Comm → Peers
  unfolding link_peers add_network_peers peers_of_network is_empty
  comm_peers names addresses networks entity_id comm =
      let linked = link_peers names addresses entity_id (sim.link_pairs comm) [] in
      if is_empty (sim.network comm)
      then linked
      else add_network_peers entity_id (peers_of_network (sim.network comm) networks) linked
