-- ===== src/Extension/Sound/Peers.antt =====
-- No entity is its own peer.
use afsim_ns.Base.{
  ◌≡◌, false, List, [], ◌∷◌, Bytes, All, Bool-cases, Option-cases, inl, inr, equals, bytes_ord,
  if◌then◌else◌, if-both,
}
use afsim_ns.Base.Map.{Map, lookup, insert, All-insert-key}
use afsim_ns.Double.{Double}
use afsim_ns.Delta.{is_empty}
use afsim_ns.Extension.Afsim.{Comm, Simulation}
use afsim_ns.Extension.Peers.{
  CommEndpoint, Addresses, NetworkPeers, Peers, peers_of_network, link_peers, add_network_peers,
  comm_peers,
}

abbrev pub AreOthers : Bytes → Peers → Type 0
AreOthers entity_id = All (λ e. equals e.0 entity_id ≡ false)

module _ (d : Double) (sim : Simulation d) (entity_id : Bytes) where
  insert-AreOthers :
      (peer_id : Bytes) (endpoint : _) (peers : Peers)
      → AreOthers entity_id peers
      → AreOthers entity_id
          (if equals peer_id entity_id then peers else insert peer_id endpoint peers)
  insert-AreOthers peer_id endpoint peers h = elim (Bool-cases (equals peer_id entity_id)) [
    | inl e ↦ rw e h
    | inr e ↦ rw e (All-insert-key (λ k. equals k entity_id ≡ false) peer_id endpoint peers e h)
  ]

  link_peers-AreOthers :
      (names : Map Bytes Bytes) (addresses : Addresses) (links : List (Bytes × Bytes))
      (peers : Peers)
      → AreOthers entity_id peers
      → AreOthers entity_id (link_peers d sim names addresses entity_id links peers)
  unfolding link_peers
  link_peers-AreOthers names addresses [] peers h = h
  link_peers-AreOthers names addresses (link ∷ links) peers h =
      link_peers-AreOthers names addresses links _ (elim (Option-cases (lookup link.0 names)) [
        | inl e ↦ rw e h
        | inr (peer_id, e) ↦ rw e (insert-AreOthers peer_id _ peers h)
      ])

  add_network_peers-AreOthers :
      (rest : List CommEndpoint) (peers : Peers)
      → AreOthers entity_id peers
      → AreOthers entity_id (add_network_peers d sim entity_id rest peers)
  unfolding add_network_peers
  add_network_peers-AreOthers [] peers h = h
  add_network_peers-AreOthers (peer ∷ rest) peers h =
      add_network_peers-AreOthers rest _ (insert-AreOthers peer.entity_id _ peers h)

  pub comm_peers-AreOthers :
      (names : Map Bytes Bytes) (addresses : Addresses) (networks : NetworkPeers) (comm : Comm)
      → AreOthers entity_id (comm_peers d sim names addresses networks entity_id comm)
  unfolding comm_peers
  comm_peers-AreOthers names addresses networks comm =
      let linked = link_peers-AreOthers names addresses (sim.link_pairs comm) [] tt in
      if-both (AreOthers entity_id) (is_empty (sim.network comm)) _ _ linked
        (add_network_peers-AreOthers (peers_of_network (sim.network comm) networks) _ linked)
