-- ===== src/Extension/Active/Links.antt =====
-- An up link that a loop adds has a device that says so.
use afsim_ns.Base.{
  ℕ, ◌≡◌, refl, true, ◌⊎◌, inl, inr, Bool-cases, Bytes, codes, List, [], ◌∷◌, ◌++◌, Option, none,
  some, equals, equals_iff, bytes_ord, pair_ord, ap, arith,
}
use afsim_ns.Base.Map.{lookup, lookup-insert}
use afsim_ns.Double.{Double}
use afsim_ns.Double.Math.{Math}
use afsim_ns.Protocol.{DeviceConfig}
use afsim_ns.Delta.{is_some}
use afsim_ns.Extension.Config.{RuntimeConfig}
use afsim_ns.Extension.Afsim.{Comm, Simulation}
use afsim_ns.Extension.State.{Set}
use afsim_ns.Extension.Peers.{PlatformRecord, PeerEndpoint, Peers}
use afsim_ns.Extension.Collect.{
  Directory, Progress, is_up, device, collect_device, collect_devices, collect_comm, collect_comms,
}

-- The set holds the key.
abbrev pub Holds : Bytes × Bytes → Set (Bytes × Bytes) → Type 0
Holds key links = is_some (lookup key links) ≡ true

module _ (d : Double) where
  -- A device with this peer is up.
  abbrev pub LinksTo : Bytes → List (DeviceConfig d) → Type 0
  LinksTo peer [] = ⊥
  LinksTo peer (head ∷ devices) =
      ((head.peer_entity_id ≡ peer) × (head.link_state ≡ codes "UP")) ⊎ LinksTo peer devices

  LinksTo-front :
      (peer : Bytes) (front back : List (DeviceConfig d))
      → LinksTo peer front
      → LinksTo peer (front ++ back)
  LinksTo-front peer [] back h = elim h [ ]
  LinksTo-front peer (head ∷ front) back (inl h) = inl h
  LinksTo-front peer (head ∷ front) back (inr h) = inr (LinksTo-front peer front back h)

  LinksTo-back :
      (peer : Bytes) (front back : List (DeviceConfig d))
      → LinksTo peer back
      → LinksTo peer (front ++ back)
  LinksTo-back peer [] back h = h
  LinksTo-back peer (head ∷ front) back h = inr (LinksTo-back peer front back h)

  -- What is new among the links starts at the record, which is alive, and has a device.
  abbrev pub Adds :
      PlatformRecord
      → Bytes × Bytes
      → Set (Bytes × Bytes)
      → Set (Bytes × Bytes)
      → List (DeviceConfig d)
      → Type 0
  Adds r key before after devices =
      Holds key after
      → Holds key before ⊎ ((r.entity_id ≡ key.0) × (r.alive ≡ true) × LinksTo key.1 devices)

  Adds-append :
      (r : PlatformRecord) (key : Bytes × Bytes) (first middle last : Set (Bytes × Bytes))
      (front back : List (DeviceConfig d))
      → Adds r key first middle front
      → Adds r key middle last back
      → Adds r key first last (front ++ back)
  Adds-append r key first middle last front back h k held = elim (k held) [
    | inr (a, b, c) ↦ inr (a, b, LinksTo-back key.1 front back c)
    | inl there ↦ elim (h there) [
      | inl before ↦ inl before
      | inr (a, b, c) ↦ inr (a, b, LinksTo-front key.1 front back c)
    ]
  ]

module _ (d : Double) (m : Math d) (sim : Simulation d) (config : RuntimeConfig d) (dir : Directory)
    (r : PlatformRecord) (key : Bytes × Bytes) where
  is_up-alive :
      (comm : Comm) (peer_id : Bytes) (endpoint : PeerEndpoint)
      → is_up d m sim config dir r comm peer_id endpoint ≡ true
      → r.alive ≡ true
  unfolding is_up
  is_up-alive comm peer_id endpoint e = ground arith

  collect_device-Adds :
      (comm : Comm) (aggregate : ℕ) (peer_id : Bytes) (endpoint : PeerEndpoint)
      (progress : Progress d m)
      → let step = collect_device d m sim config dir r comm aggregate peer_id endpoint progress in
        Adds d r key progress.up_links step.0.up_links (step.1 ∷ [])
  unfolding collect_device device
  collect_device-Adds comm aggregate peer_id endpoint progress =
      elim (Bool-cases (is_up d m sim config dir r comm peer_id endpoint)) [
        | inr down ↦ rw (down, collect_device) (λ held. inl held)
        | inl up ↦
            rw (up, collect_device, lookup-insert (r.entity_id, peer_id) key tt progress.up_links)
              (elim (Bool-cases (equals (r.entity_id, peer_id) key)) [
                | inr e ↦ rw e (λ held. inl held)
                | inl e ↦
                    let same = (equals_iff (r.entity_id, peer_id) key).0 e in
                    rw e (λ held. inr (
                      ap (λ k. k.0) same,
                      is_up-alive comm peer_id endpoint up,
                      inl (ap (λ k. k.1) same, refl),
                    ))
              ])
      ]

  collect_devices-Adds :
      (comm : Comm) (aggregate : ℕ) (peers : Peers) (progress : Progress d m)
      → let step = collect_devices d m sim config dir r comm aggregate peers progress in
        Adds d r key progress.up_links step.0.up_links step.1
  unfolding collect_devices
  collect_devices-Adds comm aggregate [] progress = λ held. inl held
  collect_devices-Adds comm aggregate ((peer_id, endpoint) ∷ peers) progress =
      let next = collect_device d m sim config dir r comm aggregate peer_id endpoint progress in
      let last = collect_devices d m sim config dir r comm aggregate peers next.0 in
      Adds-append d r key progress.up_links next.0.up_links last.0.up_links (next.1 ∷ []) last.1
        (collect_device-Adds comm aggregate peer_id endpoint progress)
        (collect_devices-Adds comm aggregate peers next.0)

  collect_comm-Adds :
      (comm : Comm) (progress : Progress d m)
      → let step = collect_comm d m sim config dir r comm progress in
        Adds d r key progress.up_links step.0.up_links step.1
  unfolding collect_comm
  collect_comm-Adds comm progress = collect_devices-Adds comm _ _ _

  pub collect_comms-Adds :
      (comms : List (Option Comm)) (progress : Progress d m)
      → let step = collect_comms d m sim config dir r comms progress in
        Adds d r key progress.up_links step.0.up_links step.1
  unfolding collect_comms
  collect_comms-Adds [] progress = λ held. inl held
  collect_comms-Adds (none ∷ comms) progress = collect_comms-Adds comms progress
  collect_comms-Adds (some comm ∷ comms) progress =
      let next = collect_comm d m sim config dir r comm progress in
      let last = collect_comms d m sim config dir r comms next.0 in
      Adds-append d r key progress.up_links next.0.up_links last.0.up_links next.1 last.1
        (collect_comm-Adds comm progress) (collect_comms-Adds comms next.0)
