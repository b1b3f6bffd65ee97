-- ===== src/Extension/Collect/Entities.antt =====
-- The loop over the platforms.
use afsim_ns.Base.{
  ℕ, false, List, [], ◌∷◌, Option, none, some, Result, ok, err, bytes_ord, pair_ord,
}
use afsim_ns.Double.{Double}
use afsim_ns.Double.Math.{Math}
use afsim_ns.Protocol.{EntityState, Position, Velocity}
use afsim_ns.Geo.{GeoError, GeoPoint, LocalEnuFrame, local_enu_frame, to_enu}
use afsim_ns.Extension.Config.{RuntimeConfig, degrees}
use afsim_ns.Extension.Afsim.{Platform, Simulation}
use afsim_ns.Extension.Peers.{PlatformRecord}
use afsim_ns.Extension.Collect.Links.{
  TickError, geo_error, too_many_turns, Directory, Progress, collect_comms,
}

module _ (d : Double) (m : Math d) where
  open d use {F, less, times, of_uint64}

  unfoldable pub push_front :
      EntityState d
      → Progress d m × Result TickError (List (EntityState d))
      → Progress d m × Result TickError (List (EntityState d))
  push_front entity (progress, err e) = (progress, err e)
  push_front entity (progress, ok entities) = (progress, ok (entity ∷ entities))

  -- One round of the loop over the platforms, and the rounds behind it, if it did not throw.
  unfoldable pub followed_by :
      Progress d m × Result TickError (EntityState d)
      → (Progress d m → Progress d m × Result TickError (List (EntityState d)))
      → Progress d m × Result TickError (List (EntityState d))
  unfolding push_front
  followed_by (progress, err e) rest = (progress, err e)
  followed_by (progress, ok entity) rest = push_front entity (rest progress)

  module _ (sim : Simulation d) (config : RuntimeConfig d) (dir : Directory) where
    -- `mEnuFrame`, made at the first point that it is asked for
    unfoldable pub frame_at :
        Option (LocalEnuFrame d) → GeoPoint d → Result GeoError (LocalEnuFrame d)
    unfolding local_enu_frame
    frame_at (some frame) point = ok frame
    frame_at none point = local_enu_frame d m point

    unfoldable pub point_of : Platform → GeoPoint d
    point_of platform =
        let (latitude, (longitude, altitude)) = sim.location_lla platform in
        record { latitude_deg = latitude; longitude_deg = longitude; altitude_m = altitude }

    unfoldable pub velocity_of : Platform → Velocity d
    velocity_of platform =
        let (north, (east, down)) = sim.velocity_ned platform in
        record { vx_mps = east; vy_mps = north; vz_mps = m.negate down }

    -- An entity whose place and heading are known.
    unfoldable pub collect_placed :
        PlatformRecord
        → Position d
        → Option F
        → Progress d m
        → Progress d m × Result TickError (EntityState d)
    unfolding collect_comms velocity_of
    collect_placed r position none progress = (progress, err too_many_turns)
    collect_placed r position (some heading) progress =
        let (last, devices) =
          collect_comms d m sim config dir r (sim.comm_entries r.platform) progress in
        (
          last,
          ok (record {
            entity_id = r.entity_id;
            business_node_id = sim.platform_name r.platform;
            parent_entity_id = [];
            has_parent = false;
            position = position;
            velocity = velocity_of r.platform;
            heading_deg = heading;
            alive = r.alive;
            devices = devices;
            effect_policies = [];
          }),
        )

    unfoldable pub collect_at :
        ℕ
        → PlatformRecord
        → Result GeoError (Position d)
        → Progress d m
        → Progress d m × Result TickError (EntityState d)
    unfolding collect_placed degrees
    collect_at rounds r (err e) progress = (progress, err (geo_error e))
    collect_at rounds r (ok position) progress =
        collect_placed r position (degrees d m rounds (sim.heading r.platform)) progress

    unfoldable pub collect_in :
        ℕ
        → PlatformRecord
        → Result GeoError (LocalEnuFrame d)
        → Progress d m
        → Progress d m × Result TickError (EntityState d)
    unfolding collect_at to_enu point_of
    collect_in rounds r (err e) progress = (progress, err (geo_error e))
    collect_in rounds r (ok frame) progress =
        collect_at rounds r (to_enu d m frame (point_of r.platform))
          (record progress { enu_frame = some frame })

    -- The body of the loop over the platforms.
    unfoldable pub collect_entity :
        ℕ → PlatformRecord → Progress d m → Progress d m × Result TickError (EntityState d)
    unfolding collect_in frame_at point_of
    collect_entity rounds r progress =
        collect_in rounds r (frame_at progress.enu_frame (point_of r.platform)) progress

    unfoldable pub collect_entities :
        ℕ
        → List PlatformRecord
        → Progress d m
        → Progress d m × Result TickError (List (EntityState d))
    unfolding collect_entity followed_by
    collect_entities rounds [] progress = (progress, ok [])
    collect_entities rounds (r ∷ records) progress =
        followed_by (collect_entity rounds r progress)
          (λ next. collect_entities rounds records next)
