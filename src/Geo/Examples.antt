-- ===== src/Geo/Examples.antt =====
-- A frame on the whole numbers.
use afsim_ns.Base.{◌≡◌, ◌↔◌, refl, ok, ◌*◌, ◌^◌}
use afsim_ns.Double.{fixed_point}
use afsim_ns.Double.Math.{fixed_math, fixed_math-ZeroLaws}
use afsim_ns.Protocol.{Position}
use afsim_ns.Geo.Frame.{
  GeoPoint, LocalEnuFrame, local_enu_frame, to_enu, origin_of, ecef_of, radians,
}
use afsim_ns.Geo.Origin.{IsCentre, IsGeodetic, local_enu_frame_lem}

abbrev point : GeoPoint fixed_point
point = record { latitude_deg = 45 * 2 ^ 53; longitude_deg = 7 * 2 ^ 53; altitude_m = 100 * 2 ^ 53 }

abbrev other : GeoPoint fixed_point
other = record point { latitude_deg = 91 * 2 ^ 53 }

abbrev frame : LocalEnuFrame fixed_point
frame = record {
  origin = point;
  origin_ecef = ecef_of fixed_point fixed_math point;
  sin_latitude = 0;
  cos_latitude = 2 ^ 53;
  sin_longitude = 0;
  cos_longitude = 2 ^ 53;
}

local_enu_frame_lem_example :
    (origin_of fixed_point fixed_math frame ≡ point)
    × ((p : Position fixed_point) × (to_enu fixed_point fixed_math frame point ≡ ok p)
        × IsCentre fixed_point fixed_math p)
    × (((q : Position fixed_point) × (to_enu fixed_point fixed_math frame other ≡ ok q))
        ↔ IsGeodetic fixed_point fixed_math other)
unfolding local_enu_frame radians
local_enu_frame_lem_example =
    local_enu_frame_lem fixed_point fixed_math fixed_math-ZeroLaws point other frame refl (record {
      x = refl;
      y = refl;
      z = refl;
      east_x = refl;
      east_y = refl;
      north_x = refl;
      north_y = refl;
      north_z = refl;
      up_x = refl;
      up_y = refl;
      up_z = refl;
    })
