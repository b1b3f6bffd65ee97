-- ===== src/Geo/Frame.antt =====
-- The functions of GeoCoordinates.cpp.
use afsim_ns.Base.{Bool, not, ◌||◌, Result, ok, err, ◌>>=◌, if◌then◌else◌}
use afsim_ns.Double.{Double}
use afsim_ns.Double.Math.{Math}
use afsim_ns.Protocol.{Position, Velocity}

-- `std::invalid_argument`: "invalid geodetic coordinate" and "invalid speed or orientation"
pub data GeoError : Type 0 where
  invalid_coordinate invalid_speed : GeoError

module _ (d : Double) where
  pub record GeoPoint : Type 0 where
    pub latitude_deg : d.F
    pub longitude_deg : d.F
    pub altitude_m : d.F

  -- A `double[3]`.
  pub record Ecef : Type 0 where
    pub x : d.F
    pub y : d.F
    pub z : d.F

  pub record LocalEnuFrame : Type 0 where
    pub origin : GeoPoint
    pub origin_ecef : Ecef
    pub sin_latitude : d.F
    pub cos_latitude : d.F
    pub sin_longitude : d.F
    pub cos_longitude : d.F

module _ (d : Double) (m : Math d) where
  open d use {F, less, is_finite, times, divide, of_uint64}
  open m use {plus, minus, negate, sine, cosine}

  unfoldable pub radians : F → F
  radians degrees = divide (times degrees m.pi) (of_uint64 180)

  abbrev pub semi_major_m : F
  semi_major_m = of_uint64 6378137

  -- The test of `Validate`.
  unfoldable pub is_invalid : GeoPoint d → Bool
  is_invalid point =
      not (is_finite point.latitude_deg)
      || not (is_finite point.longitude_deg)
      || not (is_finite point.altitude_m)
      || less point.latitude_deg (negate (of_uint64 90))
      || less (of_uint64 90) point.latitude_deg
      || less point.longitude_deg (negate (of_uint64 180))
      || less (of_uint64 180) point.longitude_deg

  unfoldable pub validate : GeoPoint d → Result GeoError (Unit {0})
  unfolding is_invalid
  validate point = if is_invalid point then err invalid_coordinate else ok tt

  -- The part of `ToEcef` behind `Validate`.
  unfoldable pub ecef_of : GeoPoint d → Ecef d
  unfolding radians
  ecef_of point =
      let latitude = radians point.latitude_deg in
      let longitude = radians point.longitude_deg in
      let sin_latitude = sine latitude in
      let cos_latitude = cosine latitude in
      let radius = divide semi_major_m (
        m.square_root
          (minus d.unit (times (times m.eccentricity_squared sin_latitude) sin_latitude))) in
      record {
        x = times (times (plus radius point.altitude_m) cos_latitude) (cosine longitude);
        y = times (times (plus radius point.altitude_m) cos_latitude) (sine longitude);
        z =
            times (plus (times radius (minus d.unit m.eccentricity_squared)) point.altitude_m)
              sin_latitude;
      }

  unfoldable pub to_ecef : GeoPoint d → Result GeoError (Ecef d)
  unfolding validate ecef_of
  to_ecef point = validate point >>= λ _. ok (ecef_of point)

  -- The constructor.
  unfoldable pub local_enu_frame : GeoPoint d → Result GeoError (LocalEnuFrame d)
  unfolding to_ecef radians
  local_enu_frame origin = do
    ecef ← to_ecef origin
    ok (record {
      origin = origin;
      origin_ecef = ecef;
      sin_latitude = sine (radians origin.latitude_deg);
      cos_latitude = cosine (radians origin.latitude_deg);
      sin_longitude = sine (radians origin.longitude_deg);
      cos_longitude = cosine (radians origin.longitude_deg);
    })

  -- The part of `ToEnu` behind `ToEcef`.
  unfoldable pub enu_of : LocalEnuFrame d → Ecef d → Position d
  enu_of frame ecef =
      let dx = minus ecef.x frame.origin_ecef.x in
      let dy = minus ecef.y frame.origin_ecef.y in
      let dz = minus ecef.z frame.origin_ecef.z in
      record {
        x_m = plus (times (negate frame.sin_longitude) dx) (times frame.cos_longitude dy);
        y_m =
            plus
              (minus (times (times (negate frame.sin_latitude) frame.cos_longitude) dx)
                (times (times frame.sin_latitude frame.sin_longitude) dy))
              (times frame.cos_latitude dz);
        z_m =
            plus
              (plus (times (times frame.cos_latitude frame.cos_longitude) dx)
                (times (times frame.cos_latitude frame.sin_longitude) dy))
              (times frame.sin_latitude dz);
      }

  unfoldable pub to_enu : LocalEnuFrame d → GeoPoint d → Result GeoError (Position d)
  unfolding to_ecef enu_of
  to_enu frame point = to_ecef point >>= λ ecef. ok (enu_of frame ecef)

  -- `LocalEnuFrame::Origin`
  unfoldable pub origin_of : LocalEnuFrame d → GeoPoint d
  origin_of frame = frame.origin

  unfoldable pub velocity_from_speed : F → F → F → Result GeoError (Velocity d)
  unfolding radians
  velocity_from_speed speed_mps heading_deg pitch_deg =
      if not (is_finite speed_mps)
        || less speed_mps d.nought
        || not (is_finite heading_deg)
        || not (is_finite pitch_deg)
      then err invalid_speed
      else let heading = radians heading_deg in
        let pitch = radians pitch_deg in
        let horizontal = times speed_mps (cosine pitch) in
        ok (record {
          vx_mps = times horizontal (sine heading);
          vy_mps = times horizontal (cosine heading);
          vz_mps = times speed_mps (sine pitch);
        })
