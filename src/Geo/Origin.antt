-- ===== src/Geo/Origin.antt =====
-- Which points are refused, and where a frame places its own origin.
use afsim_ns.Base.{
  arith, ◌≡◌, ◌↔◌, refl, sym, ap, ◌∙◌, true, false, ok, ok-injective, >>=-eq-ok, Bool-cases,
  Result-cases, inl, inr,
}
use afsim_ns.Double.{Double}
use afsim_ns.Double.Math.{Math, ZeroLaws}
use afsim_ns.Protocol.{Position}
use afsim_ns.Geo.Frame.{
  GeoPoint, LocalEnuFrame, is_invalid, validate, ecef_of, to_ecef, local_enu_frame, enu_of, to_enu,
  origin_of,
}

module _ (d : Double) (m : Math d) where
  open d use {F, is_finite, times}
  open m use {negate}

  abbrev IsFinite : F → Type 0
  IsFinite a = is_finite a ≡ true

  -- The place of the frame and what `ToEnu` multiplies the differences with are finite.
  pub record HasFiniteTerms (f : LocalEnuFrame d) : Type 0 where
    pub x : IsFinite f.origin_ecef.x
    pub y : IsFinite f.origin_ecef.y
    pub z : IsFinite f.origin_ecef.z
    pub east_x : IsFinite (negate f.sin_longitude)
    pub east_y : IsFinite f.cos_longitude
    pub north_x : IsFinite (times (negate f.sin_latitude) f.cos_longitude)
    pub north_y : IsFinite (times f.sin_latitude f.sin_longitude)
    pub north_z : IsFinite f.cos_latitude
    pub up_x : IsFinite (times f.cos_latitude f.cos_longitude)
    pub up_y : IsFinite (times f.cos_latitude f.sin_longitude)
    pub up_z : IsFinite f.sin_latitude

  abbrev IsZero : F → Type 0
  IsZero a = d.same a d.nought ≡ true

  -- All three coordinates equal 0.0.
  abbrev pub IsCentre : Position d → Type 0
  IsCentre p = IsZero p.x_m × IsZero p.y_m × IsZero p.z_m

  -- Finite, with the latitude within 90.0 of the equator and the longitude within 180.0.
  pub record IsGeodetic (p : GeoPoint d) : Type 0 where
    pub latitude : IsFinite p.latitude_deg
    pub longitude : IsFinite p.longitude_deg
    pub altitude : IsFinite p.altitude_m
    pub south : d.less p.latitude_deg (negate (d.of_uint64 90)) ≡ false
    pub north : d.less (d.of_uint64 90) p.latitude_deg ≡ false
    pub west : d.less p.longitude_deg (negate (d.of_uint64 180)) ≡ false
    pub east : d.less (d.of_uint64 180) p.longitude_deg ≡ false

  is_invalid-IsGeodetic : (p : GeoPoint d) → (is_invalid d m p ≡ false) ↔ IsGeodetic p
  unfolding is_invalid
  is_invalid-IsGeodetic p = (
    λ e. record {
      latitude = ground arith;
      longitude = ground arith;
      altitude = ground arith;
      south = ground arith;
      north = ground arith;
      west = ground arith;
      east = ground arith;
    },
    λ h. rw (h.latitude, h.longitude, h.altitude, h.south, h.north, h.west, h.east) refl,
  )

  pub to_enu-IsGeodetic :
      (f : LocalEnuFrame d) (p : GeoPoint d)
      → ((q : Position d) × (to_enu d m f p ≡ ok q)) ↔ IsGeodetic p
  unfolding to_enu to_ecef validate
  to_enu-IsGeodetic f p = elim (Bool-cases (is_invalid d m p)) [
    | inl bad ↦ (λ (q, e). cc, λ h. ground (arith, bad, (is_invalid-IsGeodetic p).1 h))
    | inr good ↦
        (λ _. (is_invalid-IsGeodetic p).0 good, λ _. (enu_of d m f (ecef_of d m p), rw good refl))
  ]

  -- A point in range makes a frame.
  pub frame-made :
      (p : GeoPoint d) → IsGeodetic p → (f : LocalEnuFrame d) × (local_enu_frame d m p ≡ ok f)
  unfolding local_enu_frame to_ecef validate
  frame-made p h = elim (Result-cases (local_enu_frame d m p)) [
    | inl made ↦ made
    | inr (e, q) ↦ ground (arith, q, (is_invalid-IsGeodetic p).1 h)
  ]

  module _ (laws : ZeroLaws d m) where
    enu_of-origin : (f : LocalEnuFrame d) → HasFiniteTerms f → IsCentre (enu_of d m f f.origin_ecef)
    unfolding enu_of
    enu_of-origin f h =
        let dx = laws.minus_self f.origin_ecef.x h.x in
        let dy = laws.minus_self f.origin_ecef.y h.y in
        let dz = laws.minus_self f.origin_ecef.z h.z in
        (
          laws.plus_zero _ _ (laws.times_zero _ _ h.east_x dx) (laws.times_zero _ _ h.east_y dy),
          laws.plus_zero _ _
              (laws.minus_zero _ _ (laws.times_zero _ _ h.north_x dx)
                (laws.times_zero _ _ h.north_y dy))
              (laws.times_zero _ _ h.north_z dz),
          laws.plus_zero _ _
              (laws.plus_zero _ _ (laws.times_zero _ _ h.up_x dx) (laws.times_zero _ _ h.up_y dy))
              (laws.times_zero _ _ h.up_z dz),
        )

    made-origin :
        (point : GeoPoint d) (f : LocalEnuFrame d)
        → local_enu_frame d m point ≡ ok f
        → (origin_of d m f ≡ point) × (to_ecef d m point ≡ ok f.origin_ecef)
    unfolding local_enu_frame origin_of
    made-origin point f e =
        let (ecef, p, q) = >>=-eq-ok (to_ecef d m point) _ e in
        (ap (λ g. g.origin) (sym (ok-injective q)), p ∙ ap (λ g. ok g.origin_ecef) (ok-injective q))

    -- Where doubles obey the laws for 0.0: a frame that was made at a point keeps this point as its
    -- origin, and if its terms are finite, it places this point at 0.0, 0.0, 0.0. Any other point
    -- has a place in the frame exactly if its coordinates are finite and within the ranges of
    -- latitude and longitude.
    pub local_enu_frame_lem :
        (point other : GeoPoint d) (f : LocalEnuFrame d)
        → local_enu_frame d m point ≡ ok f
        → HasFiniteTerms f
        → (origin_of d m f ≡ point)
          × ((p : Position d) × (to_enu d m f point ≡ ok p) × IsCentre p)
          × (((q : Position d) × (to_enu d m f other ≡ ok q)) ↔ IsGeodetic other)
    unfolding to_enu
    local_enu_frame_lem point other f e h =
        let (o, p) = made-origin point f e in
        (o, (enu_of d m f f.origin_ecef, rw p refl, enu_of-origin f h), to_enu-IsGeodetic f other)
