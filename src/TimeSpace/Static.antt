-- ===== src/TimeSpace/Static.antt =====
-- The static functions of airs/src/ATimeSpace.cpp: they work out everything from their arguments.
use airs.TimeSpace.Formulas.{
  Real, julian_century, gmst_of, apparent, local_mean, mean_obliquity, mean_anomaly_sun,
  mean_anomaly_moon, mean_elongation_moon_sun, mean_long_asc_node_moon, rel_long_moon,
  mean_long_sun, center_of, position_of, nutation_of,
}

module _ (r : Real) where
  -- The static functions of the class.
  unfoldable pub nutation : r.Double → r.Double × r.Double
  nutation t =
      nutation_of r t (mean_anomaly_moon r t) (mean_anomaly_sun r t) (rel_long_moon r t)
        (mean_elongation_moon_sun r t) (mean_long_asc_node_moon r t)

  unfoldable pub true_obliquity : r.Double → r.Double
  true_obliquity t = r.add (mean_obliquity r t) (nutation t).1

  unfoldable pub greenwich_mean_sidereal_time : r.Double → r.Double
  greenwich_mean_sidereal_time mjd = gmst_of r (julian_century r mjd)

  unfoldable pub greenwich_sidereal_time : r.Double → r.Double
  greenwich_sidereal_time mjd =
      let t = julian_century r mjd in
      let (nl, ob) = nutation t in
      apparent r (greenwich_mean_sidereal_time mjd) nl (r.add (mean_obliquity r t) ob)

  unfoldable pub local_mean_sidereal_time : r.Double → r.Double → r.Double
  local_mean_sidereal_time mjd lgt = local_mean r (greenwich_mean_sidereal_time mjd) lgt

  unfoldable pub local_sidereal_time : r.Double → r.Double → r.Double
  local_sidereal_time mjd lgt =
      let t = julian_century r mjd in
      let (nl, ob) = nutation t in
      apparent r (local_mean_sidereal_time mjd lgt) nl (r.add (mean_obliquity r t) ob)

  unfoldable pub center_sun : r.Double → r.Double
  center_sun t = center_of r t (mean_anomaly_sun r t)

  unfoldable pub true_long_sun : r.Double → r.Double
  true_long_sun t = r.add (mean_long_sun r t) (center_sun t)

  unfoldable pub sun_position : r.Double → r.Double × r.Double
  sun_position t = position_of r t (true_long_sun t) (mean_obliquity r t)
