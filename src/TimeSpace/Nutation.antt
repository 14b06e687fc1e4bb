-- ===== src/TimeSpace/Nutation.antt =====
-- NutationLongitude and NutationObliquity of ATimeSpace in airs/src/ATimeSpace.cpp work out both parts
-- together and keep both.
use airs.Base.{refl}
use airs.TimeSpace.Formulas.{
  Real, mean_anomaly_sun, mean_anomaly_moon, mean_elongation_moon_sun, mean_long_asc_node_moon,
  rel_long_moon, nutation_of,
}
use airs.TimeSpace.Static.{nutation}
use airs.TimeSpace.Values.{Name, Moment}
use airs.TimeSpace.Getters.{
  Get, ◌>>=◌, give, get_julian_century, get_mean_anomaly_sun, get_mean_anomaly_moon,
  get_mean_elongation_moon_sun, get_mean_long_asc_node_moon, get_rel_long_moon, get_nutation,
  get_nutation_longitude, get_nutation_obliquity,
}
use airs.TimeSpace.Kept.{Gives, either-Gives, two-Gives}
use airs.TimeSpace.Exact.{
  differ, century, exact, position, Exactly, step, last, century-Gives, get_mean_anomaly_sun-Gives,
  get_mean_anomaly_moon-Gives, get_mean_elongation_moon_sun-Gives,
  get_mean_long_asc_node_moon-Gives, get_rel_long_moon-Gives,
}

module _ (r : Real) where
  -- The rest of get_nutation after each of its calls.
  abbrev with_node :
      r.Double → r.Double → r.Double → r.Double → r.Double → Get r.Double (r.Double × r.Double)
  with_node t el elp f d =
      get_mean_long_asc_node_moon r >>= λ om. give (nutation_of r t el elp f d om)

  abbrev with_elongation :
      r.Double → r.Double → r.Double → r.Double → Get r.Double (r.Double × r.Double)
  with_elongation t el elp f = get_mean_elongation_moon_sun r >>= λ d. with_node t el elp f d

  abbrev with_latitude : r.Double → r.Double → r.Double → Get r.Double (r.Double × r.Double)
  with_latitude t el elp = get_rel_long_moon r >>= λ f. with_elongation t el elp f

  abbrev with_sun : r.Double → r.Double → Get r.Double (r.Double × r.Double)
  with_sun t el = get_mean_anomaly_sun r >>= λ elp. with_latitude t el elp

  abbrev with_moon : r.Double → Get r.Double (r.Double × r.Double)
  with_moon t = get_mean_anomaly_moon r >>= λ el. with_sun t el

  -- What they give.
  abbrev node_of :
      r.Double → r.Double → r.Double → r.Double → r.Double → Moment r.Double → r.Double × r.Double
  node_of t el elp f d b = nutation_of r t el elp f d (mean_long_asc_node_moon r (century r b))

  abbrev elongation_of :
      r.Double → r.Double → r.Double → r.Double → Moment r.Double → r.Double × r.Double
  elongation_of t el elp f b = node_of t el elp f (mean_elongation_moon_sun r (century r b)) b

  abbrev latitude_of : r.Double → r.Double → r.Double → Moment r.Double → r.Double × r.Double
  latitude_of t el elp b = elongation_of t el elp (rel_long_moon r (century r b)) b

  abbrev sun_of : r.Double → r.Double → Moment r.Double → r.Double × r.Double
  sun_of t el b = latitude_of t el (mean_anomaly_sun r (century r b)) b

  abbrev moon_of : r.Double → Moment r.Double → r.Double × r.Double
  moon_of t b = sun_of t (mean_anomaly_moon r (century r b)) b

  with_node-Gives :
      (t el elp f d : r.Double) → Gives (exact r) (with_node t el elp f d) (node_of t el elp f d)
  unfolding exact
  with_node-Gives t el elp f d =
      last r (get_mean_long_asc_node_moon r) (λ om. nutation_of r t el elp f d om)
        (exact r Name.ats_mlan_moon) (get_mean_long_asc_node_moon-Gives r)

  with_elongation-Gives :
      (t el elp f : r.Double)
      → Gives (exact r) (with_elongation t el elp f) (elongation_of t el elp f)
  unfolding exact
  with_elongation-Gives t el elp f =
      step r (get_mean_elongation_moon_sun r) (with_node t el elp f)
        (exact r Name.ats_melong_moon_sun) (node_of t el elp f)
        (get_mean_elongation_moon_sun-Gives r) (with_node-Gives t el elp f)

  with_latitude-Gives :
      (t el elp : r.Double) → Gives (exact r) (with_latitude t el elp) (latitude_of t el elp)
  unfolding exact
  with_latitude-Gives t el elp =
      step r (get_rel_long_moon r) (with_elongation t el elp) (exact r Name.ats_rlong_moon)
        (elongation_of t el elp) (get_rel_long_moon-Gives r) (with_elongation-Gives t el elp)

  with_sun-Gives : (t el : r.Double) → Gives (exact r) (with_sun t el) (sun_of t el)
  unfolding exact
  with_sun-Gives t el =
      step r (get_mean_anomaly_sun r) (with_latitude t el) (exact r Name.ats_masun)
        (latitude_of t el) (get_mean_anomaly_sun-Gives r) (with_latitude-Gives t el)

  with_moon-Gives : (t : r.Double) → Gives (exact r) (with_moon t) (moon_of t)
  unfolding exact
  with_moon-Gives t =
      step r (get_mean_anomaly_moon r) (with_sun t) (exact r Name.ats_mamoon) (sun_of t)
        (get_mean_anomaly_moon-Gives r) (with_sun-Gives t)

  abbrev pub now_nutation : Moment r.Double → r.Double × r.Double
  now_nutation b = nutation r (century r b)

  get_nutation-Gives : Gives (exact r) (get_nutation r) now_nutation
  unfolding get_nutation nutation
  get_nutation-Gives =
      step r (get_julian_century r) with_moon (century r) moon_of (century-Gives r) with_moon-Gives

  pub get_nutation_longitude-Gives : Exactly r Name.ats_nl (get_nutation_longitude r)
  unfolding get_nutation_longitude exact
  get_nutation_longitude-Gives =
      either-Gives (exact r) Name.ats_nl (λ st. st.values Name.ats_nl) _ (exact r Name.ats_nl)
        (λ st h v. h Name.ats_nl (differ Name.ats_nl (position r) refl) v)
        (two-Gives (exact r) Name.ats_nl Name.ats_no (λ p. p.0) (λ p. p.1) (get_nutation r)
          now_nutation refl (differ Name.ats_nl (position r) refl) refl
          (differ Name.ats_no (position r) refl) (λ m. refl) (λ m. refl) get_nutation-Gives)

  pub get_nutation_obliquity-Gives : Exactly r Name.ats_no (get_nutation_obliquity r)
  unfolding get_nutation_obliquity exact
  get_nutation_obliquity-Gives =
      either-Gives (exact r) Name.ats_no (λ st. st.values Name.ats_no) _ (exact r Name.ats_no)
        (λ st h v. h Name.ats_no (differ Name.ats_no (position r) refl) v)
        (two-Gives (exact r) Name.ats_no Name.ats_nl (λ p. p.1) (λ p. p.0) (get_nutation r)
          now_nutation refl (differ Name.ats_no (position r) refl) refl
          (differ Name.ats_nl (position r) refl) (λ m. refl) (λ m. refl) get_nutation-Gives)
