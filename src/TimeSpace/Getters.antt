-- ===== src/TimeSpace/Getters.antt =====
-- The functions without arguments of ATimeSpace in airs/src/ATimeSpace.cpp: each works its value out
-- once, keeps it, and takes it from there the next time.
use airs.Base.{if◌then◌else◌}
use airs.TimeSpace.Formulas.{
  Real, julian_century, julian_day, epoch, tai, gmst_of, apparent, local_mean, mean_obliquity,
  mean_anomaly_sun, mean_anomaly_moon, mean_elongation_moon_sun, mean_long_asc_node_moon,
  rel_long_moon, mean_long_sun, eccentricity_earth, perihelion_long_earth, center_of, position_of,
  nutation_of,
}
use airs.TimeSpace.Values.{Name, Moment, Times, put, mark}

-- A computation that reads and fills the values.
abbrev pub Get : Type 0 → Type 0 → Type 0
Get D A = Times D → A × Times D

module _ {D : Type 0} where
  infixl 5 ◌>>=◌
  abbrev pub ◌>>=◌ : {A : Type 0} {B : Type 0} → Get D A → (A → Get D B) → Get D B
  (g >>= f) st = let (a, next) = g st in f a next

  abbrev pub give : {A : Type 0} → A → Get D A
  give a st = (a, st)

  abbrev pub the_moment : Get D (Moment D)
  the_moment st = (st.now, st)

  unfoldable pub keep : Name → D → Get D D
  keep k v st = (v, mark k (put k v st))

  -- The pattern of the source: `if (!valid_[k]) { values_[k] = ...; valid_[k] = true; }`.
  unfoldable pub cached : Name → Get D D → Get D D
  unfolding keep
  cached k g st = let fresh = (g >>= keep k) st in if st.valid k then (st.values k, st) else fresh

module _ (r : Real) where
  abbrev R : Type 0
  R = r.Double

  unfoldable pub get_julian_century : Get R R
  unfolding cached
  get_julian_century = cached Name.ats_jc (the_moment >>= λ b. give (julian_century r b.mjd))

  unfoldable pub get_epoch : Get R R
  get_epoch = the_moment >>= λ b. give (epoch r b.mjd)

  unfoldable pub get_julian_day : Get R R
  unfolding cached
  get_julian_day = cached Name.ats_jd (the_moment >>= λ b. give (julian_day r b.mjd))

  unfoldable pub get_tai : Get R R
  unfolding cached
  get_tai = cached Name.ats_tai (the_moment >>= λ b. give (tai r b.mjd b.dat))

  -- A value that depends on the Julian century alone.
  unfoldable pub from_century : Name → (R → R) → Get R R
  unfolding cached get_julian_century
  from_century k f = cached k (get_julian_century >>= λ t. give (f t))

  unfoldable pub get_gmst : Get R R
  unfolding from_century
  get_gmst = from_century Name.ats_gmst (gmst_of r)

  unfoldable pub get_mean_obliquity : Get R R
  unfolding from_century
  get_mean_obliquity = from_century Name.ats_mo (mean_obliquity r)

  unfoldable pub get_mean_anomaly_sun : Get R R
  unfolding from_century
  get_mean_anomaly_sun = from_century Name.ats_masun (mean_anomaly_sun r)

  unfoldable pub get_mean_anomaly_moon : Get R R
  unfolding from_century
  get_mean_anomaly_moon = from_century Name.ats_mamoon (mean_anomaly_moon r)

  unfoldable pub get_mean_elongation_moon_sun : Get R R
  unfolding from_century
  get_mean_elongation_moon_sun = from_century Name.ats_melong_moon_sun (mean_elongation_moon_sun r)

  unfoldable pub get_mean_long_asc_node_moon : Get R R
  unfolding from_century
  get_mean_long_asc_node_moon = from_century Name.ats_mlan_moon (mean_long_asc_node_moon r)

  unfoldable pub get_rel_long_moon : Get R R
  unfolding from_century
  get_rel_long_moon = from_century Name.ats_rlong_moon (rel_long_moon r)

  unfoldable pub get_mean_long_sun : Get R R
  unfolding from_century
  get_mean_long_sun = from_century Name.ats_ml_sun (mean_long_sun r)

  unfoldable pub get_eccentricity_earth : Get R R
  unfolding from_century
  get_eccentricity_earth = from_century Name.ats_eccentricity_earth (eccentricity_earth r)

  unfoldable pub get_perihelion_long_earth : Get R R
  unfolding from_century
  get_perihelion_long_earth = from_century Name.ats_pl_earth (perihelion_long_earth r)

  unfoldable pub get_nutation : Get R (R × R)
  get_nutation = get_julian_century >>= λ t. get_mean_anomaly_moon >>= λ el.
      get_mean_anomaly_sun >>= λ elp. get_rel_long_moon >>= λ f.
      get_mean_elongation_moon_sun >>= λ d.
      get_mean_long_asc_node_moon >>= λ om. give (nutation_of r t el elp f d om)

  -- Both parts of the nutation are kept, whichever was asked for.
  unfoldable pub get_nutation_longitude : Get R R
  unfolding keep
  get_nutation_longitude st =
      let fresh =
        (get_nutation >>= λ p.
        keep Name.ats_nl p.0 >>= λ nl. keep Name.ats_no p.1 >>= λ ob. give nl)
          st in
      if st.valid Name.ats_nl then (st.values Name.ats_nl, st) else fresh

  unfoldable pub get_nutation_obliquity : Get R R
  unfolding keep
  get_nutation_obliquity st =
      let fresh =
        (get_nutation >>= λ p.
        keep Name.ats_no p.1 >>= λ ob. keep Name.ats_nl p.0 >>= λ nl. give ob)
          st in
      if st.valid Name.ats_no then (st.values Name.ats_no, st) else fresh

  unfoldable pub get_true_obliquity : Get R R
  get_true_obliquity =
      get_mean_obliquity >>= λ mo. get_nutation_obliquity >>= λ ob. give (r.add mo ob)

  -- The two apparent sidereal times add the same to a mean one.
  unfoldable pub from_mean : Name → Get R R → Get R R
  unfolding cached
  from_mean k mean = cached k (
      mean >>= λ m.
      get_nutation_longitude >>= λ nl. get_true_obliquity >>= λ to. give (apparent r m nl to))

  unfoldable pub get_gst : Get R R
  get_gst = from_mean Name.ats_gst get_gmst

  unfoldable pub get_lmst : Get R R
  unfolding cached
  get_lmst =
      cached Name.ats_lmst (get_gmst >>= λ gmst. the_moment >>= λ b. give (local_mean r gmst b.lgt))

  unfoldable pub get_lst : Get R R
  get_lst = from_mean Name.ats_lst get_lmst

  unfoldable pub get_center_sun : Get R R
  unfolding cached
  get_center_sun =
      cached Name.ats_center_sun
        (get_julian_century >>= λ t. get_mean_anomaly_sun >>= λ ma. give (center_of r t ma))

  unfoldable pub get_true_long_sun : Get R R
  unfolding cached
  get_true_long_sun =
      cached Name.ats_tl_sun (get_mean_long_sun >>= λ ml. get_center_sun >>= λ c. give (r.add ml c))

  unfoldable pub get_true_anomaly_sun : Get R R
  unfolding cached
  get_true_anomaly_sun =
      cached Name.ats_ta_sun
        (get_mean_anomaly_sun >>= λ ma. get_center_sun >>= λ c. give (r.add ma c))

  unfoldable pub fresh_position : Get R (R × R)
  fresh_position = get_julian_century >>= λ t.
      get_true_long_sun >>= λ tl. get_mean_obliquity >>= λ mo. give (position_of r t tl mo)

  unfoldable pub keep_position : R × R → Get R (R × R)
  keep_position (ra, dec) st = (
    (ra, dec),
    mark Name.ats_position_sun
        (put Name.ats_position_sun_dec dec (put Name.ats_position_sun_ra ra st)),
  )

  unfoldable pub get_sun_position : Get R (R × R)
  unfolding fresh_position keep_position
  get_sun_position st =
      let fresh = (fresh_position >>= keep_position) st in
      if st.valid Name.ats_position_sun
      then ((st.values Name.ats_position_sun_ra, st.values Name.ats_position_sun_dec), st)
      else fresh
