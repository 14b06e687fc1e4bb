-- ===== src/TimeSpace/Exact.antt =====
-- Each function without arguments of ATimeSpace in airs/src/ATimeSpace.cpp gives what the static
-- function gives for the same moment, whatever has been asked for before.
use airs.Base.{◌≡◌, ◌≢◌, refl, ◌∙◌, sym, ap, false, ◌==◌}
use mathlib.Core.Bool.{true≢false}
use airs.TimeSpace.Formulas.{
  Real, julian_century, julian_day, tai, gmst_of, mean_obliquity, mean_anomaly_sun,
  mean_anomaly_moon, mean_elongation_moon_sun, mean_long_asc_node_moon, rel_long_moon,
  mean_long_sun, eccentricity_earth, perihelion_long_earth,
}
use airs.TimeSpace.Static.{
  nutation, greenwich_mean_sidereal_time, greenwich_sidereal_time, local_mean_sidereal_time,
  local_sidereal_time, center_sun, true_long_sun, sun_position,
}
use airs.TimeSpace.Values.{Name, Moment, code, flag}
use airs.TimeSpace.Getters.{
  Get, ◌>>=◌, give, the_moment, from_century, get_julian_century, get_julian_day, get_tai, get_gmst,
  get_mean_obliquity, get_mean_anomaly_sun, get_mean_anomaly_moon, get_mean_elongation_moon_sun,
  get_mean_long_asc_node_moon, get_rel_long_moon, get_mean_long_sun, get_eccentricity_earth,
  get_perihelion_long_earth,
}
use airs.TimeSpace.Kept.{
  IsValue, Gives, give-Gives, the_moment-Gives, >>=-Gives, cached-Gives, same_self,
}

-- Names with other numbers are different.
pub differ : (j k : Name) → (code j == code k) ≡ false → j ≢ k
differ j k h e = true≢false (sym (same_self j) ∙ ap (λ x. code j == code x) e ∙ h)

module _ (r : Real) where
  abbrev pub century : Moment r.Double → r.Double
  century b = julian_century r b.mjd

  -- The values by the static functions. The mark of the position stands for its
  -- first coordinate.
  unfoldable pub exact : Name → Moment r.Double → r.Double
  exact Name.ats_jd b = julian_day r b.mjd
  exact Name.ats_tai b = tai r b.mjd b.dat
  exact Name.ats_jc b = julian_century r b.mjd
  exact Name.ats_gmst b = greenwich_mean_sidereal_time r b.mjd
  exact Name.ats_gst b = greenwich_sidereal_time r b.mjd
  exact Name.ats_lmst b = local_mean_sidereal_time r b.mjd b.lgt
  exact Name.ats_lst b = local_sidereal_time r b.mjd b.lgt
  exact Name.ats_mo b = mean_obliquity r (century b)
  exact Name.ats_nl b = (nutation r (century b)).0
  exact Name.ats_no b = (nutation r (century b)).1
  exact Name.ats_masun b = mean_anomaly_sun r (century b)
  exact Name.ats_mamoon b = mean_anomaly_moon r (century b)
  exact Name.ats_melong_moon_sun b = mean_elongation_moon_sun r (century b)
  exact Name.ats_mlan_moon b = mean_long_asc_node_moon r (century b)
  exact Name.ats_rlong_moon b = rel_long_moon r (century b)
  exact Name.ats_ml_sun b = mean_long_sun r (century b)
  exact Name.ats_center_sun b = center_sun r (century b)
  exact Name.ats_tl_sun b = true_long_sun r (century b)
  exact Name.ats_ta_sun b = r.add (mean_anomaly_sun r (century b)) (center_sun r (century b))
  exact Name.ats_eccentricity_earth b = eccentricity_earth r (century b)
  exact Name.ats_pl_earth b = perihelion_long_earth r (century b)
  exact Name.ats_position_sun b = (sun_position r (century b)).0
  exact Name.ats_position_sun_ra b = (sun_position r (century b)).0
  exact Name.ats_position_sun_dec b = (sun_position r (century b)).1

  abbrev pub position : Name
  position = Name.ats_position_sun

  abbrev pub Exactly : Name → Get r.Double r.Double → Type 0
  Exactly k g = Gives exact g (exact k)

  -- The same values, written otherwise.
  pub respec :
      {A : Type 0} (g : Get r.Double A) {s t : Moment r.Double → A}
      → ((b : Moment r.Double) → s b ≡ t b)
      → Gives exact g s
      → Gives exact g t
  respec g e h st i = let (v, rest) = h st i in (v ∙ e st.now, rest)

  -- A step of a computation, and its last step.
  pub step :
      {A B : Type 0} (g : Get r.Double A) (f : A → Get r.Double B) (s : Moment r.Double → A)
      (t : A → Moment r.Double → B)
      → Gives exact g s
      → ((a : A) → Gives exact (f a) (t a))
      → Gives exact (g >>= f) (λ b. t (s b) b)
  step g f s t h k = >>=-Gives exact g f s t h k

  pub last :
      {A B : Type 0} (g : Get r.Double A) (f : A → B) (s : Moment r.Double → A)
      → Gives exact g s
      → Gives exact (g >>= λ a. give (f a)) (λ b. f (s b))
  last g f s h = step g (λ a. give (f a)) s (λ a b. f a) h (λ a. give-Gives exact (f a))

  pub of_moment :
      {A : Type 0} (f : Moment r.Double → A) → Gives exact (the_moment >>= λ b. give (f b)) f
  of_moment f = last the_moment f (λ b. b) (the_moment-Gives exact)

  pub get_julian_century-Gives : Exactly Name.ats_jc (get_julian_century r)
  unfolding get_julian_century exact
  get_julian_century-Gives =
      cached-Gives exact Name.ats_jc _ refl (differ Name.ats_jc position refl)
        (of_moment (λ b. julian_century r b.mjd))

  pub get_julian_day-Gives : Exactly Name.ats_jd (get_julian_day r)
  unfolding get_julian_day exact
  get_julian_day-Gives =
      cached-Gives exact Name.ats_jd _ refl (differ Name.ats_jd position refl)
        (of_moment (λ b. julian_day r b.mjd))

  pub get_tai-Gives : Exactly Name.ats_tai (get_tai r)
  unfolding get_tai exact
  get_tai-Gives =
      cached-Gives exact Name.ats_tai _ refl (differ Name.ats_tai position refl)
        (of_moment (λ b. tai r b.mjd b.dat))

  pub century-Gives : Gives exact (get_julian_century r) century
  unfolding exact
  century-Gives = get_julian_century-Gives

  from_century-Gives :
      (k : Name) (f : r.Double → r.Double)
      → ((b : Moment r.Double) → f (century b) ≡ exact k b)
      → flag k ≡ k
      → IsValue k
      → Exactly k (from_century r k f)
  unfolding from_century
  from_century-Gives k f e p q = cached-Gives exact k _ p q (
      respec (get_julian_century r >>= λ t. give (f t)) e
        (last (get_julian_century r) f century century-Gives))

  pub get_gmst-Gives : Exactly Name.ats_gmst (get_gmst r)
  unfolding get_gmst exact greenwich_mean_sidereal_time
  get_gmst-Gives =
      from_century-Gives Name.ats_gmst (gmst_of r) (λ b. refl) refl
        (differ Name.ats_gmst position refl)

  pub get_mean_obliquity-Gives : Exactly Name.ats_mo (get_mean_obliquity r)
  unfolding get_mean_obliquity exact
  get_mean_obliquity-Gives =
      from_century-Gives Name.ats_mo (mean_obliquity r) (λ b. refl) refl
        (differ Name.ats_mo position refl)

  pub get_mean_anomaly_sun-Gives : Exactly Name.ats_masun (get_mean_anomaly_sun r)
  unfolding get_mean_anomaly_sun exact
  get_mean_anomaly_sun-Gives =
      from_century-Gives Name.ats_masun (mean_anomaly_sun r) (λ b. refl) refl
        (differ Name.ats_masun position refl)

  pub get_mean_anomaly_moon-Gives : Exactly Name.ats_mamoon (get_mean_anomaly_moon r)
  unfolding get_mean_anomaly_moon exact
  get_mean_anomaly_moon-Gives =
      from_century-Gives Name.ats_mamoon (mean_anomaly_moon r) (λ b. refl) refl
        (differ Name.ats_mamoon position refl)

  pub get_mean_elongation_moon_sun-Gives :
      Exactly Name.ats_melong_moon_sun (get_mean_elongation_moon_sun r)
  unfolding get_mean_elongation_moon_sun exact
  get_mean_elongation_moon_sun-Gives =
      from_century-Gives Name.ats_melong_moon_sun (mean_elongation_moon_sun r) (λ b. refl) refl
        (differ Name.ats_melong_moon_sun position refl)

  pub get_mean_long_asc_node_moon-Gives : Exactly Name.ats_mlan_moon (get_mean_long_asc_node_moon r)
  unfolding get_mean_long_asc_node_moon exact
  get_mean_long_asc_node_moon-Gives =
      from_century-Gives Name.ats_mlan_moon (mean_long_asc_node_moon r) (λ b. refl) refl
        (differ Name.ats_mlan_moon position refl)

  pub get_rel_long_moon-Gives : Exactly Name.ats_rlong_moon (get_rel_long_moon r)
  unfolding get_rel_long_moon exact
  get_rel_long_moon-Gives =
      from_century-Gives Name.ats_rlong_moon (rel_long_moon r) (λ b. refl) refl
        (differ Name.ats_rlong_moon position refl)

  pub get_mean_long_sun-Gives : Exactly Name.ats_ml_sun (get_mean_long_sun r)
  unfolding get_mean_long_sun exact
  get_mean_long_sun-Gives =
      from_century-Gives Name.ats_ml_sun (mean_long_sun r) (λ b. refl) refl
        (differ Name.ats_ml_sun position refl)

  pub get_eccentricity_earth-Gives : Exactly Name.ats_eccentricity_earth (get_eccentricity_earth r)
  unfolding get_eccentricity_earth exact
  get_eccentricity_earth-Gives =
      from_century-Gives Name.ats_eccentricity_earth (eccentricity_earth r) (λ b. refl) refl
        (differ Name.ats_eccentricity_earth position refl)

  pub get_perihelion_long_earth-Gives : Exactly Name.ats_pl_earth (get_perihelion_long_earth r)
  unfolding get_perihelion_long_earth exact
  get_perihelion_long_earth-Gives =
      from_century-Gives Name.ats_pl_earth (perihelion_long_earth r) (λ b. refl) refl
        (differ Name.ats_pl_earth position refl)
