-- ===== src/TimeSpace/Refinement.antt =====
-- Any sequence of SetUTC and questions to ATimeSpace of airs/src/ATimeSpace.cpp is answered as if
-- every value were worked out anew.
use airs.Base.{
  ◌≡◌, ◌⊎◌, refl, ◌∙◌, sym, ap, List, [], ◌∷◌, true, false, Option, none, some, Option-cases,
  Bool-cases, inl, inr, if◌then◌else◌, subst,
}
use mathlib.Core.Option
use mathlib.Core.Option.{some-injective}
use airs.Badmark.Ids.{none-some}
use mathlib.Core.Bool.{true≢false}
use airs.Base.Int.{ℤ, pos, eqb_ℤ}
use airs.TimeSpace.Calendar.{check_date, modified_julian_day}
use airs.TimeSpace.Formulas.{Real}
use airs.TimeSpace.Leap.{delta_at}
use airs.TimeSpace.Values.{Name, Moment, Times, invalid_values, flag}
use airs.TimeSpace.Getters.{
  Get, ◌>>=◌, give, get_julian_day, get_tai, get_julian_century, get_gmst, get_gst, get_lmst,
  get_lst, get_mean_obliquity, get_nutation_longitude, get_nutation_obliquity, get_mean_anomaly_sun,
  get_mean_anomaly_moon, get_mean_elongation_moon_sun, get_mean_long_asc_node_moon,
  get_rel_long_moon, get_mean_long_sun, get_center_sun, get_true_long_sun, get_true_anomaly_sun,
  get_eccentricity_earth, get_perihelion_long_earth, get_sun_position,
}
use airs.TimeSpace.Kept.{IsRight}
use airs.TimeSpace.Exact.{
  exact, last, Exactly, get_julian_day-Gives, get_tai-Gives, get_julian_century-Gives,
  get_gmst-Gives, get_mean_obliquity-Gives, get_mean_anomaly_sun-Gives, get_mean_anomaly_moon-Gives,
  get_mean_elongation_moon_sun-Gives, get_mean_long_asc_node_moon-Gives, get_rel_long_moon-Gives,
  get_mean_long_sun-Gives, get_eccentricity_earth-Gives, get_perihelion_long_earth-Gives,
}
use airs.TimeSpace.Nutation.{get_nutation_longitude-Gives, get_nutation_obliquity-Gives}
use airs.TimeSpace.Sidereal.{get_gst-Gives, get_lmst-Gives, get_lst-Gives}
use airs.TimeSpace.Sun.{
  get_center_sun-Gives, get_true_long_sun-Gives, get_true_anomaly_sun-Gives, now_position,
  get_sun_position-Gives,
}
use airs.TimeSpace.Clock.{set_utc, in_day}

module _ (r : Real) where
  -- The function that gives a value. The mark of the position stands for its first coordinate.
  unfoldable pub ask : Name → Get r.Double r.Double
  ask Name.ats_jd = get_julian_day r
  ask Name.ats_tai = get_tai r
  ask Name.ats_jc = get_julian_century r
  ask Name.ats_gmst = get_gmst r
  ask Name.ats_gst = get_gst r
  ask Name.ats_lmst = get_lmst r
  ask Name.ats_lst = get_lst r
  ask Name.ats_mo = get_mean_obliquity r
  ask Name.ats_nl = get_nutation_longitude r
  ask Name.ats_no = get_nutation_obliquity r
  ask Name.ats_masun = get_mean_anomaly_sun r
  ask Name.ats_mamoon = get_mean_anomaly_moon r
  ask Name.ats_melong_moon_sun = get_mean_elongation_moon_sun r
  ask Name.ats_mlan_moon = get_mean_long_asc_node_moon r
  ask Name.ats_rlong_moon = get_rel_long_moon r
  ask Name.ats_ml_sun = get_mean_long_sun r
  ask Name.ats_center_sun = get_center_sun r
  ask Name.ats_tl_sun = get_true_long_sun r
  ask Name.ats_ta_sun = get_true_anomaly_sun r
  ask Name.ats_eccentricity_earth = get_eccentricity_earth r
  ask Name.ats_pl_earth = get_perihelion_long_earth r
  ask Name.ats_position_sun = get_sun_position r >>= λ p. give p.0
  ask Name.ats_position_sun_ra = get_sun_position r >>= λ p. give p.0
  ask Name.ats_position_sun_dec = get_sun_position r >>= λ p. give p.1

  ask-Gives : (k : Name) → Exactly r k (ask k)
  unfolding ask exact
  ask-Gives Name.ats_jd = get_julian_day-Gives r
  ask-Gives Name.ats_tai = get_tai-Gives r
  ask-Gives Name.ats_jc = get_julian_century-Gives r
  ask-Gives Name.ats_gmst = get_gmst-Gives r
  ask-Gives Name.ats_gst = get_gst-Gives r
  ask-Gives Name.ats_lmst = get_lmst-Gives r
  ask-Gives Name.ats_lst = get_lst-Gives r
  ask-Gives Name.ats_mo = get_mean_obliquity-Gives r
  ask-Gives Name.ats_nl = get_nutation_longitude-Gives r
  ask-Gives Name.ats_no = get_nutation_obliquity-Gives r
  ask-Gives Name.ats_masun = get_mean_anomaly_sun-Gives r
  ask-Gives Name.ats_mamoon = get_mean_anomaly_moon-Gives r
  ask-Gives Name.ats_melong_moon_sun = get_mean_elongation_moon_sun-Gives r
  ask-Gives Name.ats_mlan_moon = get_mean_long_asc_node_moon-Gives r
  ask-Gives Name.ats_rlong_moon = get_rel_long_moon-Gives r
  ask-Gives Name.ats_ml_sun = get_mean_long_sun-Gives r
  ask-Gives Name.ats_center_sun = get_center_sun-Gives r
  ask-Gives Name.ats_tl_sun = get_true_long_sun-Gives r
  ask-Gives Name.ats_ta_sun = get_true_anomaly_sun-Gives r
  ask-Gives Name.ats_eccentricity_earth = get_eccentricity_earth-Gives r
  ask-Gives Name.ats_pl_earth = get_perihelion_long_earth-Gives r
  ask-Gives Name.ats_position_sun =
      last r (get_sun_position r) (λ p. p.0) (now_position r) (get_sun_position-Gives r)
  ask-Gives Name.ats_position_sun_ra =
      last r (get_sun_position r) (λ p. p.0) (now_position r) (get_sun_position-Gives r)
  ask-Gives Name.ats_position_sun_dec =
      last r (get_sun_position r) (λ p. p.1) (now_position r) (get_sun_position-Gives r)

  infixl 5 ◌>>=?◌
  abbrev ◌>>=?◌ : {A B : Type 0} → Option A → (A → Option B) → Option B
  none >>=? f = none
  some a >>=? f = f a

  pub data Op : Type 0 where
    utc : ℤ → ℤ → ℤ → r.Double → Op
    query : Name → Op

  -- The answers with the kept values; none where DeltaAT reads outside its table.
  unfoldable pub kept : List Op → Times r.Double → Option (List r.Double)
  kept [] st = some []
  kept (utc iy im id fd ∷ ops) st = set_utc r iy im id fd st >>=? λ next. kept ops next.1
  kept (query k ∷ ops) st = let (v, next) = ask k st in Option.map (λ vs. v ∷ vs) (kept ops next)

  -- SetUTC on the moment alone.
  unfoldable pub moment_of : ℤ → ℤ → ℤ → r.Double → Moment r.Double → Option (Moment r.Double)
  moment_of iy im id fd m =
      if eqb_ℤ (check_date iy im id (in_day r fd)) (pos 0)
      then Option.map
          (λ dat. record m { mjd = r.add (r.of_int (modified_julian_day iy im id)) fd; dat = dat })
          (delta_at r iy im id fd)
      else some m

  -- The answers without any kept value.
  unfoldable pub direct : List Op → Moment r.Double → Option (List r.Double)
  direct [] m = some []
  direct (utc iy im id fd ∷ ops) m = moment_of iy im id fd m >>=? λ next. direct ops next
  direct (query k ∷ ops) m = Option.map (λ vs. exact r k m ∷ vs) (direct ops m)

  -- What SetUTC does to the moment, and to right values.
  set_utc-moment_of :
      (iy im id : ℤ) (fd : r.Double) (st : Times r.Double)
      → Option.map (λ next. next.1.now) (set_utc r iy im id fd st) ≡ moment_of iy im id fd st.now
  unfolding set_utc moment_of invalid_values
  set_utc-moment_of iy im id fd st =
      elim (Bool-cases (eqb_ℤ (check_date iy im id (in_day r fd)) (pos 0))) [
        | inl good ↦ elim (Option-cases (delta_at r iy im id fd)) [
          | inl before ↦ rw (good, before) refl
          | inr (dat, found) ↦ rw (good, found) refl
        ]
        | inr bad ↦ rw bad refl
      ]

  set_utc-undefined :
      (iy im id : ℤ) (fd : r.Double) (st : Times r.Double)
      → eqb_ℤ (check_date iy im id (in_day r fd)) (pos 0) ≡ true
      → delta_at r iy im id fd ≡ none
      → set_utc r iy im id fd st ≡ none
  unfolding set_utc
  set_utc-undefined iy im id fd st good before = rw (set_utc, good, before) refl

  set_utc-accepted :
      (iy im id : ℤ) (fd : r.Double) (st : Times r.Double) (dat : r.Double)
      → eqb_ℤ (check_date iy im id (in_day r fd)) (pos 0) ≡ true
      → delta_at r iy im id fd ≡ some dat
      → set_utc r iy im id fd st
        ≡ some (
          pos 0,
          record (invalid_values st) {
            now = record st.now {
              mjd = r.add (r.of_int (modified_julian_day iy im id)) fd;
              dat = dat;
            };
          },
        )
  unfolding set_utc
  set_utc-accepted iy im id fd st dat good found = rw (set_utc, good, found) refl

  set_utc-refused :
      (iy im id : ℤ) (fd : r.Double) (st : Times r.Double)
      → eqb_ℤ (check_date iy im id (in_day r fd)) (pos 0) ≡ false
      → set_utc r iy im id fd st ≡ some (check_date iy im id (in_day r fd), st)
  unfolding set_utc
  set_utc-refused iy im id fd st bad = rw (set_utc, bad) refl

  -- SetUTC leaves either nothing valid, or all as it was.
  set_utc-cases :
      (iy im id : ℤ) (fd : r.Double) (st : Times r.Double) (next : ℤ × Times r.Double)
      → set_utc r iy im id fd st ≡ some next
      → (next.1.valid ≡ (λ k. false)) ⊎ (next.1 ≡ st)
  unfolding set_utc invalid_values
  set_utc-cases iy im id fd st next h =
      elim (Bool-cases (eqb_ℤ (check_date iy im id (in_day r fd)) (pos 0))) [
        | inl good ↦ elim (Option-cases (delta_at r iy im id fd)) [
          | inl before ↦ absurd (none-some next _ (set_utc-undefined iy im id fd st good before) h)
          | inr (dat, found) ↦ inl (
              sym (
                ap (λ n. n.1.valid)
                  (some-injective _ _ (sym (set_utc-accepted iy im id fd st dat good found) ∙ h))))
        ]
        | inr bad ↦ inr (
            sym (ap (λ n. n.1) (some-injective _ _ (sym (set_utc-refused iy im id fd st bad) ∙ h))))
      ]

  set_utc-IsRight :
      (iy im id : ℤ) (fd : r.Double) (st : Times r.Double) (next : ℤ × Times r.Double)
      → set_utc r iy im id fd st ≡ some next
      → IsRight (exact r) st
      → IsRight (exact r) next.1
  set_utc-IsRight iy im id fd st next h right k q v = elim (set_utc-cases iy im id fd st next h) [
    | inl nothing ↦ absurd (true≢false (sym v ∙ ap (λ f. f (flag k)) nothing))
    | inr unchanged ↦ subst (IsRight (exact r)) (sym unchanged) right k q v
  ]

  -- If all the kept values that are marked valid are right, then any sequence of calls of SetUTC
  -- and of the functions without arguments that keep their value gives the values that the static
  -- functions give for the moment set last, in order, however often and in whatever order they
  -- have been asked for, and reads outside the table of leap seconds in the same cases.
  pub kept-direct :
      (ops : List Op) (st : Times r.Double) → IsRight (exact r) st → kept ops st ≡ direct ops st.now
  unfolding kept direct
  kept-direct [] st right = refl
  kept-direct (Op.utc iy im id fd ∷ ops) st right = elim (Option-cases (set_utc r iy im id fd st)) [
    | inl undefined ↦
        let m =
          sym (set_utc-moment_of iy im id fd st) ∙ ap (Option.map (λ next. next.1.now)) undefined in
        rw (undefined, m) refl
    | inr (next, h) ↦
        let m = sym (set_utc-moment_of iy im id fd st) ∙ ap (Option.map (λ next. next.1.now)) h in
        rw (h, m) (kept-direct ops next.1 (set_utc-IsRight iy im id fd st next h right))
  ]
  kept-direct (Op.query k ∷ ops) st right =
      let (e, (i, c)) = ask-Gives k st right in rw (kept-direct ops (ask k st).1 i, e, c) refl
