-- ===== src/TimeSpace/Sun.antt =====
-- CenterSun, TrueLongSun, TrueAnomalySun and SunPosition of ATimeSpace in airs/src/ATimeSpace.cpp.
use airs.Base.{◌≡◌, refl, ◌∙◌, sym, ap}
use airs.TimeSpace.Formulas.{Real, center_of, position_of}
use airs.TimeSpace.Static.{center_sun, true_long_sun, sun_position}
use airs.TimeSpace.Values.{Name, Moment, flag}
use airs.TimeSpace.Getters.{
  Get, ◌>>=◌, give, cached, get_julian_century, get_mean_obliquity, get_mean_anomaly_sun,
  get_mean_long_sun, get_center_sun, get_true_long_sun, get_true_anomaly_sun, fresh_position,
  keep_position, get_sun_position,
}
use airs.TimeSpace.Kept.{IsValue, Gives, either-Gives, cached-Gives, position-IsRight}
use airs.TimeSpace.Exact.{
  differ, century, exact, position, Exactly, respec, step, last, century-Gives,
  get_mean_obliquity-Gives, get_mean_anomaly_sun-Gives, get_mean_long_sun-Gives,
}

pair_eq : {A B : Type 0} {a a' : A} {b b' : B} → a ≡ a' → b ≡ b' → ◌≡◌ {A = A × B} (a, b) (a', b')
pair_eq {a' = a'} {b = b} e f = ap (λ x. (x, b)) e ∙ ap (λ y. (a', y)) f

module _ (r : Real) where
  abbrev with_century : r.Double → Get r.Double r.Double
  with_century t = get_mean_anomaly_sun r >>= λ ma. give (center_of r t ma)

  pub get_center_sun-Gives : Exactly r Name.ats_center_sun (get_center_sun r)
  unfolding get_center_sun exact center_sun
  get_center_sun-Gives =
      cached-Gives (exact r) Name.ats_center_sun (get_julian_century r >>= with_century) refl
        (differ Name.ats_center_sun (position r) refl)
        (step r (get_julian_century r) with_century (century r)
          (λ t b. center_of r t (exact r Name.ats_masun b)) (century-Gives r)
          (λ t.
            last r (get_mean_anomaly_sun r) (λ ma. center_of r t ma) (exact r Name.ats_masun)
              (get_mean_anomaly_sun-Gives r)))

  -- A value with the equation of the centre added.
  abbrev with_center : r.Double → Get r.Double r.Double
  with_center m = get_center_sun r >>= λ c. give (r.add m c)

  centered-Gives :
      (k : Name) (g : Get r.Double r.Double) (s : Moment r.Double → r.Double)
      → ((b : Moment r.Double) → r.add (s b) (exact r Name.ats_center_sun b) ≡ exact r k b)
      → flag k ≡ k
      → IsValue k
      → Gives (exact r) g s
      → Exactly r k (cached k (g >>= with_center))
  centered-Gives k g s e p q h = cached-Gives (exact r) k (g >>= with_center) p q (
      respec r (g >>= with_center) e (
        step r g with_center s (λ m b. r.add m (exact r Name.ats_center_sun b)) h
          (λ m.
            last r (get_center_sun r) (λ c. r.add m c) (exact r Name.ats_center_sun)
              get_center_sun-Gives)))

  pub get_true_long_sun-Gives : Exactly r Name.ats_tl_sun (get_true_long_sun r)
  unfolding get_true_long_sun exact true_long_sun
  get_true_long_sun-Gives =
      centered-Gives Name.ats_tl_sun (get_mean_long_sun r) (exact r Name.ats_ml_sun) (λ b. refl)
        refl (differ Name.ats_tl_sun (position r) refl) (get_mean_long_sun-Gives r)

  pub get_true_anomaly_sun-Gives : Exactly r Name.ats_ta_sun (get_true_anomaly_sun r)
  unfolding get_true_anomaly_sun exact
  get_true_anomaly_sun-Gives =
      centered-Gives Name.ats_ta_sun (get_mean_anomaly_sun r) (exact r Name.ats_masun) (λ b. refl)
        refl (differ Name.ats_ta_sun (position r) refl) (get_mean_anomaly_sun-Gives r)

  abbrev pub now_position : Moment r.Double → r.Double × r.Double
  now_position b = sun_position r (century r b)

  abbrev with_longitude : r.Double → r.Double → Get r.Double (r.Double × r.Double)
  with_longitude t tl = get_mean_obliquity r >>= λ mo. give (position_of r t tl mo)

  abbrev with_time : r.Double → Get r.Double (r.Double × r.Double)
  with_time t = get_true_long_sun r >>= λ tl. with_longitude t tl

  fresh_position-Gives : Gives (exact r) (fresh_position r) now_position
  unfolding fresh_position exact sun_position
  fresh_position-Gives =
      step r (get_julian_century r) with_time (century r)
        (λ t b. position_of r t (exact r Name.ats_tl_sun b) (exact r Name.ats_mo b))
        (century-Gives r)
        (λ t.
          step r (get_true_long_sun r) (with_longitude t) (exact r Name.ats_tl_sun)
            (λ tl b. position_of r t tl (exact r Name.ats_mo b)) get_true_long_sun-Gives
            (λ tl.
              last r (get_mean_obliquity r) (λ mo. position_of r t tl mo) (exact r Name.ats_mo)
                (get_mean_obliquity-Gives r)))

  kept_position-Gives : Gives (exact r) (fresh_position r >>= keep_position r) now_position
  unfolding keep_position exact
  kept_position-Gives st h =
      let (e, (i, c)) = fresh_position-Gives st h in
      let ea = ap (λ p. p.0) e in
      let ed = ap (λ p. p.1) e in
      (
        e,
        (
          position-IsRight (exact r) _ _ (fresh_position r st).1
              (ea ∙ ap (λ m. (now_position m).0) (sym c))
              (ed ∙ ap (λ m. (now_position m).1) (sym c)) i,
          c,
        ),
      )

  pub get_sun_position-Gives : Gives (exact r) (get_sun_position r) now_position
  unfolding get_sun_position exact
  get_sun_position-Gives =
      either-Gives (exact r) Name.ats_position_sun
        (λ st. (st.values Name.ats_position_sun_ra, st.values Name.ats_position_sun_dec))
        (fresh_position r >>= keep_position r) now_position
        (λ st h v.
          pair_eq (h Name.ats_position_sun_ra (differ Name.ats_position_sun_ra (position r) refl) v)
            (h Name.ats_position_sun_dec (differ Name.ats_position_sun_dec (position r) refl) v))
        kept_position-Gives
