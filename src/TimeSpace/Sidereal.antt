-- ===== src/TimeSpace/Sidereal.antt =====
-- TrueObliquity and the sidereal times of ATimeSpace in airs/src/ATimeSpace.cpp, and SetSite.
use airs.Base.{◌≡◌, refl}
use airs.TimeSpace.Formulas.{Real, apparent, local_mean}
use airs.TimeSpace.Static.{
  true_obliquity, greenwich_sidereal_time, local_mean_sidereal_time, local_sidereal_time,
}
use airs.TimeSpace.Values.{Name, Moment, flag}
use airs.TimeSpace.Getters.{
  Get, ◌>>=◌, give, the_moment, from_mean, get_gmst, get_mean_obliquity, get_nutation_longitude,
  get_nutation_obliquity, get_true_obliquity, get_gst, get_lmst, get_lst,
}
use airs.TimeSpace.Kept.{IsValue, Gives, cached-Gives}
use airs.TimeSpace.Exact.{
  differ, century, exact, position, Exactly, respec, step, last, of_moment, get_gmst-Gives,
  get_mean_obliquity-Gives,
}
use airs.TimeSpace.Nutation.{
  now_nutation, get_nutation_longitude-Gives, get_nutation_obliquity-Gives,
}

module _ (r : Real) where
  abbrev now_obliquity : Moment r.Double → r.Double
  now_obliquity b = true_obliquity r (century r b)

  pub get_true_obliquity-Gives : Gives (exact r) (get_true_obliquity r) now_obliquity
  unfolding get_true_obliquity exact true_obliquity
  get_true_obliquity-Gives =
      step r (get_mean_obliquity r) (λ mo. get_nutation_obliquity r >>= λ ob. give (r.add mo ob))
        (exact r Name.ats_mo) (λ mo b. r.add mo (now_nutation r b).1) (get_mean_obliquity-Gives r)
        (λ mo.
          last r (get_nutation_obliquity r) (λ ob. r.add mo ob) (exact r Name.ats_no)
            (get_nutation_obliquity-Gives r))

  -- What comes after the mean time, and after the nutation.
  abbrev with_obliquity : r.Double → r.Double → Get r.Double r.Double
  with_obliquity m nl = get_true_obliquity r >>= λ to. give (apparent r m nl to)

  abbrev with_mean : r.Double → Get r.Double r.Double
  with_mean m = get_nutation_longitude r >>= λ nl. with_obliquity m nl

  from_mean-Gives :
      (k : Name) (mean : Get r.Double r.Double) (s : Moment r.Double → r.Double)
      → ((b : Moment r.Double)
          → apparent r (s b) (now_nutation r b).0 (now_obliquity b) ≡ exact r k b)
      → flag k ≡ k
      → IsValue k
      → Gives (exact r) mean s
      → Exactly r k (from_mean r k mean)
  unfolding from_mean exact
  from_mean-Gives k mean s e p q h = cached-Gives (exact r) k (mean >>= with_mean) p q (
      respec r (mean >>= with_mean) e (
        step r mean with_mean s (λ m b. apparent r m (now_nutation r b).0 (now_obliquity b)) h
          (λ m.
            step r (get_nutation_longitude r) (with_obliquity m) (exact r Name.ats_nl)
              (λ nl b. apparent r m nl (now_obliquity b)) (get_nutation_longitude-Gives r)
              (λ nl.
                last r (get_true_obliquity r) (λ to. apparent r m nl to) now_obliquity
                  get_true_obliquity-Gives))))

  pub get_gst-Gives : Exactly r Name.ats_gst (get_gst r)
  unfolding get_gst exact greenwich_sidereal_time true_obliquity
  get_gst-Gives =
      from_mean-Gives Name.ats_gst (get_gmst r) (exact r Name.ats_gmst) (λ b. refl) refl
        (differ Name.ats_gst (position r) refl) (get_gmst-Gives r)

  abbrev with_site : r.Double → Get r.Double r.Double
  with_site gmst = the_moment >>= λ b. give (local_mean r gmst b.lgt)

  pub get_lmst-Gives : Exactly r Name.ats_lmst (get_lmst r)
  unfolding get_lmst exact local_mean_sidereal_time
  get_lmst-Gives =
      cached-Gives (exact r) Name.ats_lmst (get_gmst r >>= with_site) refl
        (differ Name.ats_lmst (position r) refl)
        (step r (get_gmst r) with_site (exact r Name.ats_gmst) (λ g b. local_mean r g b.lgt)
          (get_gmst-Gives r) (λ g. of_moment r (λ b. local_mean r g b.lgt)))

  pub get_lst-Gives : Exactly r Name.ats_lst (get_lst r)
  unfolding get_lst exact local_sidereal_time true_obliquity
  get_lst-Gives =
      from_mean-Gives Name.ats_lst (get_lmst r) (exact r Name.ats_lmst) (λ b. refl) refl
        (differ Name.ats_lst (position r) refl) get_lmst-Gives
