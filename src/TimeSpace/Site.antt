-- ===== src/TimeSpace/Site.antt =====
-- SetSite of ATimeSpace in airs/src/ATimeSpace.cpp does not take back the values that depend on the
-- longitude.
use airs.Base.{◌≡◌, refl, ◌∙◌, true, Bool-cases, inl, inr}
use airs.TimeSpace.Formulas.{Real, local_mean}
use airs.TimeSpace.Values.{Name, Times}
use airs.TimeSpace.Getters.{Get, ◌>>=◌, give, the_moment, keep, cached, get_gmst, get_lmst}
use airs.TimeSpace.Kept.{same_self}
use airs.TimeSpace.Clock.{set_site}

module _ {D : Type 0} where
  -- A value that has been asked for is kept.
  cached_lem :
      (k : Name) (g : Get D D) (st : Times D)
      → ((cached k g st).1.valid k ≡ true) × ((cached k g st).1.values k ≡ (cached k g st).0)
  unfolding cached keep
  cached_lem k g st = elim (Bool-cases (st.valid k)) [
    | inl valid ↦ rw valid (valid, refl)
    | inr invalid ↦ rw (invalid, same_self k) (refl, refl)
  ]

  cached_again :
      (k : Name) (g : Get D D) (st : Times D) → st.valid k ≡ true → (cached k g st).0 ≡ st.values k
  unfolding cached
  cached_again k g st h = rw h refl

-- How the local mean sidereal time is worked out.
abbrev fresh : (r : Real) → Get r.Double r.Double
fresh r = get_gmst r >>= λ gmst. the_moment >>= λ b. give (local_mean r gmst b.lgt)

-- After the local mean sidereal time has been asked for, SetSite with any longitude leaves its
-- value as it was.
pub get_lmst-set_site :
    (r : Real) (lgt : r.Double) (st : Times r.Double)
    → (get_lmst r (set_site r lgt (get_lmst r st).1)).0 ≡ (get_lmst r st).0
unfolding get_lmst set_site
get_lmst-set_site r lgt st =
    let kept = cached_lem Name.ats_lmst (fresh r) st in
    cached_again Name.ats_lmst (fresh r) (set_site r lgt (get_lmst r st).1) kept.0 ∙ kept.1
