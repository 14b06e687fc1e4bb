-- ===== src/TimeSpace/Values.antt =====
-- The values that ATimeSpace of airs/src/ATimeSpace.h keeps, and which of them are valid.
use airs.Base.{
  ℕ, ◌≡◌, ◌≢◌, refl, ◌∙◌, sym, ap, Bool, true, false, ◌==◌, ==_iff, if◌then◌else◌, ◌⊎◌, inl, inr,
}
use mathlib.Core.Bool.{true≢false}

-- The values with a mark of validity. The modified Julian day and DAT stand in Moment.
pub data Name : Type 0 where
  ats_jd ats_tai ats_jc ats_gmst ats_gst ats_lmst ats_lst ats_mo ats_nl ats_no ats_masun ats_mamoon
        ats_melong_moon_sun ats_mlan_moon ats_rlong_moon ats_ml_sun ats_center_sun ats_tl_sun
        ats_ta_sun ats_eccentricity_earth ats_pl_earth ats_position_sun ats_position_sun_ra
        ats_position_sun_dec :
      Name

-- Their numbers in the source.
abbrev pub code : Name → ℕ
code Name.ats_jd = 1
code Name.ats_tai = 2
code Name.ats_jc = 4
code Name.ats_gmst = 5
code Name.ats_gst = 6
code Name.ats_lmst = 7
code Name.ats_lst = 8
code Name.ats_mo = 9
code Name.ats_nl = 10
code Name.ats_no = 11
code Name.ats_masun = 12
code Name.ats_mamoon = 13
code Name.ats_melong_moon_sun = 14
code Name.ats_mlan_moon = 15
code Name.ats_rlong_moon = 16
code Name.ats_ml_sun = 17
code Name.ats_center_sun = 18
code Name.ats_tl_sun = 19
code Name.ats_ta_sun = 20
code Name.ats_eccentricity_earth = 21
code Name.ats_pl_earth = 22
code Name.ats_position_sun = 23
code Name.ats_position_sun_ra = 24
code Name.ats_position_sun_dec = 25

abbrev uncode : ℕ → Name
uncode k =
    if k == 1
    then Name.ats_jd
    else if k == 2
    then Name.ats_tai
    else if k == 4
    then Name.ats_jc
    else if k == 5
    then Name.ats_gmst
    else if k == 6
    then Name.ats_gst
    else if k == 7
    then Name.ats_lmst
    else if k == 8
    then Name.ats_lst
    else if k == 9
    then Name.ats_mo
    else if k == 10
    then Name.ats_nl
    else if k == 11
    then Name.ats_no
    else if k == 12
    then Name.ats_masun
    else if k == 13
    then Name.ats_mamoon
    else if k == 14
    then Name.ats_melong_moon_sun
    else if k == 15
    then Name.ats_mlan_moon
    else if k == 16
    then Name.ats_rlong_moon
    else if k == 17
    then Name.ats_ml_sun
    else if k == 18
    then Name.ats_center_sun
    else if k == 19
    then Name.ats_tl_sun
    else if k == 20
    then Name.ats_ta_sun
    else if k == 21
    then Name.ats_eccentricity_earth
    else if k == 22
    then Name.ats_pl_earth
    else if k == 23
    then Name.ats_position_sun
    else if k == 24
    then Name.ats_position_sun_ra
    else Name.ats_position_sun_dec

uncode-code : (k : Name) → uncode (code k) ≡ k
uncode-code Name.ats_jd = refl
uncode-code Name.ats_tai = refl
uncode-code Name.ats_jc = refl
uncode-code Name.ats_gmst = refl
uncode-code Name.ats_gst = refl
uncode-code Name.ats_lmst = refl
uncode-code Name.ats_lst = refl
uncode-code Name.ats_mo = refl
uncode-code Name.ats_nl = refl
uncode-code Name.ats_no = refl
uncode-code Name.ats_masun = refl
uncode-code Name.ats_mamoon = refl
uncode-code Name.ats_melong_moon_sun = refl
uncode-code Name.ats_mlan_moon = refl
uncode-code Name.ats_rlong_moon = refl
uncode-code Name.ats_ml_sun = refl
uncode-code Name.ats_center_sun = refl
uncode-code Name.ats_tl_sun = refl
uncode-code Name.ats_ta_sun = refl
uncode-code Name.ats_eccentricity_earth = refl
uncode-code Name.ats_pl_earth = refl
uncode-code Name.ats_position_sun = refl
uncode-code Name.ats_position_sun_ra = refl
uncode-code Name.ats_position_sun_dec = refl

abbrev pub same : Name → Name → Bool
same j k = code j == code k

pub same-eq : (j k : Name) → same j k ≡ true → j ≡ k
same-eq j k h = sym (uncode-code j) ∙ ap uncode ((==_iff (code j) (code k)).0 h) ∙ uncode-code k

-- The mark that covers a value: the two coordinates of the sun share one, which covers nothing else.
abbrev pub flag : Name → Name
flag Name.ats_position_sun_ra = Name.ats_position_sun
flag Name.ats_position_sun_dec = Name.ats_position_sun
flag k = k

pub flag-cases : (k : Name) → (flag k ≡ k) ⊎ (flag k ≡ Name.ats_position_sun)
flag-cases Name.ats_jd = inl refl
flag-cases Name.ats_tai = inl refl
flag-cases Name.ats_jc = inl refl
flag-cases Name.ats_gmst = inl refl
flag-cases Name.ats_gst = inl refl
flag-cases Name.ats_lmst = inl refl
flag-cases Name.ats_lst = inl refl
flag-cases Name.ats_mo = inl refl
flag-cases Name.ats_nl = inl refl
flag-cases Name.ats_no = inl refl
flag-cases Name.ats_masun = inl refl
flag-cases Name.ats_mamoon = inl refl
flag-cases Name.ats_melong_moon_sun = inl refl
flag-cases Name.ats_mlan_moon = inl refl
flag-cases Name.ats_rlong_moon = inl refl
flag-cases Name.ats_ml_sun = inl refl
flag-cases Name.ats_center_sun = inl refl
flag-cases Name.ats_tl_sun = inl refl
flag-cases Name.ats_ta_sun = inl refl
flag-cases Name.ats_eccentricity_earth = inl refl
flag-cases Name.ats_pl_earth = inl refl
flag-cases Name.ats_position_sun = inl refl
flag-cases Name.ats_position_sun_ra = inr refl
flag-cases Name.ats_position_sun_dec = inr refl

-- Only the two coordinates share the mark of the position.
pub flag_far :
    (j : Name)
    → j ≢ Name.ats_position_sun
    → same j Name.ats_position_sun_dec ≡ false
    → same j Name.ats_position_sun_ra ≡ false
    → same (flag j) Name.ats_position_sun ≡ false
flag_far Name.ats_jd q n m = refl
flag_far Name.ats_tai q n m = refl
flag_far Name.ats_jc q n m = refl
flag_far Name.ats_gmst q n m = refl
flag_far Name.ats_gst q n m = refl
flag_far Name.ats_lmst q n m = refl
flag_far Name.ats_lst q n m = refl
flag_far Name.ats_mo q n m = refl
flag_far Name.ats_nl q n m = refl
flag_far Name.ats_no q n m = refl
flag_far Name.ats_masun q n m = refl
flag_far Name.ats_mamoon q n m = refl
flag_far Name.ats_melong_moon_sun q n m = refl
flag_far Name.ats_mlan_moon q n m = refl
flag_far Name.ats_rlong_moon q n m = refl
flag_far Name.ats_ml_sun q n m = refl
flag_far Name.ats_center_sun q n m = refl
flag_far Name.ats_tl_sun q n m = refl
flag_far Name.ats_ta_sun q n m = refl
flag_far Name.ats_eccentricity_earth q n m = refl
flag_far Name.ats_pl_earth q n m = refl
flag_far Name.ats_position_sun q n m = absurd (q refl)
flag_far Name.ats_position_sun_ra q n m = absurd (true≢false m)
flag_far Name.ats_position_sun_dec q n m = absurd (true≢false n)

-- What the values are worked out from.
pub record Moment (D : Type 0) : Type 0 where
  pub mjd : D
  pub dat : D
  pub lgt : D

pub record Times (D : Type 0) : Type 0 where
  pub now : Moment D
  pub values : Name → D
  pub valid : Name → Bool

module _ {D : Type 0} where
  -- values_[k] = v.
  abbrev pub put : Name → D → Times D → Times D
  put k v st = record st { values = λ j. if same j k then v else st.values j }

  -- valid_[k] = true.
  abbrev pub mark : Name → Times D → Times D
  mark k st = record st { valid = λ j. if same j k then true else st.valid j }

  unfoldable pub invalid_values : Times D → Times D
  invalid_values st = record st { valid = λ j. false }
