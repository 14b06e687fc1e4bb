-- ===== src/TimeSpace/Tests.antt =====
-- Whole numbers in place of doubles, and the theorems on times and dates at them.
use airs.Base.{
  ◌≡◌, refl, sym, arith, List, [], ◌∷◌, true, false, none, ◌↔◌, ◌≢◌, All, All-replicate, replicate,
}
use airs.Base.Text.{Text, codes, is_digit}
use airs.Base.Int.{ℤ, pos, ◌+ℤ◌, ◌-ℤ◌, ltb_ℤ, leb_ℤ, int32}
use airs.TimeSpace.Calendar.{modified_julian_day, mjd2_cal, check_date}
use airs.TimeSpace.RoundTrip.{mjd2_cal-modified_julian_day}
use airs.TimeSpace.Formulas.{Real}
use airs.TimeSpace.Leap.{delta_at, month_number}
use airs.TimeSpace.LeapRange.{first_month, delta_at-none}
use airs.TimeSpace.Values.{Name, Times}
use airs.TimeSpace.Getters.{get_lmst}
use airs.TimeSpace.Kept.{IsRight}
use airs.TimeSpace.Exact.{exact}
use airs.TimeSpace.Clock.{set_site}
use airs.TimeSpace.Refinement.{Op, kept, direct, kept-direct}
use airs.TimeSpace.Angles.{Scanned, hour_str2_dbl, deg_str2_dbl}
use airs.TimeSpace.AngleBounds.{str2_dbl-bounds}
use airs.TimeSpace.AngleOverrun.{hour_str2_dbl-overrun}
use airs.TimeSpace.Site.{get_lmst-set_site}
use mathlib.Core.Bool.{true≢false}

-- Every literal is a one, and the functions of angles keep their argument.
abbrev whole : Real
whole = record {
  Double = ℤ;
  lit = λ s. pos 1;
  of_int = λ z. z;
  add = λ a b. a +ℤ b;
  sub = λ a b. a -ℤ b;
  mul = λ a b. a;
  div = λ a b. a;
  floor = λ a. a;
  sin = λ a. a;
  cos = λ a. a;
  asin = λ a. a;
  atan2 = λ a b. a;
  less = λ a b. ltb_ℤ a b;
}

valid_day : check_date (pos 2024) (pos 2) (pos 29) true ≡ pos 0
unfolding check_date
valid_day = refl

mjd2_cal-modified_julian_day_example :
    mjd2_cal (modified_julian_day (pos 2024) (pos 2) (pos 29)) ≡ (2024, (2, 29))
mjd2_cal-modified_julian_day_example =
    mjd2_cal-modified_julian_day 2024 2 29 true (omega arith) (omega arith) valid_day

delta_at-none_example :
    (delta_at whole (pos 1959) (pos 12) (pos 31) (pos 0) ≡ none)
    ↔ (leb_ℤ first_month (month_number (pos 1959) (pos 12)) ≡ false)
delta_at-none_example = delta_at-none whole (pos 1959) (pos 12) (pos 31) (pos 0)

-- In the year 178956971 the number of the month is above the range of int.
month_wrapped : leb_ℤ first_month (month_number (pos 178956971) (pos 1)) ≡ false
unfolding int32 ◌+ℤ◌
month_wrapped = refl

-- Nothing is valid yet.
abbrev new_times : Times ℤ
new_times = record {
  now = record { mjd = pos 0; dat = pos 0; lgt = pos 2 };
  values = λ k. pos 0;
  valid = λ k. false;
}

new_times-IsRight : IsRight (exact whole) new_times
new_times-IsRight k q v = absurd (true≢false (sym v))

abbrev questions : List (Op whole)
questions =
    Op.utc (pos 2024) (pos 2) (pos 29) (pos 0)
    ∷ Op.query Name.ats_lst
    ∷ Op.query Name.ats_position_sun_ra
    ∷ Op.query Name.ats_lst
    ∷ []

kept-direct_example : kept whole questions new_times ≡ direct whole questions new_times.now
kept-direct_example = kept-direct whole questions new_times new_times-IsRight

get_lmst-set_site_example :
    (get_lmst whole (set_site whole (pos 90) (get_lmst whole new_times).1)).0
    ≡ (get_lmst whole new_times).0
get_lmst-set_site_example = get_lmst-set_site whole (pos 90) new_times

str2_dbl-bounds_example :
    (hour_str2_dbl whole (λ s. pos 0) (codes "12:34:56.7") ≢ Scanned.overrun)
    × (deg_str2_dbl whole (λ s. pos 0) (codes "12:34:56.7") ≢ Scanned.overrun)
str2_dbl-bounds_example = str2_dbl-bounds whole (λ s. pos 0) (codes "12:34:56.7") (omega arith)

-- Nineteen digits.
abbrev fives : Text
fives = replicate 19 b'5'

fives-digits : All (λ d. is_digit d ≡ true) fives
fives-digits = All-replicate (λ d. is_digit d ≡ true) 19 b'5' refl

hour_str2_dbl-overrun_example : hour_str2_dbl whole (λ s. pos 0) (b'.' ∷ fives) ≡ Scanned.overrun
hour_str2_dbl-overrun_example =
    hour_str2_dbl-overrun whole (λ s. pos 0) fives fives-digits (omega arith)
