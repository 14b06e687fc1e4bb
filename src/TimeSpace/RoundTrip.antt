-- ===== src/TimeSpace/RoundTrip.antt =====
-- Mjd2Cal of airs/src/ATimeSpace.cpp gives back the date that ModifiedJulianDay was given.
use airs.Base.{
  ℕ, zero, suc, ◌+◌, ◌-◌, ◌≤◌, ◌<◌, ◌≡◌, refl, ◌∙◌, ap, arith, Bool, true, false, if◌then◌else◌,
  ◌⊎◌, inl, inr, ◌&&◌, ◌==◌, subst, sym, ==_iff,
}
use airs.Base.Int.{ℤ, pos, ◌+ℤ◌}
use airs.Badmark.Ids.{both_true}
use airs.TimeSpace.Calendar.{
  modified_julian_day, calendar_of, mjd2_cal, leap, month_length, check_date,
}
use airs.TimeSpace.DayNumber.{
  month_days, year_days, dropped_days, day_number_late, day_number_early,
}
use airs.TimeSpace.Days.{IsDay, calendar_of-IsDay, month_of-late, month_of-early}

below_three : (m : ℕ) → m < 3 → m ≤ 2
below_three m h = omega arith

le-or-lt : (a b : ℕ) → (a ≤ b) ⊎ (b < a)
le-or-lt a b = omega arith

fits :
    (m d : ℕ)
    → 3 ≤ m
    → m ≤ 12
    → d ≤ month_length m
    → month_days (m - 2) + d ≤ month_days (suc (m - 2))
fits zero d h l k = omega arith
fits (suc zero) d h l k = omega arith
fits (suc (suc zero)) d h l k = omega arith
fits (suc (suc (suc zero))) d h l k = omega arith
fits (suc (suc (suc (suc zero)))) d h l k = omega arith
fits (suc (suc (suc (suc (suc zero))))) d h l k = omega arith
fits (suc (suc (suc (suc (suc (suc zero)))))) d h l k = omega arith
fits (suc (suc (suc (suc (suc (suc (suc zero))))))) d h l k = omega arith
fits (suc (suc (suc (suc (suc (suc (suc (suc zero)))))))) d h l k = omega arith
fits (suc (suc (suc (suc (suc (suc (suc (suc (suc zero))))))))) d h l k = omega arith
fits (suc (suc (suc (suc (suc (suc (suc (suc (suc (suc zero)))))))))) d h l k = omega arith
fits (suc (suc (suc (suc (suc (suc (suc (suc (suc (suc (suc zero))))))))))) d h l k = omega arith
fits (suc (suc (suc (suc (suc (suc (suc (suc (suc (suc (suc (suc zero)))))))))))) d h l k =
    omega arith
fits (suc (suc (suc (suc (suc (suc (suc (suc (suc (suc (suc (suc (suc m))))))))))))) d h l k =
    omega arith

-- What check_date lets through.
record IsDate (y m d : ℕ) : Type 0 where
  month_first : 1 ≤ m
  month_last : m ≤ 12
  day_first : 1 ≤ d
  day_last : (d ≤ month_length m) ⊎ ((m ≡ 2) × ((d ≤ 29) × (leap (pos y) ≡ true)))

longest_day :
    (y m d : ℕ) (fraction : Bool)
    → check_date (pos y) (pos m) (pos d) fraction ≡ pos 0
    → d ≤ month_length m + (if m == 2 && leap (pos y) then 1 else 0)
unfolding check_date
longest_day y m d fraction h = ground arith

february : (m d : ℕ) → m ≡ 2 → d ≤ month_length m + 1 → d ≤ 29
february m d e h = subst (λ k. d ≤ month_length k + 1) e h

last_day :
    (y m d : ℕ) (b : Bool)
    → (m == 2 && leap (pos y)) ≡ b
    → d ≤ month_length m + (if b then 1 else 0)
    → (d ≤ month_length m) ⊎ ((m ≡ 2) × ((d ≤ 29) × (leap (pos y) ≡ true)))
last_day y m d true e h =
    let (two, leaping) = both_true (m == 2) (leap (pos y)) e in
    let m2 = (==_iff m 2).0 two in inr (m2, (february m d m2 h, leaping))
last_day y m d false e h = inl (omega arith)

check_date-IsDate :
    (y m d : ℕ) (fraction : Bool)
    → check_date (pos y) (pos m) (pos d) fraction ≡ pos 0
    → IsDate y m d
unfolding check_date
check_date-IsDate y m d fraction h = record {
  month_first = ground arith;
  month_last = ground arith;
  day_first = ground arith;
  day_last = last_day y m d _ refl (longest_day y m d fraction h);
}

mjd2_cal-at : (mjd : ℤ) (j : ℕ) → mjd +ℤ pos 2400001 ≡ pos j → mjd2_cal mjd ≡ calendar_of j
unfolding mjd2_cal
mjd2_cal-at mjd j h = rw h refl

fits-late : (y m d : ℕ) → 3 ≤ m → IsDate y m d → month_days (m - 2) + d ≤ month_days (suc (m - 2))
fits-late y m d k s = elim s.day_last [
  | inl h ↦ fits m d k s.month_last h
  | inr (two, h) ↦ omega (arith, two, k)
]

short_year : (m d : ℕ) → 1 ≤ m → m ≤ 2 → d ≤ month_length m → month_days (m + 10) + d ≤ 395
short_year zero d h k l = omega (arith, h)
short_year (suc zero) d h k l = omega (arith, l)
short_year (suc (suc zero)) d h k l = omega (arith, l)
short_year (suc (suc (suc m))) d h k l = omega (arith, k)

short_month :
    (m d : ℕ)
    → 1 ≤ m
    → m ≤ 2
    → d ≤ month_length m
    → month_days (m + 10) + d ≤ month_days (suc (m + 10))
short_month zero d h k l = omega (arith, h)
short_month (suc zero) d h k l = omega (arith, l)
short_month (suc (suc zero)) d h k l = omega (arith, l)
short_month (suc (suc (suc m))) d h k l = omega (arith, k)

fits-early :
    (y m d : ℕ) → m ≤ 2 → IsDate y m d → month_days (m + 10) + d ≤ month_days (suc (m + 10))
fits-early y m d k s = elim s.day_last [
  | inl h ↦ short_month m d s.month_first k h
  | inr (two, (h, l)) ↦ omega (arith, two, h)
]

IsDate-late :
    (y m d : ℕ)
    → 1583 ≤ y
    → 3 ≤ m
    → IsDate y m d
    → IsDay y
        (month_days (m - 2) + d)
        (year_days y + month_days (m - 2) + d - dropped_days y - 32075)
IsDate-late y m d h k s =
    let f = fits-late y m d k s in
    record {
      from = omega arith;
      first = omega (arith, k, s.day_first);
      last = omega (arith, f, k, s.month_last);
      leap_day = inl (omega (arith, f, k, s.month_last));
      number = omega arith;
      reform = omega (arith, h, k, s.day_first);
    }

longest_year : (y m d : ℕ) → m ≤ 2 → IsDate y m d → month_days (m + 10) + d ≤ 396
longest_year y m d k s = elim s.day_last [
  | inl e ↦ omega (arith, short_year m d s.month_first k e)
  | inr (two, (e, l)) ↦ omega (arith, two, e)
]

back_on : (y : ℕ) → 1583 ≤ y → y ≡ suc (y - 1)
back_on y h = omega arith

leap_day-early :
    (y m d : ℕ)
    → 1583 ≤ y
    → m ≤ 2
    → IsDate y m d
    → (month_days (m + 10) + d ≤ 395) ⊎ (leap (pos (suc (y - 1))) ≡ true)
leap_day-early y m d h k s = elim s.day_last [
  | inl e ↦ inl (short_year m d s.month_first k e)
  | inr (two, (e, l)) ↦ inr (subst (λ z. leap (pos z) ≡ true) (back_on y h) l)
]

IsDate-early :
    (y m d : ℕ)
    → 1583 ≤ y
    → m ≤ 2
    → IsDate y m d
    → IsDay
        (y - 1)
        (month_days (m + 10) + d)
        (year_days (y - 1) + month_days (m + 10) + d - dropped_days (y - 1) - 32075)
IsDate-early y m d h k s =
    let f = fits-early y m d k s in
    record {
      from = omega arith;
      first = omega (arith, s.month_first, s.day_first);
      last = longest_year y m d k s;
      leap_day = leap_day-early y m d h k s;
      number = omega arith;
      reform = omega (arith, h, s.month_first, s.day_first);
    }

-- For every date of the years from 1583 to 1465072 that SetUTC accepts, Mjd2Cal gives back the
-- year, the month and the day from the modified Julian day that ModifiedJulianDay gives for it.
pub mjd2_cal-modified_julian_day :
    (y m d : ℕ) (fraction : Bool)
    → 1583 ≤ y
    → y ≤ 1465072
    → check_date (pos y) (pos m) (pos d) fraction ≡ pos 0
    → mjd2_cal (modified_julian_day (pos y) (pos m) (pos d)) ≡ (y, (m, d))
mjd2_cal-modified_julian_day y m d fraction h top v =
    let s = check_date-IsDate y m d fraction v in
    elim (le-or-lt 3 m) [
      | inl late ↦
          let day = IsDate-late y m d h late s in
          mjd2_cal-at _ _ (day_number_late y m d h top late s.month_last)
          ∙ calendar_of-IsDay y _ _ day
          ∙ month_of-late y m d late s.month_last s.day_first (fits-late y m d late s)
      | inr before ↦
          let early = below_three m before in
          let day = IsDate-early y m d h early s in
          mjd2_cal-at _ _ (day_number_early y m d h top s.month_first early)
          ∙ calendar_of-IsDay (y - 1) _ _ day
          ∙ month_of-early (y - 1) m d s.month_first early s.day_first (fits-early y m d early s)
          ∙ ap (λ z. (z, (m, d))) (sym (back_on y h))
    ]
