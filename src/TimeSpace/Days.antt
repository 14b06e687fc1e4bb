-- ===== src/TimeSpace/Days.antt =====
-- Mjd2Cal of airs/src/ATimeSpace.cpp on a day of a year that begins in March.
use airs.Base.{
  ℕ, suc, ◌+◌, ◌-◌, ◌*◌, ◌/◌, ◌%◌, ◌≤◌, ◌<◌, ◌≡◌, refl, ◌∙◌, arith, true, false, ltb, if◌then◌else◌,
  ◌⊎◌, inl, inr,
}
use airs.Base.Int.{pos}
use airs.TimeSpace.Calendar.{gregorian, calendar_of, leap}
use airs.TimeSpace.Years.{century_lem, year_lem, gregorian_lem}
use airs.TimeSpace.DayNumber.{month_days, year_days, dropped_days}

long : (y : ℕ) → 1582 ≤ y → 13 < (y + 4900) / 400
long y h = omega arith

numbered :
    (y x j : ℕ)
    → 1582 ≤ y
    → j ≡ year_days y + x - dropped_days y - 32075
    → j + (3 * (4 * ((y + 4900) / 400) + ((y + 4900) / 100) % 4)) / 4 + 32075
      ≡ 36525 * (4 * ((y + 4900) / 400) + ((y + 4900) / 100) % 4)
        - 36525
        + (1461 * ((y + 4900) % 100)) / 4
        + x
numbered y x j h e = omega arith

not_less : (a b : ℕ) → b ≤ a → ltb a b ≡ false
not_less a b h = ground arith

leap_century :
    (y : ℕ) → leap (pos (suc y)) ≡ true → ((y + 4900) % 100 < 99) ⊎ (((y + 4900) / 100) % 4 ≡ 0)
leap_century y h = ground arith

leap_fourth : (y : ℕ) → leap (pos (suc y)) ≡ true → (y + 4716) % 4 ≡ 3
leap_fourth y h = ground arith

-- A day `x` of the year that begins in March of the year `y`.
pub record IsDay (y x j : ℕ) : Type 0 where
  pub from : 1582 ≤ y
  pub first : 31 ≤ x
  pub last : x ≤ 396
  pub leap_day : (x ≤ 395) ⊎ (leap (pos (suc y)) ≡ true)
  pub number : j ≡ year_days y + x - dropped_days y - 32075
  pub reform : 2299161 ≤ j

century-IsDay : (y x j : ℕ) → IsDay y x j → (4 * j - 7468865) / 146097 ≡ (y + 4900) / 100 - 53
century-IsDay y x j s =
    century_lem ((y + 4900) / 400) (((y + 4900) / 100) % 4) ((y + 4900) % 100) x j (long y s.from)
      (omega arith) (omega arith) s.first s.last
      (elim s.leap_day [ inl short ↦ inl short | inr long ↦ inr (leap_century y long) ])
      (numbered y x j s.from s.number)
    ∙ (omega arith)

gregorian-IsDay : (y x j : ℕ) → IsDay y x j → gregorian j + 1524 ≡ (1461 * (y + 4716)) / 4 + x + 92
unfolding gregorian
gregorian-IsDay y x j s =
    let t = century-IsDay y x j s in
    let n =
      gregorian_lem ((y + 4900) / 400) (((y + 4900) / 100) % 4) (long y s.from) (omega arith) in
    rw (not_less j 2299161 s.reform, t) (omega (arith, n, s.number, s.from))

left_over : (a x : ℕ) → a + x + 92 - a ≡ x + 92
left_over a x = omega arith

-- What Mjd2Cal does behind the year.
pub month_of : ℕ → ℕ → ℕ × (ℕ × ℕ)
month_of c x =
    let e = (x * 10000000) / 306000001 in
    let id = x - (306000001 * e) / 10000000 in
    let im = if ltb e 14 then e - 1 else e - 13 in
    let iy = if ltb 2 im then c - 4716 else c - 4715 in (iy, (im, id))

pub calendar_of-IsDay : (y x j : ℕ) → IsDay y x j → calendar_of j ≡ month_of (y + 4716) (x + 92)
unfolding calendar_of month_of
calendar_of-IsDay y x j s =
    let b = gregorian-IsDay y x j s in
    let c =
      year_lem (y + 4716) x (gregorian j + 1524) s.first s.last
        (elim s.leap_day [ inl short ↦ inl short | inr long ↦ inr (leap_fourth y long) ]) b in
    rw (c, b, left_over ((1461 * (y + 4716)) / 4) x) refl

month_lem :
    (n d : ℕ)
    → 1 ≤ n
    → n ≤ 12
    → 1 ≤ d
    → month_days n + d ≤ month_days (suc n)
    → ((month_days n + d + 92) * 10000000) / 306000001 ≡ n + 3
month_lem n d h k f l = omega arith

day_lem : (n d : ℕ) → 1 ≤ n → n ≤ 12 → month_days n + d + 92 - (306000001 * (n + 3)) / 10000000 ≡ d
day_lem n d h k = omega arith

pub month_of-late :
    (y m d : ℕ)
    → 3 ≤ m
    → m ≤ 12
    → 1 ≤ d
    → month_days (m - 2) + d ≤ month_days (suc (m - 2))
    → month_of (y + 4716) (month_days (m - 2) + d + 92) ≡ (y, (m, d))
unfolding month_of
month_of-late y m d k l f n =
    rw
      (
        month_lem (m - 2) d (omega arith) (omega arith) f n,
        day_lem (m - 2) d (omega arith) (omega arith),
      )
      (ground arith)

pub month_of-early :
    (y m d : ℕ)
    → 1 ≤ m
    → m ≤ 2
    → 1 ≤ d
    → month_days (m + 10) + d ≤ month_days (suc (m + 10))
    → month_of (y + 4716) (month_days (m + 10) + d + 92) ≡ (suc y, (m, d))
unfolding month_of
month_of-early y m d k l f n =
    rw
      (
        month_lem (m + 10) d (omega arith) (omega arith) f n,
        day_lem (m + 10) d (omega arith) (omega arith),
      )
      (ground arith)
