-- ===== src/TimeSpace/Calendar.antt =====
-- SetUTC, ModifiedJulianDay and Mjd2Cal of airs/src/ATimeSpace.cpp, without the fraction of the day,
-- which the code adds to the day or takes from it.
use airs.Base.{
  ℕ, zero, suc, ◌+◌, ◌-◌, ◌*◌, ◌/◌, ◌%◌, Bool, ◌&&◌, ◌||◌, not, ◌==◌, ltb, if◌then◌else◌, none,
  some, List, [], ◌∷◌, get_elem?,
}
use airs.Base.Int.{ℤ, pos, negsuc, ◌+ℤ◌, ◌-ℤ◌, ltb_ℤ, eqb_ℤ, int32}
use airs.Badmark.Marks.{abs}

abbrev negated : ℕ → ℤ
negated zero = pos 0
negated (suc n) = negsuc n

-- Products and quotients of ints by constants; a quotient is cut off towards 0.
infixl 66 ◌*ℤ◌ ◌/ℤ◌
abbrev pub ◌*ℤ◌ : ℕ → ℤ → ℤ
k *ℤ pos a = pos (k * a)
k *ℤ negsuc a = negated (k * suc a)

abbrev pub ◌/ℤ◌ : ℤ → ℕ → ℤ
pos a /ℤ n = pos (a / n)
negsuc a /ℤ n = negated (suc a / n)

-- ModifiedJulianDay: the modified Julian day of a date. The second term and the sum are of type long.
unfoldable pub modified_julian_day : ℤ → ℤ → ℤ → ℤ
modified_julian_day iy im id =
    let my = int32 (im -ℤ pos 14) /ℤ 12 in
    let iypmy = int32 (iy +ℤ my) in
    int32 (1461 *ℤ int32 (iypmy +ℤ pos 4800)) /ℤ 4
    +ℤ (367 *ℤ int32 (im -ℤ pos 2 -ℤ int32 (12 *ℤ my))) /ℤ 12
    -ℤ (3 *ℤ (int32 (iypmy +ℤ pos 4900) /ℤ 100)) /ℤ 4
    +ℤ id
    -ℤ pos 2432076

-- The year, the month and the day of Mjd2Cal from the number of the Julian day that begins at noon.
-- Its factors 365.25, 36524.25, 30.6000001 and 122.1 are written as fractions.
unfoldable pub gregorian : ℕ → ℕ
gregorian jdn =
    let t = (4 * jdn - 7468865) / 146097 in if ltb jdn 2299161 then jdn else jdn + 1 + t - t / 4

unfoldable pub calendar_of : ℕ → ℕ × (ℕ × ℕ)
unfolding gregorian
calendar_of jdn =
    let b = gregorian jdn + 1524 in
    let c = (20 * b - 2442) / 7305 in
    let d = (1461 * c) / 4 in
    let e = ((b - d) * 10000000) / 306000001 in
    let id = b - d - (306000001 * e) / 10000000 in
    let im = if ltb e 14 then e - 1 else e - 13 in
    let iy = if ltb 2 im then c - 4716 else c - 4715 in (iy, (im, id))

-- Mjd2Cal of a whole day from the year -4712 on.
unfoldable pub mjd2_cal : ℤ → ℕ × (ℕ × ℕ)
unfolding calendar_of
mjd2_cal mjd = calendar_of (abs (mjd +ℤ pos 2400001))

-- The lengths of the months, and whether a date is in a leap year's February.
abbrev pub mdays : List ℕ
mdays = 0 ∷ 31 ∷ 28 ∷ 31 ∷ 30 ∷ 31 ∷ 30 ∷ 31 ∷ 31 ∷ 30 ∷ 31 ∷ 30 ∷ 31 ∷ []

abbrev pub divides : ℕ → ℤ → Bool
divides n a = (abs a % n) == 0

abbrev pub leap : ℤ → Bool
leap iy = divides 4 iy && (not (divides 100 iy) || divides 400 iy)

-- An entry of `mdays`, and 0 behind its end.
abbrev pub month_length : ℕ → ℕ
month_length m = elim (get_elem? mdays m) [ none ↦ 0 | some n ↦ n ]

-- The validity of a date for SetUTC: 0, or the negative code of what is wrong. `fraction` says whether
-- the fraction of the day is in its range.
unfoldable pub check_date : ℤ → ℤ → ℤ → Bool → ℤ
check_date iy im id fraction =
    let ly = if eqb_ℤ im (pos 2) && leap iy then 1 else 0 in
    if ltb_ℤ iy (negsuc 4798)
    then negsuc 0
    else if ltb_ℤ im (pos 1) || ltb_ℤ (pos 12) im
    then negsuc 1
    else if ltb_ℤ id (pos 1) || ltb_ℤ (pos (month_length (abs im) + ly)) id
    then negsuc 2
    else if fraction
    then pos 0
    else negsuc 3
