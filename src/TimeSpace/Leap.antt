-- ===== src/TimeSpace/Leap.antt =====
-- DeltaAT of airs/src/ATimeSpace.cpp: TAI - UTC from the table of leap seconds, with the drift of the
-- years before 1972.
use airs.Base.{ℕ, suc, ◌+◌, ◌-◌, ◌*◌, List, [], ◌∷◌, Option, none, some, if◌then◌else◌, get_elem?}
use airs.Base.Int.{ℤ, pos, ◌+ℤ◌, leb_ℤ, int32}
use airs.TimeSpace.Calendar.{modified_julian_day, ◌*ℤ◌}
use airs.TimeSpace.Formulas.{Real}
use Prim.Native.String.{String}

-- The reference dates and the drifts.
abbrev pub drift : List (String × String)
drift =
    ("37300.0", "0.0012960")
    ∷ ("37300.0", "0.0012960")
    ∷ ("37300.0", "0.0012960")
    ∷ ("37665.0", "0.0011232")
    ∷ ("37665.0", "0.0011232")
    ∷ ("38761.0", "0.0012960")
    ∷ ("38761.0", "0.0012960")
    ∷ ("38761.0", "0.0012960")
    ∷ ("38761.0", "0.0012960")
    ∷ ("38761.0", "0.0012960")
    ∷ ("38761.0", "0.0012960")
    ∷ ("38761.0", "0.0012960")
    ∷ ("39126.0", "0.0025920")
    ∷ ("39126.0", "0.0025920")
    ∷ []

-- The year, the month and the difference.
abbrev pub changes : List (ℕ × (ℕ × String))
changes =
    (1960, (1, "1.4178180"))
    ∷ (1961, (1, "1.4228180"))
    ∷ (1961, (8, "1.3728180"))
    ∷ (1962, (1, "1.8458580"))
    ∷ (1963, (11, "1.9458580"))
    ∷ (1964, (1, "3.2401300"))
    ∷ (1964, (4, "3.3401300"))
    ∷ (1964, (9, "3.4401300"))
    ∷ (1965, (1, "3.5401300"))
    ∷ (1965, (3, "3.6401300"))
    ∷ (1965, (7, "3.7401300"))
    ∷ (1965, (9, "3.8401300"))
    ∷ (1966, (1, "4.3131700"))
    ∷ (1968, (2, "4.2131700"))
    ∷ (1972, (1, "10.0"))
    ∷ (1972, (7, "11.0"))
    ∷ (1973, (1, "12.0"))
    ∷ (1974, (1, "13.0"))
    ∷ (1975, (1, "14.0"))
    ∷ (1976, (1, "15.0"))
    ∷ (1977, (1, "16.0"))
    ∷ (1978, (1, "17.0"))
    ∷ (1979, (1, "18.0"))
    ∷ (1980, (1, "19.0"))
    ∷ (1981, (7, "20.0"))
    ∷ (1982, (7, "21.0"))
    ∷ (1983, (7, "22.0"))
    ∷ (1985, (7, "23.0"))
    ∷ (1988, (1, "24.0"))
    ∷ (1990, (1, "25.0"))
    ∷ (1991, (1, "26.0"))
    ∷ (1992, (7, "27.0"))
    ∷ (1993, (7, "28.0"))
    ∷ (1994, (7, "29.0"))
    ∷ (1996, (1, "30.0"))
    ∷ (1997, (7, "31.0"))
    ∷ (1999, (1, "32.0"))
    ∷ (2006, (1, "33.0"))
    ∷ (2009, (1, "34.0"))
    ∷ (2012, (7, "35.0"))
    ∷ (2015, (7, "36.0"))
    ∷ (2017, (1, "37.0"))
    ∷ []

-- The search from the end of the table: how many entries are left when the month `m` is not before the
-- last of them, and that entry. None are left before the first entry.
unfoldable pub find_change : ℤ → List (ℕ × (ℕ × String)) → ℕ × Option String
find_change m [] = (0, none)
find_change m ((y, (k, d)) ∷ rest) =
    let (left, found) = find_change m rest in
    elim found [
      | none ↦ if leb_ℤ (pos (12 * y + k)) m then (1, some d) else (0, none)
      | some e ↦ (suc left, some e)
    ]

-- m = 12 * iy + im.
abbrev pub month_number : ℤ → ℤ → ℤ
month_number iy im = int32 (int32 (12 *ℤ iy) +ℤ im)

module _ (r : Real) where
  -- Before 1972 the drift since a reference date is added.
  unfoldable pub drifted : ℤ → ℤ → ℤ → r.Double → r.Double → Option (String × String) → r.Double
  unfolding modified_julian_day
  drifted iy im id fd da none = da
  drifted iy im id fd da (some (date, rate)) = r.add da (
      r.mul (r.sub (r.add (r.add (r.of_int (modified_julian_day iy im id)) fd) fd) (r.lit date))
        (r.lit rate))

  -- none for a read of changes[-1].
  unfoldable pub from_change : ℤ → ℤ → ℤ → r.Double → ℕ × Option String → Option r.Double
  unfolding drifted
  from_change iy im id fd (left, none) = none
  from_change iy im id fd (left, some d) =
      some (drifted iy im id fd (r.lit d) (get_elem? drift (left - 1)))

  unfoldable pub delta_at : ℤ → ℤ → ℤ → r.Double → Option r.Double
  unfolding find_change
  delta_at iy im id fd = from_change iy im id fd (find_change (month_number iy im) changes)
