-- ===== src/TimeSpace/DayNumber.antt =====
-- ModifiedJulianDay of airs/src/ATimeSpace.cpp on natural numbers, for the dates after its reform.
use airs.Base.{ℕ, ◌+◌, ◌-◌, ◌*◌, ◌/◌, ◌≤◌, ◌≡◌, arith}
use airs.Base.Int.{pos, negsuc, ◌+ℤ◌, ◌-ℤ◌, int32, int32_pos, int32_negsuc, int32-is_int}
use airs.TimeSpace.Calendar.{modified_julian_day, ◌/ℤ◌}

-- The days from March on before a month, by the formula of the source, and the days before a year.
abbrev pub month_days : ℕ → ℕ
month_days n = (367 * n) / 12

abbrev pub year_days : ℕ → ℕ
year_days y = (1461 * (y + 4800)) / 4

abbrev pub dropped_days : ℕ → ℕ
dropped_days y = (3 * ((y + 4900) / 100)) / 4

early : (m : ℕ) → 1 ≤ m → m ≤ 2 → (pos m -ℤ pos 14) /ℤ 12 ≡ negsuc 0
unfolding ◌-ℤ◌
early m h k = ground arith

late : (m : ℕ) → 3 ≤ m → m ≤ 12 → (pos m -ℤ pos 14) /ℤ 12 ≡ pos 0
unfolding ◌-ℤ◌
late m h k = ground arith

plus_pos : (a b : ℕ) → pos a +ℤ pos b ≡ pos (a + b)
unfolding ◌+ℤ◌
plus_pos a b = ground arith

plus_zero : (a : ℕ) → pos a +ℤ pos 0 ≡ pos a
unfolding ◌+ℤ◌
plus_zero a = ground arith

minus_pos : (a b : ℕ) → b ≤ a → pos a -ℤ pos b ≡ pos (a - b)
unfolding ◌-ℤ◌
minus_pos a b h = ground arith

minus_one : (a : ℕ) → 1 ≤ a → pos a +ℤ negsuc 0 ≡ pos (a - 1)
unfolding ◌+ℤ◌
minus_one a h = ground arith

months_late : (m : ℕ) → 3 ≤ m → pos m -ℤ pos 2 -ℤ pos 0 ≡ pos (m - 2)
unfolding ◌-ℤ◌
months_late m h = ground arith

months_early : (m : ℕ) → m ≤ 2 → pos m -ℤ pos 2 -ℤ negsuc 11 ≡ pos (m + 10)
unfolding ◌-ℤ◌
months_early m h = ground arith

-- The month less 14 is an int.
month_int : (m : ℕ) → m ≤ 12 → int32 (pos m -ℤ pos 14) ≡ pos m -ℤ pos 14
unfolding ◌-ℤ◌
month_int m h = int32-is_int _ (ground arith)

joined :
    (a b c d : ℕ)
    → c ≤ a + b
    → c + 32075 ≤ a + b + d
    → pos a +ℤ pos b -ℤ pos c +ℤ pos d -ℤ pos 2432076 +ℤ pos 2400001 ≡ pos (a + b + d - c - 32075)
unfolding ◌+ℤ◌ ◌-ℤ◌
joined a b c d h k = ground arith

pub day_number_late :
    (y m d : ℕ)
    → 1583 ≤ y
    → y ≤ 1465072
    → 3 ≤ m
    → m ≤ 12
    → modified_julian_day (pos y) (pos m) (pos d) +ℤ pos 2400001
      ≡ pos (year_days y + month_days (m - 2) + d - dropped_days y - 32075)
unfolding modified_julian_day
day_number_late y m d h top k l =
    rw
      (
        month_int m l,
        late m k l,
        plus_zero y,
        int32_pos y (omega arith),
        int32_pos 0 (omega arith),
        months_late m k,
        int32_pos (m - 2) (omega arith),
        plus_pos y 4800,
        int32_pos (y + 4800) (omega arith),
        int32_pos (1461 * (y + 4800)) (omega arith),
        plus_pos y 4900,
        int32_pos (y + 4900) (omega arith),
      )
      (joined _ _ _ d (omega arith) (omega arith))

pub day_number_early :
    (y m d : ℕ)
    → 1583 ≤ y
    → y ≤ 1465072
    → 1 ≤ m
    → m ≤ 2
    → modified_julian_day (pos y) (pos m) (pos d) +ℤ pos 2400001
      ≡ pos (year_days (y - 1) + month_days (m + 10) + d - dropped_days (y - 1) - 32075)
unfolding modified_julian_day
day_number_early y m d h top k l =
    rw
      (
        month_int m (omega arith),
        early m k l,
        minus_one y (omega arith),
        int32_pos (y - 1) (omega arith),
        int32_negsuc 11 (omega arith),
        months_early m l,
        int32_pos (m + 10) (omega arith),
        plus_pos (y - 1) 4800,
        int32_pos (y - 1 + 4800) (omega arith),
        int32_pos (1461 * (y - 1 + 4800)) (omega arith),
        plus_pos (y - 1) 4900,
        int32_pos (y - 1 + 4900) (omega arith),
      )
      (joined _ _ _ d (omega arith) (omega arith))
