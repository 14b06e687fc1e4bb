-- ===== src/TimeSpace/Years.antt =====
-- The steps of Mjd2Cal of airs/src/ATimeSpace.cpp on a date whose year begins in March.
use airs.Base.{ℕ, ◌+◌, ◌-◌, ◌*◌, ◌/◌, ◌%◌, ◌≤◌, ◌<◌, ◌≡◌, ◌⊎◌, arith}

-- The century: `c` of them from the year -4900 on, `r` years in it, and `x` days from March on.
pub century_lem :
    (q k r x j : ℕ)
    → 13 < q
    → k < 4
    → r < 100
    → 31 ≤ x
    → x ≤ 396
    → (x ≤ 395) ⊎ ((r < 99) ⊎ (k ≡ 0))
    → j + (3 * (4 * q + k)) / 4 + 32075 ≡ 36525 * (4 * q + k) - 36525 + (1461 * r) / 4 + x
    → (4 * j - 7468865) / 146097 ≡ 4 * q + k - 53
century_lem q k r x j hq hk hr h31 h396 l e = omega arith

-- The year: `c` of them from the year -4716 on, and `x` days from March on.
pub year_lem :
    (c x b : ℕ)
    → 31 ≤ x
    → x ≤ 396
    → (x ≤ 395) ⊎ (c % 4 ≡ 3)
    → b ≡ (1461 * c) / 4 + x + 92
    → (20 * b - 2442) / 7305 ≡ c
year_lem c x b h31 h396 l e = omega arith

-- Years and leap years.
pub gregorian_lem :
    (q k : ℕ) → 13 < q → k < 4 → 4 * q + k - 53 - (4 * q + k - 53) / 4 + 39 ≡ (3 * (4 * q + k)) / 4
gregorian_lem q k hq hk = omega arith
