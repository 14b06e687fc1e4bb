-- ===== src/TimeSpace/Clock.antt =====
-- SetUTC, SetMJD and SetSite of ATimeSpace in airs/src/ATimeSpace.cpp on the kept values, and any
-- sequence of settings and questions.
use airs.Base.{Bool, ◌&&◌, not, Option, none, some, if◌then◌else◌}
use airs.Base.Int.{ℤ, pos, eqb_ℤ}
use airs.TimeSpace.Calendar.{check_date, modified_julian_day}
use airs.TimeSpace.Formulas.{Real}
use airs.TimeSpace.Leap.{delta_at}
use airs.TimeSpace.Values.{Times, invalid_values}

module _ (r : Real) where
  -- 0 <= fd < 1.
  abbrev pub in_day : r.Double → Bool
  in_day fd = not (r.less fd (r.lit "0.0")) && r.less fd (r.lit "1.0")

  -- The code that SetUTC returns and the state behind it; none where DeltaAT reads outside its table.
  unfoldable pub set_utc : ℤ → ℤ → ℤ → r.Double → Times r.Double → Option (ℤ × Times r.Double)
  unfolding check_date modified_julian_day delta_at invalid_values
  set_utc iy im id fd st =
      let code = check_date iy im id (in_day fd) in
      if eqb_ℤ code (pos 0)
      then elim (delta_at r iy im id fd) [
        | none ↦ none
        | some dat ↦ some (
          pos 0,
          record (invalid_values st) {
            now = record st.now {
              mjd = r.add (r.of_int (modified_julian_day iy im id)) fd;
              dat = dat;
            };
          },
        )
      ]
      else some (code, st)

  -- SetSite: the longitude, in degrees. The latitude and the height are not used here.
  unfoldable pub set_site : r.Double → Times r.Double → Times r.Double
  set_site lgt st = record st {
    now = record st.now { lgt = r.mul lgt (r.lit "1.745329251994329576923691E-2") };
  }
