-- ===== src/Tracks/Finder.antt =====
-- What AFindPV of airs/src/AFindPV.h keeps between frames, what it writes, and what it uses of Boost.
use airs.Base.{ℕ, ◌+◌, ◌-◌, List, [], ◌∷◌, ◌++◌, Bool, Option, none, length, replicate}
use airs.Base.Int.{ℤ, pos, negsuc}
use airs.Base.Text.{Text}
use airs.Base.Decimal.{digits}
use airs.Badmark.Suspects.{Search}
use airs.Badmark.Doubts.{Doubt}
use airs.Badmark.Marks.{Parameter}
use airs.Doubles.{Doubles}
use airs.Tracks.Points.{Point, Exposure, PvFrame, Store}
use airs.Tracks.Candidate.{Candidate}

-- A time of boost::posix_time.
pub record Ptime : Type 0 where
  pub year : ℕ
  pub month : ℕ
  pub day : ℕ
  pub hours : ℕ
  pub minutes : ℕ
  pub seconds : ℕ
  pub fractional_seconds : ℕ

-- The functions of Boost, the directories that can be made, std::stable_sort with the comparison of
-- recheck_doubt, and the motion of the earth.
pub record Boost (D : Type 0) : Type 0 where
  pub from_iso_extended_string : Text → Ptime
  -- The date of a time as a text.
  pub to_iso_string : Text → Text
  pub add_millisec : Text → ℤ → Text
  pub append : Text → Text → Text
  pub replace_extension : Text → Text → Text
  -- The directory is there or can be made.
  pub create_directory : Text → Bool
  pub sort_doubts : List Doubt → List Doubt
  -- X, Y and Z, which AnnualAberration::set_mjd computes from a series.
  pub set_mjd : D → D × D × D
  pub path_output : Text

-- An object given out, with the values that its points have then.
pub record Orbit (D : Type 0) : Type 0 where
  pub idpv : ℤ
  pub sid : ℤ
  pub path : Text
  pub path_gtw : Text
  pub pts : List ℕ
  pub written : List (Point D)

-- What candidate2object makes of a candidate: a bad column, a hot pixel, or an orbit.
pub data Outcome (D : Type 0) : Type 0 where
  noise : List ℕ → Outcome D
  hot : List ℕ → Outcome D
  orbit : Orbit D → Outcome D

pub record AFindPv (D : Type 0) : Type 0 where
  pub search : Search
  pub doubts : List Doubt
  pub last_fno : ℤ
  pub frmprev : Option (PvFrame D)
  pub frmnow : Option (PvFrame D)
  pub cans : List (Candidate D)
  pub mjdold : ℤ
  pub idpv : ℤ
  pub sid : ℤ
  pub dirname : Text
  pub dirgtw : Text
  pub utcdate : Text
  pub frmque : List (Exposure D)
  pub points : Store D
  pub outcomes : List (Outcome D)
  pub removed : List Text

abbrev pub int_max : ℤ
int_max = pos 2147483647

-- The constructor, and SetIDs. No point is made yet.
unfoldable pub new_finder :
    {D : Type 0} → Parameter → Text → Text → Text → (ℕ → Point D) → AFindPv D
new_finder par g u c cell = record {
  search = record { gid = g; uid = u; cid = c; uncbadcol = []; par = par };
  doubts = [];
  last_fno = int_max;
  frmprev = none;
  frmnow = none;
  cans = [];
  mjdold = pos 0;
  idpv = pos 0;
  sid = pos 0;
  dirname = [];
  dirgtw = [];
  utcdate = [];
  frmque = [];
  points = record { next = 0; cell = cell };
  outcomes = [];
  removed = [];
}

-- "%0wd".
unfoldable pub pad : ℕ → ℤ → Text
pad w (pos n) = replicate (w - length (digits n)) b'0' ++ digits n
pad w (negsuc n) = b'-' ∷ replicate (w - 1 - length (digits (1 + n))) b'0' ++ digits (1 + n)

module _ (m : Doubles) (b : Boost m.real.Double) where
  unfoldable pub utc_convert_1 : Text → Text
  unfolding pad
  utc_convert_1 utc =
      let t = b.from_iso_extended_string utc in
      let fraction = m.real.mul (m.real.of_int (pos t.fractional_seconds)) (m.real.lit "1E-6") in
      let ss = m.trunc (m.real.add (m.real.of_int (pos t.seconds)) fraction) in
      digits t.year
      ++ pad 2 (pos t.month)
      ++ pad 2 (pos t.day)
      ++ pad 2 (pos t.hours)
      ++ pad 2 (pos t.minutes)
      ++ pad 2 ss
