-- ===== src/Badmark/Suspects.antt =====
-- Columns that may be bad: uncertain_badcol of airs/src/AFindPV.h, and test_badcol and remove_badpix
-- of AFindPV in airs/src/AFindPV.cpp.
use airs.Base.{ℕ, suc, List, [], ◌∷◌, Bool, leb, if◌then◌else◌, none, some}
use airs.Base.Int.{ℤ}
use airs.Base.Text.{Text}
use airs.Badmark.Marks.{Camera, Parameter, near_column, test, get_badcol, add_badcol}

pub record Suspect : Type 0 where
  pub col : ℤ
  pub hit : ℕ

unfoldable pub is_column : Suspect → ℤ → Bool
unfolding near_column
is_column s c = near_column s.col c

-- BADCNT of the source.
abbrev pub badcnt : ℕ
badcnt = 5

-- The hits of the first suspect near the column, this one with them, and the list: the suspect is
-- counted up and taken out at the last hit. A column near none becomes a suspect with one hit.
unfoldable pub hit_column : ℤ → List Suspect → ℕ × List Suspect
unfolding is_column
hit_column c [] = (1, record { col = c; hit = 1 } ∷ [])
hit_column c (s ∷ ss) =
    let later = hit_column c ss in
    if is_column s c
    then if leb badcnt (suc s.hit)
      then (suc s.hit, ss)
      else (suc s.hit, record s { hit = suc s.hit } ∷ ss)
    else (later.0, s ∷ later.1)

-- What test_badcol works on: uncbadcol_, the ids, and the shared parameters.
pub record Search : Type 0 where
  pub gid : Text
  pub uid : Text
  pub cid : Text
  pub uncbadcol : List Suspect
  pub par : Parameter

unfoldable pub test_badcol : ℤ → Search → Bool × Search
unfolding hit_column add_badcol
test_badcol c st =
    let (hit, left) = hit_column c st.uncbadcol in
    let bad = leb badcnt hit in
    (
      bad,
      record st {
        uncbadcol = left;
        par = if bad then add_badcol st.gid st.uid st.cid c st.par else st.par;
      },
    )

-- The objects of a frame without those in a bad column of its camera. `column` is the rounded x.
module _ {O : Type 0} (column : O → ℤ) where
  unfoldable pub erase_bad : Camera ℤ → List O → List O
  unfolding test
  erase_bad x [] = []
  erase_bad x (o ∷ os) =
      let rest = erase_bad x os in if test near_column x.marks (column o) then rest else o ∷ rest

  unfoldable pub remove_badpix : Text → Text → Text → Parameter → List O → List O
  unfolding erase_bad get_badcol
  remove_badpix g u c par objs = elim (get_badcol g u c par) [
    | none ↦ objs
    | some x ↦ erase_bad x objs
  ]
