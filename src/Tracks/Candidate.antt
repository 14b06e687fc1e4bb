-- ===== src/Tracks/Candidate.antt =====
-- pv_candidate of airs/src/AFindPV.h. `none` is a read through an empty vector.
use airs.Base.{
  ℕ, List, [], ◌∷◌, ◌++◌, Bool, true, false, ◌&&◌, ◌||◌, not, leb, if◌then◌else◌, Option, none,
  some, length, drop,
}
use airs.Base.Int.{ℤ, pos, negsuc, eqb_ℤ}
use airs.TimeSpace.Formulas.{cyclemod}
use airs.Doubles.{Doubles}
use airs.Tracks.Points.{Point, Store, inc_rel, dec_rel}

pub record Candidate (D : Type 0) : Type 0 where
  pub pts : List ℕ
  pub frmu : List ℕ
  pub spdr : D
  pub spdd : D
  pub accr : D
  pub accd : D

-- MINFRAME of the source.
abbrev pub minframe : ℕ
minframe = 5

unfoldable pub last_point : {A : Type 0} → List A → Option A
last_point [] = none
last_point (p ∷ ps) = elim (last_point ps) [ none ↦ some p | some q ↦ some q ]

unfoldable pub dec_all : {D : Type 0} → List ℕ → Store D → Store D
unfolding dec_rel
dec_all [] st = st
dec_all (p ∷ ps) st = dec_all ps (dec_rel p st)

module _ (m : Doubles) where
  abbrev pub D : Type 0
  D = m.real.Double

  infixl 65 ◌⊕◌ ◌⊖◌
  infixl 66 ◌⊗◌ ◌⊘◌
  infix 50 ◌≺◌
  abbrev ◌⊕◌ : D → D → D
  a ⊕ b = m.real.add a b

  abbrev ◌⊖◌ : D → D → D
  a ⊖ b = m.real.sub a b

  abbrev ◌⊗◌ : D → D → D
  a ⊗ b = m.real.mul a b

  abbrev ◌⊘◌ : D → D → D
  a ⊘ b = m.real.div a b

  abbrev ◌≺◌ : D → D → Bool
  a ≺ b = m.real.less a b

  -- A difference of right ascensions, brought below half a turn.
  abbrev half_turn : D → D
  half_turn d = if m.real.lit "180.0" ≺ d then m.real.lit "360.0" ⊖ d else d

  abbrev asperday : D
  asperday = m.real.of_int (pos 24)

  unfoldable pub sign_rate : D → ℤ
  sign_rate rate =
      if m.fabs rate ≺ asperday then pos 0 else if m.real.lit "0.0" ≺ rate then pos 1 else negsuc 0

  unfoldable pub xy_expect : Store D → D → Candidate D → Option (D × D)
  unfolding last_point
  xy_expect st mjd c = elim c.pts [
    | [] ↦ none
    | p ∷ ps ↦ elim (last_point (p ∷ ps)) [
      | none ↦ none
      | some l ↦
          let first = st.cell p in
          let last = st.cell l in
          let t = (mjd ⊖ first.mjd) ⊘ (last.mjd ⊖ first.mjd) in
          some (first.x ⊕ (last.x ⊖ first.x) ⊗ t, first.y ⊕ (last.y ⊖ first.y) ⊗ t)
    ]
  ]

  -- The position expected behind the last point.
  unfoldable pub rd_behind : Candidate D → Point D → D → D × D
  unfolding cyclemod
  rd_behind c last mjd =
      let t = mjd ⊖ last.mjd in
      let t1 = m.real.lit "0.5" ⊗ t ⊗ t in
      (
        if m.fabs c.spdr ≺ asperday
            then last.ra
            else cyclemod m.real (last.ra ⊕ c.spdr ⊗ t ⊕ c.accr ⊗ t1) (m.real.lit "360.0"),
        if m.fabs c.spdd ≺ asperday then last.dc else last.dc ⊕ c.spdd ⊗ t ⊕ c.accd ⊗ t1,
      )

  unfoldable pub rd_expect : Store D → D → Candidate D → Option (D × D)
  unfolding last_point rd_behind
  rd_expect st mjd c = elim (last_point c.pts) [
    | none ↦ none
    | some l ↦ some (rd_behind c (st.cell l) mjd)
  ]

  abbrev deg20as : D
  deg20as = m.real.lit "5.555556E-3"

  unfoldable pub is_expect : Store D → ℕ → Candidate D → Option Bool
  unfolding rd_expect
  is_expect st p c =
      let pt = st.cell p in
      elim (rd_expect st pt.mjd c) [
        | none ↦ none
        | some e ↦
            some (half_turn (m.fabs (pt.ra ⊖ e.0)) ≺ deg20as && m.fabs (pt.dc ⊖ e.1) ≺ deg20as)
      ]

  -- The rates in right ascension and declination.
  unfoldable pub move_speed : Point D → Point D → D × D
  move_speed a b =
      let t = b.mjd ⊖ a.mjd in
      let rt = b.ra ⊖ a.ra in
      (
        (if m.real.lit "180.0" ≺ rt
              then rt ⊖ m.real.lit "360.0"
              else if rt ≺ m.real.lit "-180.0"
              then rt ⊕ m.real.lit "360.0"
              else rt)
            ⊘ t,
        (b.dc ⊖ a.dc) ⊘ t,
      )

  unfoldable pub create : Store D → ℕ → ℕ → Candidate D
  unfolding move_speed
  create st p q =
      let (sr, sd) = move_speed (st.cell p) (st.cell q) in
      record {
        pts = p ∷ q ∷ [];
        frmu = [];
        spdr = sr;
        spdd = sd;
        accr = m.real.lit "0.0";
        accd = m.real.lit "0.0";
      }

  unfoldable pub add_point : Store D → ℕ → Candidate D → Option (Candidate D)
  unfolding is_expect
  add_point st p c = elim (is_expect st p c) [
    | none ↦ none
    | some near ↦ some (if near then record c { frmu = c.frmu ++ p ∷ [] } else c)
  ]

  -- The loop of update: the best square of a distance so far, and its point.
  unfoldable pub closest : Store D → D × D → D → Option ℕ → List ℕ → Option ℕ
  closest st e best found [] = found
  closest st e best found (p ∷ ps) =
      let dr = half_turn (m.fabs ((st.cell p).ra ⊖ e.0)) in
      let dd = m.fabs ((st.cell p).dc ⊖ e.1) in
      let d = dr ⊗ dr ⊕ dd ⊗ dd in
      closest st e (if d ≺ best then d else best) (if d ≺ best then some p else found) ps

  unfoldable pub chosen : Store D → Candidate D → Option (Option ℕ)
  unfolding rd_expect closest
  chosen st c = elim c.frmu [
    | [] ↦ some none
    | p ∷ [] ↦ some (some p)
    | p ∷ q ∷ ps ↦ elim (rd_expect st (st.cell p).mjd c) [
      | none ↦ none
      | some e ↦ some (closest st e (m.real.lit "1E30") none (p ∷ q ∷ ps))
    ]
  ]

  -- The point joins the candidate, behind its last one.
  unfoldable pub join : Store D → ℕ → ℕ → Candidate D → Candidate D
  unfolding move_speed
  join st l p c =
      let t = (st.cell p).mjd ⊖ (st.cell l).mjd in
      let (sr, sd) = move_speed (st.cell l) (st.cell p) in
      record c {
        accr = (sr ⊖ c.spdr) ⊘ t;
        accd = (sd ⊖ c.spdd) ⊘ t;
        spdr = sr;
        spdd = sd;
        pts = c.pts ++ p ∷ [];
        frmu = [];
      }

  unfoldable pub update_candidate : Candidate D → Store D → Option (Candidate D × Store D)
  unfolding chosen last_point join inc_rel
  update_candidate c st = elim (chosen st c) [
    | none ↦ none
    | some none ↦ some (c, st)
    | some (some p) ↦ elim (last_point c.pts) [
      | none ↦ none
      | some l ↦ some (join st l p c, inc_rel p st)
    ]
  ]

  -- From the third point on: the signs of the rates stay, and no other candidate has the point.
  unfoldable pub steady : Store D → ℤ → ℤ → ℕ → List ℕ → Bool
  unfolding move_speed sign_rate
  steady st rsgn dsgn before [] = true
  steady st rsgn dsgn before (p ∷ ps) =
      let (rrate, drate) = move_speed (st.cell before) (st.cell p) in
      (eqb_ℤ (sign_rate rrate) rsgn
        && (eqb_ℤ (sign_rate drate) dsgn && eqb_ℤ (st.cell p).related (pos 1)))
      && steady st rsgn dsgn p ps

  unfoldable pub is_track : Store D → ℕ → ℕ → ℕ → List ℕ → Bool
  unfolding move_speed sign_rate steady
  is_track st first last second rest =
      let (rrate, drate) = move_speed (st.cell first) (st.cell last) in
      let rsgn = sign_rate rrate in
      let dsgn = sign_rate drate in
      (not (eqb_ℤ rsgn (pos 0)) || not (eqb_ℤ dsgn (pos 0))) && steady st rsgn dsgn second rest

  unfoldable pub is_valid : Store D → List ℕ → Bool
  unfolding is_track last_point
  is_valid st [] = false
  is_valid st (a ∷ []) = false
  is_valid st (a ∷ b ∷ rest) =
      leb minframe (length (a ∷ b ∷ rest))
      && elim (last_point (b ∷ rest)) [ none ↦ false | some l ↦ is_track st a l b rest ]

  -- Whether the candidate is a track; one that is not gives its points back.
  unfoldable pub complete : Candidate D → Store D → Bool × Candidate D × Store D
  unfolding is_valid dec_all
  complete c st =
      if is_valid st c.pts
      then (true, c, st)
      else (false, record c { pts = [] }, dec_all (drop 2 c.pts) st)
