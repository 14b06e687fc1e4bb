-- ===== src/Tracks/Matching.antt =====
-- The frames of AFindPV in airs/src/AFindPV.cpp: new_frame, correct_annual_aberration, cross_match.
use airs.Base.{
  ℕ, suc, ◌+◌, ◌==◌, List, [], ◌∷◌, Bool, false, ◌&&◌, not, Option, none, some, if◌then◌else◌,
}
use airs.Base.Int.{ℤ, pos, negsuc, eqb_ℤ}
use airs.TimeSpace.Formulas.{cyclemod}
use airs.Doubles.{Doubles}
use airs.Tracks.Points.{Point, ObjectInfo, Exposure, PvFrame, Store, make, set_matched}
use airs.Tracks.Finder.{AFindPv, Boost}

-- `(*it)->matched` and `(*it)->related` as conditions.
abbrev pub is_set : ℤ → Bool
is_set z = not (eqb_ℤ z (pos 0))

module _ (m : Doubles) where
  abbrev D : Type 0
  D = m.real.Double

  infixl 65 ◌⊕◌ ◌⊖◌
  infixl 66 ◌⊗◌ ◌⊘◌
  infix 50 ◌≺◌
  abbrev ◌⊕◌ : D → D → D
  a ⊕ b = m.real.add a b

  abbrev ◌⊖◌ : D → D → D
  a ⊖ b = m.real.sub a b

  abbrev ◌⊗◌ : D → D → D
  a ⊗ b = m.real.mul a b

  abbrev ◌⊘◌ : D → D → D
  a ⊘ b = m.real.div a b

  abbrev ◌≺◌ : D → D → Bool
  a ≺ b = m.real.less a b

  abbrev d2r : D
  d2r = m.real.lit "1.745329251994329576923691E-2"

  abbrev r2d : D
  r2d = m.real.lit "5.729577951308232087679815E1"

  abbrev a2pi : D
  a2pi = m.real.lit "6.283185307179586476925287"

  -- AnnualAberration::GetAnnualAberration, from X, Y and Z.
  unfoldable pub get_annual_aberration : D × D × D → D → D → D × D
  get_annual_aberration (x, y, z) ra dec =
      let cra = m.real.cos ra in
      let sra = m.real.sin ra in
      let cdec = m.real.cos dec in
      let sdec = m.real.sin dec in
      let c = m.real.lit "17314463350.0" in
      (
        if m.real.lit "1E-4" ≺ cdec then (y ⊗ cra ⊖ x ⊗ sra) ⊘ c ⊘ cdec else m.real.lit "0.0",
        (z ⊗ cdec ⊖ (x ⊗ cra ⊕ y ⊗ sra) ⊗ sdec) ⊘ c,
      )

  -- A declination beyond a pole comes down on the other side.
  unfoldable pub over_pole : D → D → D × D
  unfolding cyclemod
  over_pole ra dec =
      if m.real.lit "90.0" ≺ dec
      then (
        cyclemod m.real (ra ⊕ m.real.lit "180.0") (m.real.lit "360.0"),
        m.real.lit "180.0" ⊖ dec,
      )
      else if dec ≺ m.real.of_int (negsuc 89)
      then (
        cyclemod m.real (ra ⊕ m.real.lit "180.0") (m.real.lit "360.0"),
        m.real.of_int (negsuc 179) ⊖ dec,
      )
      else (ra, dec)

  module _ (b : Boost D) where
    unfoldable pub correct_annual_aberration : Point D → Point D
    unfolding get_annual_aberration over_pole cyclemod
    correct_annual_aberration pt =
        let ra = pt.ra ⊗ d2r in
        let dec = pt.dc ⊗ d2r in
        let change = get_annual_aberration (b.set_mjd pt.mjd) ra dec in
        let moved =
          over_pole (cyclemod m.real (ra ⊕ change.0) a2pi ⊗ r2d) ((dec ⊕ change.1) ⊗ r2d) in
        record pt { ra = moved.0; dc = moved.1 }

    -- The point of an object: both assignments of pv_point, the id, and the time of its row.
    unfoldable pub new_point : Exposure D → ObjectInfo D → Point D
    unfolding correct_annual_aberration
    new_point frame o = correct_annual_aberration (record {
      filename = frame.filename;
      tmmid =
          b.add_millisec frame.tmmid (m.trunc (o.y ⊗ (m.real.lit "120.0" ⊘ m.real.lit "4096.0")));
      fno = frame.fno;
      mjd = frame.mjd;
      id = o.id;
      related = pos 0;
      matched = o.matched;
      x = o.x;
      y = o.y;
      ra = o.ra_fit;
      dc = o.dec_fit;
      mag = o.mag;
      magerr = o.magerr;
      snr = m.real.lit "0.0";
      corrected = false;
    })

    unfoldable pub make_points : Exposure D → List (ObjectInfo D) → Store D → List ℕ × Store D
    unfolding new_point
    make_points frame [] st = ([], st)
    make_points frame (o ∷ os) st =
        let later = make_points frame os (make (new_point frame o) st) in
        (st.next ∷ later.0, later.1)

    -- AFindPV::new_frame.
    unfoldable pub begin_frame : Exposure D → AFindPv D → AFindPv D
    unfolding make_points
    begin_frame frame s =
        let made = make_points frame frame.nfobjs s.points in
        let low = m.real.lit "20.0" in
        let now : PvFrame D = record {
          xmin = low;
          xmax = m.real.of_int frame.wimg ⊖ low;
          ymin = low;
          ymax = m.real.of_int frame.himg ⊖ low;
          mjd = frame.mjd;
          secofday = frame.secofday;
          rac = frame.rac;
          decc = frame.decc;
          pts = made.0;
        } in
        record s { last_fno = frame.fno; frmprev = s.frmnow; frmnow = some now; points = made.1 }

  abbrev deg10as : D
  deg10as = m.real.lit "2.777778E-3"

  unfoldable pub near_star : D → D → Point D → Bool
  near_star ra dc v =
      let dx = m.fabs (v.ra ⊖ ra) in
      (if m.real.lit "180.0" ≺ dx then m.real.lit "360.0" ⊖ dx else dx) ≺ deg10as
      && m.fabs (v.dc ⊖ dc) ≺ deg10as

  -- The loop over the points of this frame for one of the last frame, and the pairs found.
  unfoldable pub match_now : ℕ → D → D → List ℕ → Store D → ℕ × Store D
  unfolding near_star set_matched
  match_now p ra dc [] st = (0, st)
  match_now p ra dc (q ∷ qs) st =
      let v = st.cell q in
      let hit = not (is_set v.matched) && near_star ra dc v in
      let later =
        match_now p ra dc qs
          (if hit then set_matched (pos 2) q (set_matched (pos 2) p st) else st) in
      (if hit then suc later.0 else later.0, later.1)

  -- The loop over the points of the last frame: n0 and n2.
  unfoldable pub match_prev : List ℕ → List ℕ → Store D → ℕ × ℕ × Store D
  unfolding match_now
  match_prev [] now st = (0, 0, st)
  match_prev (p ∷ ps) now st =
      let v = st.cell p in
      let one = if is_set v.matched then (0, st) else match_now p v.ra v.dc now st in
      let later = match_prev ps now one.1 in
      (if is_set v.matched then later.0 else suc later.0, one.0 + later.1, later.2)

  -- false for a first frame, and where the number of pairs is that of the points not matched.
  unfoldable pub match_frames :
      Option (PvFrame D) → Option (PvFrame D) → AFindPv D → Option (Bool × AFindPv D)
  unfolding match_prev
  match_frames none now s = some (false, s)
  match_frames (some prev) none s = none
  match_frames (some prev) (some now) s =
      let (n0, n2, st) = match_prev prev.pts now.pts s.points in
      some (not (n0 == n2), record s { points = st })

  unfoldable pub cross_match : AFindPv D → Option (Bool × AFindPv D)
  unfolding match_frames
  cross_match s = match_frames s.frmprev s.frmnow s
