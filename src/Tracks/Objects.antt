-- ===== src/Tracks/Objects.antt =====
-- candidate2object of airs/src/AFindPV.cpp: a candidate with points has one outcome, and what the
-- next frames read stays as it is.
use airs.Base.{
  ℕ, ◌≡◌, refl, List, [], ◌∷◌, ◌++◌, Bool, true, false, Option, none, some, map, if◌then◌else◌,
}
use airs.Base.Int.{ℤ}
use airs.Doubles.{Doubles}
use airs.Badmark.Suspects.{Search}
use airs.Badmark.Doubts.{Doubt}
use airs.Base.Faults.{Returns, >>=-Returns}
use airs.Tracks.Points.{Point}
use airs.Tracks.Candidate.{last_point}
use airs.Tracks.Finder.{AFindPv, Boost, Outcome}
use airs.Tracks.Output.{
  put_orbit, put_out, bad_at, count_pixel, put_arc, put_candidate, candidate2object,
}
use airs.Tracks.Counts.{outcome_pts}

pub if-Returns {ℓ} :
    {A : Type ℓ} (P : A → Type 0) (hit : Bool) (x y : Option A)
    → Returns P x
    → Returns P y
    → Returns P (if hit then x else y)
if-Returns P true x y r s = r
if-Returns P false x y r s = s

pub last_point-some : {A : Type 0} (a : A) (xs : List A) → (l : A) × (last_point (a ∷ xs) ≡ some l)
unfolding last_point
last_point-some a [] = (a, refl)
last_point-some a (b ∷ xs) = let (l, e) = last_point-some b xs in (l, rw (last_point, e) refl)

-- An orbit is written with the values of the points that it has.
abbrev pub IsWritten : {D : Type 0} → List (Point D) → Outcome D → Type 0
IsWritten values (Outcome.noise pts) = Unit
IsWritten values (Outcome.hot pts) = Unit
IsWritten values (Outcome.orbit o) = o.written ≡ values

pub record Adds {D : Type 0} (pts : List ℕ) (s t : AFindPv D) : Type 0 where
  pub points : t.points ≡ s.points
  pub frmprev : t.frmprev ≡ s.frmprev
  pub frmnow : t.frmnow ≡ s.frmnow
  pub outcome : Outcome D
  pub outcomes : t.outcomes ≡ s.outcomes ++ outcome ∷ []
  pub of_pts : outcome_pts outcome ≡ pts
  pub written : IsWritten (map s.points.cell pts) outcome

module _ (m : Doubles) (b : Boost m.real.Double) where
  abbrev D : Type 0
  D = m.real.Double

  put_orbit-Adds :
      (p : ℕ) (ps : List ℕ) (pixel : Option ℕ) (s : AFindPv D)
      → Returns (Adds (p ∷ ps) s) (put_orbit m b (p ∷ ps) (map s.points.cell (p ∷ ps)) pixel s)
  unfolding put_orbit
  put_orbit-Adds p ps pixel s = record {
    points = refl;
    frmprev = refl;
    frmnow = refl;
    outcome = _;
    outcomes = refl;
    of_pts = refl;
    written = refl;
  }

  put_out-Adds :
      (p : ℕ) (ps : List ℕ) (pixel : Option ℕ) (s : AFindPv D)
      → Returns (Adds (p ∷ ps) s) (put_out m b (p ∷ ps) (map s.points.cell (p ∷ ps)) pixel s)
  unfolding put_out
  put_out-Adds p ps none s = put_orbit-Adds p ps none s
  put_out-Adds p ps (some at) s =
      if-Returns (Adds (p ∷ ps) s) (bad_at m b at s.doubts)
        (some (record s { outcomes = s.outcomes ++ Outcome.hot (p ∷ ps) ∷ [] }))
        (put_orbit m b (p ∷ ps) (map s.points.cell (p ∷ ps)) (some at) s)
        (record {
          points = refl;
          frmprev = refl;
          frmnow = refl;
          outcome = Outcome.hot (p ∷ ps);
          outcomes = refl;
          of_pts = refl;
          written = tt;
        })
        (put_orbit-Adds p ps (some at) s)

  -- The search for bad columns and the pixels are not looked at.
  weaken :
      (pts : List ℕ) (s : AFindPv D) (x : Search) (ds : List Doubt) (r : Option (AFindPv D))
      → Returns (Adds pts (record s { search = x; doubts = ds })) r
      → Returns (Adds pts s) r
  weaken pts s x ds none a = a
  weaken pts s x ds (some t) a = record {
    points = a.points;
    frmprev = a.frmprev;
    frmnow = a.frmnow;
    outcome = a.outcome;
    outcomes = a.outcomes;
    of_pts = a.of_pts;
    written = a.written;
  }

  put_arc-Adds :
      (doubtable : Bool) (p : ℕ) (ps : List ℕ) (col row : ℤ) (s : AFindPv D)
      → Returns
          (Adds (p ∷ ps) s)
          (put_arc m b (p ∷ ps) (map s.points.cell (p ∷ ps)) doubtable col row s)
  unfolding put_arc count_pixel
  put_arc-Adds true p ps col row s =
      let (l, e) = last_point-some (s.points.cell p) (map s.points.cell ps) in
      >>=-Returns (λ r. Unit {0}) (Adds (p ∷ ps) s)
        (count_pixel m b col row (map s.points.cell (p ∷ ps)) s.doubts) _ (rw (e, count_pixel) tt)
        (λ r u.
          weaken (p ∷ ps) s s.search r.0 _
            (put_out-Adds p ps (some r.1) (record s { doubts = r.0 })))
  put_arc-Adds false p ps col row s = put_out-Adds p ps none s

  put_candidate-Adds :
      (noise doubtable : Bool) (p : ℕ) (ps : List ℕ) (col row : ℤ) (s : AFindPv D)
      → Returns
          (Adds (p ∷ ps) s)
          (put_candidate m b (p ∷ ps) (map s.points.cell (p ∷ ps)) noise doubtable col row s)
  unfolding put_candidate
  put_candidate-Adds true doubtable p ps col row s = record {
    points = refl;
    frmprev = refl;
    frmnow = refl;
    outcome = Outcome.noise (p ∷ ps);
    outcomes = refl;
    of_pts = refl;
    written = tt;
  }
  put_candidate-Adds false doubtable p ps col row s = put_arc-Adds doubtable p ps col row s

  pub candidate2object-Adds :
      (p : ℕ) (ps : List ℕ) (s : AFindPv D)
      → Returns (Adds (p ∷ ps) s) (candidate2object m b (p ∷ ps) s)
  unfolding candidate2object
  candidate2object-Adds p ps s =
      weaken (p ∷ ps) s _ s.doubts _ (put_candidate-Adds _ _ p ps _ _ (record s { search = _ }))
