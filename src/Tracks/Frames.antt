-- ===== src/Tracks/Frames.antt =====
-- What the frames of AFindPV do to the counters of the points.
use airs.Base.{ℕ, suc, ◌≡◌, ◌≤◌, refl, List, [], ◌∷◌, Bool, true, false, if◌then◌else◌, arith}
use airs.Base.Int.{pos}
use airs.Doubles.{Doubles}
use airs.Tracks.Points.{ObjectInfo, Exposure, Store, set_matched, make}
use airs.Tracks.Finder.{Boost}
use airs.Tracks.Matching.{
  is_set, match_now, match_prev, new_point, make_points, correct_annual_aberration,
}
use airs.Tracks.Counts.{Counts, set_matched-Counts, make-Counts}
use airs.Tracks.Keeping.{Below}

module _ (m : Doubles) where
  abbrev D : Type 0
  D = m.real.Double

  if-Counts :
      (hit : Bool) (n : ℕ) (u : ℕ → ℕ) (st left : Store D)
      → Counts n u st
      → Counts n u left
      → Counts n u (if hit then left else st)
  if-Counts true n u st left k l = l
  if-Counts false n u st left k l = k

  pub match_now-Counts :
      (qs : List ℕ) (n p : ℕ) (ra dc : D) (u : ℕ → ℕ) (st : Store D)
      → Counts n u st
      → Counts n u (match_now m p ra dc qs st).1
  unfolding match_now
  match_now-Counts [] n p ra dc u st k = k
  match_now-Counts (q ∷ qs) n p ra dc u st k = match_now-Counts qs n p ra dc u _ (
      if-Counts _ n u st (set_matched (pos 2) q (set_matched (pos 2) p st)) k
        (set_matched-Counts n u (pos 2) q _ (set_matched-Counts n u (pos 2) p st k)))

  pub match_prev-Counts :
      (ps : List ℕ) (n : ℕ) (now : List ℕ) (u : ℕ → ℕ) (st : Store D)
      → Counts n u st
      → Counts n u (match_prev m ps now st).2
  unfolding match_prev
  match_prev-Counts [] n now u st k = k
  match_prev-Counts (p ∷ ps) n now u st k =
      match_prev-Counts ps n now u _ (one (is_set (st.cell p).matched))
    where
      one :
          (matched : Bool)
          → Counts n u
              (if matched then (0, st) else match_now m p (st.cell p).ra (st.cell p).dc now st).1
      one true = k
      one false = match_now-Counts now n p (st.cell p).ra (st.cell p).dc u st k

  new_point-related :
      (b : Boost D) (frame : Exposure D) (o : ObjectInfo D)
      → (new_point m b frame o).related ≡ pos 0
  unfolding new_point correct_annual_aberration
  new_point-related b frame o = refl

  -- The points of a frame come behind those that are made already.
  pub make_points-Counts :
      (b : Boost D) (frame : Exposure D) (os : List (ObjectInfo D)) (n : ℕ) (u : ℕ → ℕ)
      (st : Store D)
      → ((p : ℕ) → n ≤ p → u p ≡ 0)
      → Counts n u st
      → (k : ℕ) × (n ≤ k)
        × Below k (make_points m b frame os st).0
        × Counts k u (make_points m b frame os st).1
  unfolding make_points
  make_points-Counts b frame [] n u st unused k = (n, omega arith, tt, k)
  make_points-Counts b frame (o ∷ os) n u st unused k =
      let (top, le, below, left) =
        make_points-Counts b frame os (suc n) u (make (new_point m b frame o) st)
          (λ p h. unused p (omega arith))
          (make-Counts n u (new_point m b frame o) st (new_point-related b frame o)
            (unused n (omega arith)) k) in
      (top, omega arith, (omega (arith, k.next), below), left)
