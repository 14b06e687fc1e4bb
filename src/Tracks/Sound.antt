-- ===== src/Tracks/Sound.antt =====
-- The invariant of AFindPV through the ends and beginnings of its sequences and frames.
use airs.Base.{
  ℕ, ◌≡◌, refl, [], Bool, true, false, Option, none, some, if◌then◌else◌, arith, All-map,
}
use airs.Base.Int.{eqb_ℤ, ltb_ℤ}
use airs.Doubles.{Doubles}
use airs.Base.Faults.{Returns, >>=-Returns}
use airs.Tracks.Points.{Exposure, PvFrame}
use airs.Tracks.Finder.{AFindPv, Boost, int_max}
use airs.Tracks.Output.{create_dir}
use airs.Tracks.Matching.{begin_frame, match_frames}
use airs.Tracks.Sequence.{complete_candidates, end_sequence, new_sequence, enter_sequence}
use airs.Tracks.Counts.{outcome_pts}
use airs.Tracks.Frames.{match_prev-Counts, make_points-Counts}
use airs.Tracks.Objects.{if-Returns}
use airs.Tracks.Invariant.{IsKept, complete_candidates-IsKept}
use airs.Tracks.Above.{Below-le, Within-le, IsGood-le, candidate_uses-above, outcome_uses-above}

-- Nothing else holds points.
unfoldable pub IsSound : {D : Type 0} → AFindPv D → Type 0
IsSound s = (n : ℕ) × IsKept n (λ p. 0) s.cans s

module _ (m : Doubles) (b : Boost m.real.Double) where
  abbrev D : Type 0
  D = m.real.Double

  pub end_sequence-IsSound : (s : AFindPv D) → IsSound s → Returns IsSound (end_sequence m b s)
  unfolding IsSound end_sequence
  end_sequence-IsSound s (n, k) =
      if-Returns IsSound (eqb_ℤ s.last_fno int_max) (some s) _ (n, k)
        (>>=-Returns (IsKept n (λ p. 0) []) IsSound (complete_candidates m b s) _
          (complete_candidates-IsKept m b n (λ p. 0) s k)
          (λ t kt. (
            n,
            record { good = tt; frmprev = tt; frmnow = tt; made = kt.made; counts = kt.counts },
          )))

  if-IsSound :
      (same : Bool) (s t : AFindPv D) → IsSound s → IsSound t → IsSound (if same then s else t)
  if-IsSound true s t k l = k
  if-IsSound false s t k l = l

  create_dir-IsSound :
      (frame : Exposure D) (s : AFindPv D) → IsSound s → IsSound (create_dir m b frame s)
  unfolding IsSound create_dir
  create_dir-IsSound frame s (n, k) =
      if-IsSound (eqb_ℤ (m.trunc frame.mjd) s.mjdold) s _ (n, k)
        (
          n,
          record {
            good = k.good;
            frmprev = k.frmprev;
            frmnow = k.frmnow;
            made = k.made;
            counts = k.counts;
          },
        )

  new_sequence-IsSound : (s : AFindPv D) → IsSound s → IsSound (new_sequence m b s)
  unfolding IsSound new_sequence
  new_sequence-IsSound s (n, k) = (
    n,
    record {
      good = k.good;
      frmprev = k.frmprev;
      frmnow = k.frmnow;
      made = k.made;
      counts = k.counts;
    },
  )

  pub enter_sequence-IsSound :
      (frame : Exposure D) (s : AFindPv D)
      → IsSound s
      → Returns IsSound (enter_sequence m b frame s)
  unfolding enter_sequence
  enter_sequence-IsSound frame s k =
      if-Returns IsSound (ltb_ℤ frame.fno s.last_fno) _ (some s)
        (>>=-Returns IsSound IsSound (end_sequence m b s) _ (end_sequence-IsSound s k)
          (λ t kt. create_dir-IsSound frame (new_sequence m b t) (new_sequence-IsSound t kt)))
        k

  pub begin_frame-IsSound :
      (frame : Exposure D) (s : AFindPv D) → IsSound s → IsSound (begin_frame m b frame s)
  unfolding IsSound begin_frame
  begin_frame-IsSound frame s (n, k) =
      let (top, le, below, counts) =
        make_points-Counts m b frame frame.nfobjs n _ s.points
          (λ p h. omega (
            arith,
            candidate_uses-above n p s.cans h k.good,
            outcome_uses-above n p s.outcomes h k.made,
          ))
          k.counts in
      (
        top,
        record {
          good = All-map s.cans (λ c g. IsGood-le n top c le g) k.good;
          frmprev = Within-le n top s.frmnow le k.frmnow;
          frmnow = below;
          made = All-map s.outcomes (λ o g. Below-le n top (outcome_pts o) le g) k.made;
          counts = counts;
        },
      )

  pub begin_frame-frmnow :
      (frame : Exposure D) (s : AFindPv D)
      → (now : PvFrame D) × ((begin_frame m b frame s).frmnow ≡ some now)
  unfolding begin_frame
  begin_frame-frmnow frame s = (_, refl)

  pub match_frames-IsSound :
      (prev frmnow : Option (PvFrame D)) (now : PvFrame D) (s : AFindPv D)
      → frmnow ≡ some now
      → IsSound s
      → Returns (λ r. IsSound r.1 × (r.1.frmnow ≡ s.frmnow)) (match_frames m prev frmnow s)
  unfolding IsSound match_frames
  match_frames-IsSound none frmnow now s e k = (k, refl)
  match_frames-IsSound (some prev) none now s e k = cc
  match_frames-IsSound (some prev) (some f) now s e (n, k) = (
    (
      n,
      record {
        good = k.good;
        frmprev = k.frmprev;
        frmnow = k.frmnow;
        made = k.made;
        counts = match_prev-Counts m prev.pts n f.pts _ s.points k.counts;
      },
    ),
    refl,
  )
