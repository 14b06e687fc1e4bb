-- ===== src/Tracks/Ends.antt =====
-- Where AFindPV ends candidates, what it gives out are tracks.
use airs.Base.{
  ℕ, ◌≡◌, refl, ◌∙◌, sym, subst, List, [], ◌∷◌, some, Bool-cases, inl, inr, All, All-append, drop,
  ◌==◌,
}
use airs.Base.Int.{eqb_ℤ}
use airs.Doubles.{Doubles}
use airs.Base.Faults.{◌>>=◌, Returns-some}
use airs.Tracks.Points.{Point, Store, PvFrame, dec_rel}
use airs.Tracks.Candidate.{Candidate, complete, is_valid, dec_all, xy_expect}
use airs.Tracks.Finder.{AFindPv, Boost, Outcome, int_max}
use airs.Tracks.Output.{candidate2object}
use airs.Tracks.Sequence.{
  finish_candidate, recheck, complete_all, all_objects, complete_candidates, in_rect, end_sequence,
}
use airs.Tracks.Objects.{Adds, IsWritten, candidate2object-Adds}
use airs.Tracks.Shape.{IsTrack, IsTrackBy, IsTrackBy-still, IsTrack-map, is_valid-IsTrackBy, still}
use airs.Tracks.Ensured.{Ensures, Ensures-map, >>=-Ensures, if-Ensures, any}

-- The counters change, and nothing else.
dec_all-still :
    {D : Type 0} (qs : List ℕ) (st : Store D) (p : ℕ)
    → still ((dec_all qs st).cell p) ≡ still (st.cell p)
unfolding dec_all
dec_all-still [] st p = refl
dec_all-still (q ∷ qs) st p = dec_all-still qs (dec_rel q st) p ∙ one
  where
    one : still ((dec_rel q st).cell p) ≡ still (st.cell p)
    one = elim (Bool-cases (p == q)) [
      | inl same ↦ rw (dec_rel, same) refl
      | inr other ↦ rw (dec_rel, other) refl
    ]

module _ (m : Doubles) (b : Boost m.real.Double) where
  abbrev D : Type 0
  D = m.real.Double

  -- Of a bad column or a hot pixel nothing is said.
  abbrev pub IsTrackOutcome : Outcome D → Type 0
  IsTrackOutcome (Outcome.noise pts) = Unit
  IsTrackOutcome (Outcome.hot pts) = Unit
  IsTrackOutcome (Outcome.orbit o) = IsTrack m o.written

  abbrev pub AllTracks : AFindPv D → Type 0
  AllTracks s = All IsTrackOutcome s.outcomes

  written-IsTrack :
      (o : Outcome D) (values : List (Point D))
      → IsWritten values o
      → IsTrack m values
      → IsTrackOutcome o
  written-IsTrack (Outcome.noise pts) values w t = tt
  written-IsTrack (Outcome.hot pts) values w t = tt
  written-IsTrack (Outcome.orbit o) values w t = subst (IsTrack m) (sym w) t

  candidate2object-AllTracks :
      (pts : List ℕ) (s : AFindPv D)
      → IsTrackBy m s.points.cell pts
      → AllTracks s
      → Ensures (λ t. AllTracks t × (t.points ≡ s.points)) (candidate2object m b pts s)
  candidate2object-AllTracks [] s t a = absurd t
  candidate2object-AllTracks (p ∷ ps) s track a =
      let (t, et, added) =
        Returns-some (Adds (p ∷ ps) s) (candidate2object m b (p ∷ ps) s)
          (candidate2object-Adds m b p ps s) in
      rw et (
        subst (All IsTrackOutcome) (sym added.outcomes) (
            All-append s.outcomes (added.outcome ∷ []) IsTrackOutcome
              (
                written-IsTrack added.outcome _ added.written
                    (IsTrack-map m s.points.cell (p ∷ ps) track),
                tt,
              )
              a),
        added.points,
      )

  finish_candidate-AllTracks :
      (c : Candidate D) (s : AFindPv D) → AllTracks s → Ensures AllTracks (finish_candidate m b c s)
  unfolding finish_candidate complete
  finish_candidate-AllTracks c s a = elim (Bool-cases (is_valid m s.points c.pts)) [
    | inl valid ↦ rw valid (
        Ensures-map (λ t. AllTracks t × (t.points ≡ s.points)) AllTracks
          (candidate2object m b c.pts s) (λ t h. h.0)
          (candidate2object-AllTracks c.pts s (is_valid-IsTrackBy m s.points c.pts valid) a))
    | inr bad ↦ rw bad a
  ]

  pub recheck-AllTracks :
      (cs : List (Candidate D)) (now : PvFrame D) (s : AFindPv D)
      → AllTracks s
      → Ensures (λ r. AllTracks r.1) (recheck m b now cs s)
  unfolding recheck
  recheck-AllTracks [] now s a = a
  recheck-AllTracks (c ∷ cs) now s a =
      >>=-Ensures (λ e. Unit {0}) (λ r. AllTracks r.1) (xy_expect m s.points now.mjd c) _ (any _)
        (λ e u.
          if-Ensures (λ r. AllTracks r.1) (in_rect m now e.0 e.1)
            (recheck m b now cs s >>= λ later. some (c ∷ later.0, later.1))
            (finish_candidate m b c s >>= λ t. recheck m b now cs t)
            (>>=-Ensures (λ r. AllTracks r.1) (λ r. AllTracks r.1) (recheck m b now cs s) _
              (recheck-AllTracks cs now s a) (λ r h. h))
            (>>=-Ensures AllTracks (λ r. AllTracks r.1) (finish_candidate m b c s) _
              (finish_candidate-AllTracks c s a) (λ t h. recheck-AllTracks cs now t h)))

  -- The candidates that complete_candidates keeps are tracks, in the store at its end too.
  AllTrackBy : Store D → List (Candidate D) → Type 0
  AllTrackBy st cs = All (λ c. IsTrackBy m st.cell c.pts) cs

  complete_all-still :
      (cs : List (Candidate D)) (st : Store D) (p : ℕ)
      → still ((complete_all m b cs st).1.cell p) ≡ still (st.cell p)
  unfolding complete_all complete
  complete_all-still [] st p = refl
  complete_all-still (c ∷ cs) st p = elim (Bool-cases (is_valid m st c.pts)) [
    | inl valid ↦ rw valid (complete_all-still cs st p)
    | inr bad ↦
        rw bad
          (complete_all-still cs (dec_all (drop 2 c.pts) st) p ∙ dec_all-still (drop 2 c.pts) st p)
  ]

  complete_all-AllTrackBy :
      (cs : List (Candidate D)) (st : Store D)
      → AllTrackBy (complete_all m b cs st).1 (complete_all m b cs st).0
  unfolding AllTrackBy complete_all complete
  complete_all-AllTrackBy [] st = tt
  complete_all-AllTrackBy (c ∷ cs) st = elim (Bool-cases (is_valid m st c.pts)) [
    | inl valid ↦ rw valid (
      IsTrackBy-still m st.cell (complete_all m b cs st).1.cell c.pts
          (λ p. sym (complete_all-still cs st p)) (is_valid-IsTrackBy m st c.pts valid),
      complete_all-AllTrackBy cs st,
    )
    | inr bad ↦ rw bad (complete_all-AllTrackBy cs (dec_all (drop 2 c.pts) st))
  ]

  all_objects-AllTracks :
      (cs : List (Candidate D)) (s : AFindPv D)
      → AllTrackBy s.points cs
      → AllTracks s
      → Ensures AllTracks (all_objects m b cs s)
  unfolding AllTrackBy all_objects
  all_objects-AllTracks [] s t a = a
  all_objects-AllTracks (c ∷ cs) s (now, later) a =
      >>=-Ensures (λ t. AllTracks t × (t.points ≡ s.points)) AllTracks
        (candidate2object m b c.pts s) _ (candidate2object-AllTracks c.pts s now a)
        (λ t h. all_objects-AllTracks cs t (subst (λ st. AllTrackBy st cs) (sym h.1) later) h.0)

  complete_candidates-AllTracks :
      (s : AFindPv D) → AllTracks s → Ensures AllTracks (complete_candidates m b s)
  unfolding complete_candidates
  complete_candidates-AllTracks s a =
      all_objects-AllTracks _ _ (complete_all-AllTrackBy s.cans s.points) a

  pub end_sequence-AllTracks :
      (s : AFindPv D) → AllTracks s → Ensures AllTracks (end_sequence m b s)
  unfolding end_sequence
  end_sequence-AllTracks s a = if-Ensures AllTracks (eqb_ℤ s.last_fno int_max) (some s) _ a (
      >>=-Ensures AllTracks AllTracks (complete_candidates m b s) _
        (complete_candidates-AllTracks s a) (λ t h. h))
