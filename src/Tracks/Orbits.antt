-- ===== src/Tracks/Orbits.antt =====
-- What AFindPV gives out, through every run of its thread: every orbit is a track.
use airs.Base.{ℕ, List, [], ◌∷◌, Bool, true, false, Option, none, some, if◌then◌else◌, All}
use airs.Base.Int.{eqb_ℤ, ltb_ℤ}
use airs.Base.Text.{Text}
use airs.Badmark.Marks.{Parameter}
use airs.Doubles.{Doubles}
use airs.Base.Faults.{Returns}
use airs.Tracks.Points.{Point, Exposure, PvFrame}
use airs.Tracks.Finder.{AFindPv, Boost, new_finder, int_max}
use airs.Tracks.Output.{create_dir}
use airs.Tracks.Matching.{begin_frame, cross_match, match_frames}
use airs.Tracks.Sequence.{
  recheck, recheck_candidates, create_from, create_candidates, append_candidates, append_all, grow,
  end_with, end_frame, end_sequence, enter_sequence, process, idle, thread_round, without_badpix,
  recheck_doubt, new_sequence,
}
use airs.Tracks.Thread.{Event, step, run}
use airs.Tracks.Related.{run-some}
use airs.Tracks.Ensured.{Ensures, >>=-Ensures, if-Ensures, any, both}
use airs.Tracks.Ends.{IsTrackOutcome, end_sequence-AllTracks, recheck-AllTracks}

module _ (m : Doubles) (b : Boost m.real.Double) where
  abbrev D : Type 0
  D = m.real.Double

  abbrev AllTracks : AFindPv D → Type 0
  AllTracks s = All (IsTrackOutcome m b) s.outcomes

  if-AllTracks :
      (same : Bool) (s t : AFindPv D)
      → AllTracks s
      → AllTracks t
      → AllTracks (if same then s else t)
  if-AllTracks true s t a c = a
  if-AllTracks false s t a c = c

  enter_sequence-AllTracks :
      (frame : Exposure D) (s : AFindPv D)
      → AllTracks s
      → Ensures AllTracks (enter_sequence m b frame s)
  unfolding enter_sequence create_dir new_sequence
  enter_sequence-AllTracks frame s a =
      if-Ensures AllTracks (ltb_ℤ frame.fno s.last_fno) _ (some s)
        (>>=-Ensures AllTracks AllTracks (end_sequence m b s) _ (end_sequence-AllTracks m b s a)
          (λ t h. if-AllTracks (eqb_ℤ (m.trunc frame.mjd) t.mjdold) _ _ h h))
        a

  match_frames-AllTracks :
      (prev now : Option (PvFrame D)) (s : AFindPv D)
      → AllTracks s
      → Ensures (λ r. AllTracks r.1) (match_frames m prev now s)
  unfolding match_frames
  match_frames-AllTracks none now s a = a
  match_frames-AllTracks (some prev) none s a = tt
  match_frames-AllTracks (some prev) (some now) s a = a

  create_from-AllTracks :
      (prev now : Option (PvFrame D)) (s : AFindPv D)
      → AllTracks s
      → AllTracks (create_from m prev now s)
  unfolding create_from
  create_from-AllTracks none now s a = a
  create_from-AllTracks (some prev) none s a = a
  create_from-AllTracks (some prev) (some now) s a = a

  grow-AllTracks : (pts : List ℕ) (s : AFindPv D) → AllTracks s → Ensures AllTracks (grow m b pts s)
  unfolding grow append_candidates create_candidates
  grow-AllTracks [] s a = a
  grow-AllTracks (p ∷ ps) s a =
      >>=-Ensures AllTracks AllTracks (append_candidates m (p ∷ ps) s) _
        (>>=-Ensures (λ r. Unit {0}) AllTracks (append_all m (p ∷ ps) s.cans s.points) _ (any _)
          (λ r u. a))
        (λ t h. create_from-AllTracks t.frmprev t.frmnow t h)

  end_with-AllTracks :
      (now : Option (PvFrame D)) (s : AFindPv D)
      → AllTracks s
      → Ensures AllTracks (end_with m b now s)
  unfolding end_with recheck_candidates
  end_with-AllTracks none s a = tt
  end_with-AllTracks (some now) s a =
      >>=-Ensures AllTracks AllTracks (recheck_candidates m b now s) _
        (>>=-Ensures (λ r. AllTracks r.1) AllTracks (recheck m b now s.cans s) _
          (recheck-AllTracks m b s.cans now s a) (λ r h. h))
        (λ t h. grow-AllTracks now.pts t h)

  process-AllTracks :
      (frame : Exposure D) (s : AFindPv D) → AllTracks s → Ensures AllTracks (process m b frame s)
  unfolding process cross_match begin_frame end_frame
  process-AllTracks frame s a =
      >>=-Ensures AllTracks AllTracks (enter_sequence m b frame s) _
        (enter_sequence-AllTracks frame s a)
        (λ t h.
          let begun = begin_frame m b (without_badpix m b frame t) t in
          >>=-Ensures (λ r. AllTracks r.1) AllTracks (cross_match m begun) _
            (match_frames-AllTracks begun.frmprev begun.frmnow begun h)
            (λ r k.
              if-Ensures AllTracks r.0 (end_frame m b r.1) (some r.1)
                (end_with-AllTracks r.1.frmnow r.1 k) k))

  thread_round-AllTracks :
      (que : List (Exposure D)) (s : AFindPv D)
      → AllTracks s
      → Ensures AllTracks (thread_round m b (record s { frmque = que }))
  unfolding thread_round idle recheck_doubt
  thread_round-AllTracks [] s a = if-Ensures AllTracks (eqb_ℤ s.last_fno int_max) _ _ a (
      >>=-Ensures AllTracks AllTracks (end_sequence m b (record s { frmque = [] })) _
        (end_sequence-AllTracks m b (record s { frmque = [] }) a) (λ t h. h))
  thread_round-AllTracks (frame ∷ rest) s a = process-AllTracks frame (record s { frmque = rest }) a

  step-AllTracks : (e : Event D) (s : AFindPv D) → AllTracks s → Ensures AllTracks (step m b e s)
  unfolding step
  step-AllTracks (Event.arrive frame) s a = a
  step-AllTracks Event.wake s a = thread_round-AllTracks s.frmque s a

  run-AllTracks :
      (es : List (Event D)) (s : AFindPv D) → AllTracks s → Ensures AllTracks (run m b es s)
  unfolding run
  run-AllTracks [] s a = a
  run-AllTracks (e ∷ es) s a =
      >>=-Ensures AllTracks AllTracks (step m b e s) _ (step-AllTracks e s a)
        (λ t h. run-AllTracks es t h)

  -- Whatever frames arrive and whenever the thread makes its rounds, every orbit that it gives
  -- out has five points at least, moves in right ascension or declination, and goes from its
  -- second point on in the direction of the whole, from one point to the next.
  pub run-IsTrack :
      (par : Parameter) (g u c : Text) (cell : ℕ → Point D) (es : List (Event D))
      → Returns (λ t. All (IsTrackOutcome m b) t.outcomes) (run m b es (new_finder par g u c cell))
  unfolding new_finder
  run-IsTrack par g u c cell es =
      both AllTracks (run m b es (new_finder par g u c cell)) (run-some m b par g u c cell es)
        (run-AllTracks es (new_finder par g u c cell) tt)
