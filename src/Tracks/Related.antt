-- ===== src/Tracks/Related.antt =====
-- The counter `related` of the points of AFindPV, through every run of its thread.
use airs.Base.{ℕ, ◌+◌, ◌≡◌, ◌<◌, refl, ◌∙◌, ap, List, [], ◌∷◌, ◌++◌, some, arith}
use airs.Base.Int.{pos, eqb_ℤ}
use airs.Base.Text.{Text}
use airs.Badmark.Marks.{Parameter}
use airs.Doubles.{Doubles}
use airs.Base.Faults.{Returns, Returns-map, >>=-Returns}
use airs.Tracks.Points.{Point, Exposure}
use airs.Tracks.Finder.{AFindPv, Boost, new_finder, int_max}
use airs.Tracks.Matching.{begin_frame, cross_match}
use airs.Tracks.Sequence.{
  end_sequence, end_frame, recheck_doubt, without_badpix, enter_sequence, process, idle,
  thread_round,
}
use airs.Tracks.Counts.{outcome_uses, candidate_uses}
use airs.Tracks.Objects.{if-Returns}
use airs.Tracks.Sound.{IsSound}
use airs.Tracks.Sound.{
  begin_frame-IsSound, begin_frame-frmnow, match_frames-IsSound, enter_sequence-IsSound,
  end_sequence-IsSound,
}
use airs.Tracks.Grown.{end_frame-IsSound}
use airs.Tracks.Thread.{Event, step, run}

module _ (m : Doubles) (b : Boost m.real.Double) where
  abbrev D : Type 0
  D = m.real.Double

  requeue :
      (que : List (Exposure D)) (s : AFindPv D) → IsSound s → IsSound (record s { frmque = que })
  unfolding IsSound
  requeue que s (n, k) = (
    n,
    record {
      good = k.good;
      frmprev = k.frmprev;
      frmnow = k.frmnow;
      made = k.made;
      counts = k.counts;
    },
  )

  process-IsSound :
      (frame : Exposure D) (s : AFindPv D) → IsSound s → Returns IsSound (process m b frame s)
  unfolding process cross_match
  process-IsSound frame s k =
      >>=-Returns IsSound IsSound (enter_sequence m b frame s) _
        (enter_sequence-IsSound m b frame s k)
        (λ t kt.
          let clean = without_badpix m b frame t in
          let (now, e) = begin_frame-frmnow m b clean t in
          let begun = begin_frame m b clean t in
          >>=-Returns (λ r. IsSound r.1 × (r.1.frmnow ≡ begun.frmnow)) IsSound (cross_match m begun)
            _
            (match_frames-IsSound m b begun.frmprev begun.frmnow now begun e
              (begin_frame-IsSound m b clean t kt))
            (λ r kr.
              if-Returns IsSound r.0 (end_frame m b r.1) (some r.1)
                (end_frame-IsSound m b r.1 now (kr.1 ∙ e) kr.0) kr.0))

  recheck_doubt-IsSound :
      (t : AFindPv D) → IsSound t → IsSound (record (recheck_doubt m b t) { last_fno = int_max })
  unfolding IsSound recheck_doubt
  recheck_doubt-IsSound t (n, k) = (
    n,
    record {
      good = k.good;
      frmprev = k.frmprev;
      frmnow = k.frmnow;
      made = k.made;
      counts = k.counts;
    },
  )

  idle-IsSound : (s : AFindPv D) → IsSound s → Returns IsSound (idle m b s)
  unfolding idle
  idle-IsSound s k = if-Returns IsSound (eqb_ℤ s.last_fno int_max) (some s) _ k (
      >>=-Returns IsSound IsSound (end_sequence m b s) _ (end_sequence-IsSound m b s k)
        (λ t kt. recheck_doubt-IsSound t kt))

  -- From the queue.
  thread_round-IsSound :
      (que : List (Exposure D)) (s : AFindPv D)
      → IsSound s
      → Returns IsSound (thread_round m b (record s { frmque = que }))
  unfolding thread_round
  thread_round-IsSound [] s k = idle-IsSound (record s { frmque = [] }) (requeue [] s k)
  thread_round-IsSound (frame ∷ rest) s k =
      process-IsSound frame (record s { frmque = rest }) (requeue rest s k)

  step-IsSound : (e : Event D) (s : AFindPv D) → IsSound s → Returns IsSound (step m b e s)
  unfolding step
  step-IsSound (Event.arrive frame) s k = requeue (s.frmque ++ frame ∷ []) s k
  step-IsSound Event.wake s k = thread_round-IsSound s.frmque s k

  pub run-IsSound :
      (es : List (Event D)) (s : AFindPv D) → IsSound s → Returns IsSound (run m b es s)
  unfolding run
  run-IsSound [] s k = k
  run-IsSound (e ∷ es) s k =
      >>=-Returns IsSound IsSound (step m b e s) (λ t. run m b es t) (step-IsSound e s k)
        (λ t kt. run-IsSound es t kt)

  new_finder-IsSound :
      (par : Parameter) (g u c : Text) (cell : ℕ → Point D) → IsSound (new_finder par g u c cell)
  unfolding IsSound new_finder
  new_finder-IsSound par g u c cell = (
    0,
    record {
      good = tt;
      frmprev = tt;
      frmnow = tt;
      made = tt;
      counts = record { next = refl; related = λ p h. absurd (omega arith) };
    },
  )

  -- How often candidates and outcomes hold a point behind their second one.
  abbrev pub uses : ℕ → AFindPv D → ℕ
  uses p s = candidate_uses p s.cans + outcome_uses p s.outcomes

  related-uses :
      (t : AFindPv D)
      → IsSound t
      → (p : ℕ) → p < t.points.next
      → (t.points.cell p).related ≡ pos (uses p t)
  unfolding IsSound
  related-uses t (n, k) p h =
      k.counts.related p (omega (arith, k.counts.next)) ∙ ap pos (omega arith)

  -- Whatever frames arrive and whenever the thread makes its rounds, it never reads through an
  -- empty vector, and after it the counter `related` of every point is the number of times that
  -- the candidates at hand and the candidates that have become outcomes hold it behind their
  -- second point.
  pub run-related :
      (par : Parameter) (g u c : Text) (cell : ℕ → Point D) (es : List (Event D))
      → Returns
          (λ t. (p : ℕ) → p < t.points.next → (t.points.cell p).related ≡ pos (uses p t))
          (run m b es (new_finder par g u c cell))
  unfolding IsSound
  run-related par g u c cell es =
      Returns-map IsSound _ (run m b es (new_finder par g u c cell))
        (λ t k p h. related-uses t k p h) (run-IsSound es _ (new_finder-IsSound par g u c cell))

  -- Every run of events comes to its end.
  pub run-some :
      (par : Parameter) (g u c : Text) (cell : ℕ → Point D) (es : List (Event D))
      → Returns (λ t. Unit {0}) (run m b es (new_finder par g u c cell))
  run-some par g u c cell es =
      Returns-map IsSound (λ t. Unit {0}) (run m b es (new_finder par g u c cell)) (λ t k. tt)
        (run-IsSound es _ (new_finder-IsSound par g u c cell))
