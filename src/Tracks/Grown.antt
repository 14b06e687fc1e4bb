-- ===== src/Tracks/Grown.antt =====
-- The invariant of AFindPV through the end of a frame, where candidates grow and begin.
use airs.Base.{ℕ, ◌+◌, ◌≡◌, List, [], ◌∷◌, Option, none, some, arith, All-append}
use airs.Doubles.{Doubles}
use airs.Base.Faults.{Returns, >>=-Returns}
use airs.Tracks.Points.{PvFrame}
use airs.Tracks.Finder.{AFindPv, Boost}
use airs.Tracks.Sequence.{
  create_candidates, append_candidates, append_all, recheck_candidates, end_frame, pairs,
  create_from, grow, end_with,
}
use airs.Tracks.Counts.{outcome_uses, candidate_uses, Counts, Counts-ext}
use airs.Tracks.Keeping.{Below, IsGood}
use airs.Tracks.Batches.{AllGood, append_all-Returns, pairs-Unshared, candidate_uses-append}
use airs.Tracks.Invariant.{Within, IsKept, recheck_candidates-IsKept}
use airs.Tracks.Sound.{IsSound}

module _ (m : Doubles) (b : Boost m.real.Double) where
  abbrev D : Type 0
  D = m.real.Double

  create_from-IsSound :
      (prev now : Option (PvFrame D)) (n : ℕ) (s : AFindPv D)
      → Within n prev
      → Within n now
      → IsKept n (λ p. 0) s.cans s
      → IsSound (create_from m prev now s)
  unfolding IsSound create_from
  create_from-IsSound none now n s wp wn k = (n, k)
  create_from-IsSound (some prev) none n s wp wn k = (n, k)
  create_from-IsSound (some prev) (some now) n s wp wn k =
      let (good, unused) = pairs-Unshared m n prev.pts now.pts s.points wp wn in
      let new = pairs m s.points prev.pts now.pts in
      (
        n,
        record {
          good = All-append s.cans new (λ c. IsGood n c) good k.good;
          frmprev = k.frmprev;
          frmnow = k.frmnow;
          made = k.made;
          counts =
              Counts-ext n _ _ s.points
                (λ p. omega (arith, candidate_uses-append p s.cans new, unused p)) k.counts;
        },
      )

  grow-IsSound :
      (pts : List ℕ) (n : ℕ) (s : AFindPv D)
      → Below n pts
      → IsKept n (λ p. 0) s.cans s
      → Returns IsSound (grow m b pts s)
  unfolding IsSound grow append_candidates create_candidates
  grow-IsSound [] n s h k = (n, k)
  grow-IsSound (p ∷ ps) n s h k =
      >>=-Returns (λ t. IsKept n (λ q. 0) t.cans t) IsSound (append_candidates m (p ∷ ps) s) _
        (>>=-Returns
          (λ r.
            AllGood n r.0 × Counts n (λ q. candidate_uses q r.0 + outcome_uses q s.outcomes) r.1)
          (λ t. IsKept n (λ q. 0) t.cans t) (append_all m (p ∷ ps) s.cans s.points) _
          (append_all-Returns m s.cans n (λ q. outcome_uses q s.outcomes) (p ∷ ps) s.points h k.good
            (Counts-ext n _ _ s.points (λ q. omega arith) k.counts))
          (λ r kr. record {
            good = kr.0;
            frmprev = k.frmprev;
            frmnow = k.frmnow;
            made = k.made;
            counts = Counts-ext n _ _ r.1 (λ q. omega arith) kr.1;
          }))
        (λ t kt. create_from-IsSound t.frmprev t.frmnow n t kt.frmprev kt.frmnow kt)

  end_with-IsSound :
      (frmnow : Option (PvFrame D)) (now : PvFrame D) (n : ℕ) (s : AFindPv D)
      → frmnow ≡ some now
      → Within n frmnow
      → IsKept n (λ p. 0) s.cans s
      → Returns IsSound (end_with m b frmnow s)
  unfolding end_with
  end_with-IsSound none now n s e w k = cc
  end_with-IsSound (some f) now n s e w k =
      >>=-Returns (λ t. IsKept n (λ p. 0) t.cans t) IsSound (recheck_candidates m b f s) _
        (recheck_candidates-IsKept m b n (λ p. 0) f s k) (λ t kt. grow-IsSound f.pts n t w kt)

  pub end_frame-IsSound :
      (s : AFindPv D) (now : PvFrame D)
      → s.frmnow ≡ some now
      → IsSound s
      → Returns IsSound (end_frame m b s)
  unfolding IsSound end_frame
  end_frame-IsSound s now e (n, k) = end_with-IsSound s.frmnow now n s e k.frmnow k
