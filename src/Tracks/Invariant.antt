-- ===== src/Tracks/Invariant.antt =====
-- The invariant of AFindPV between the steps of its thread: what candidates, frames and outcomes
-- hold are points that are made, and the counters fit; and the ends of candidates keep it.
use airs.Base.{
  ℕ, ◌+◌, ◌≡◌, refl, ap, sym, subst, List, [], ◌∷◌, ◌++◌, Option, none, some, arith, inl, inr,
  length, All, All-append,
}
use airs.Doubles.{Doubles}
use airs.Base.Faults.{◌>>=◌, Returns, Returns-some, >>=-Returns}
use airs.Tracks.Points.{PvFrame}
use airs.Tracks.Candidate.{Candidate, xy_expect}
use airs.Tracks.Finder.{AFindPv, Boost, Outcome}
use airs.Tracks.Output.{candidate2object}
use airs.Tracks.Sequence.{
  finish_candidate, recheck, recheck_candidates, all_objects, complete_candidates, in_rect,
}
use airs.Tracks.Counts.{outcome_pts, outcome_uses, candidate_uses, shared, Counts, Counts-ext}
use airs.Tracks.Keeping.{Below, IsGood}
use airs.Tracks.Batches.{AllGood, xy_expect-Returns, complete-Counts, complete_all-Counts}
use airs.Tracks.Objects.{if-Returns, Adds, candidate2object-Adds}

abbrev pub Within : {D : Type 0} → ℕ → Option (PvFrame D) → Type 0
Within n none = Unit
Within n (some f) = Below n f.pts

abbrev pub AllMade : {D : Type 0} → ℕ → List (Outcome D) → Type 0
AllMade n os = All (λ o. Below n (outcome_pts o)) os

-- With the candidates `cs`, and `u` for the points that others hold.
pub record IsKept {D : Type 0} (n : ℕ) (u : ℕ → ℕ) (cs : List (Candidate D)) (s : AFindPv D)
    : Type 0 where
  pub good : AllGood n cs
  pub frmprev : Within n s.frmprev
  pub frmnow : Within n s.frmnow
  pub made : AllMade n s.outcomes
  pub counts : Counts n (λ p. u p + (candidate_uses p cs + outcome_uses p s.outcomes)) s.points

outcome_uses-append :
    {D : Type 0} (p : ℕ) (os : List (Outcome D)) (o : Outcome D)
    → outcome_uses p (os ++ o ∷ []) ≡ shared p (outcome_pts o) + outcome_uses p os
outcome_uses-append p [] o = omega arith
outcome_uses-append p (x ∷ os) o = omega (arith, outcome_uses-append p os o)

module _ (m : Doubles) (b : Boost m.real.Double) where
  abbrev D : Type 0
  D = m.real.Double

  -- The candidate has become an outcome.
  Adds-IsKept :
      (n : ℕ) (u : ℕ → ℕ) (c : Candidate D) (cs : List (Candidate D)) (s t : AFindPv D)
      → Adds c.pts s t
      → IsKept n u (c ∷ cs) s
      → IsKept n u cs t
  Adds-IsKept n u c cs s t a k = record {
    good = k.good.1;
    frmprev = subst (Within n) (sym a.frmprev) k.frmprev;
    frmnow = subst (Within n) (sym a.frmnow) k.frmnow;
    made = subst (AllMade n) (sym a.outcomes) (
        All-append s.outcomes (a.outcome ∷ []) (λ o. Below n (outcome_pts o))
          (subst (Below n) (sym a.of_pts) k.good.0.made, tt) k.made);
    counts =
        subst (Counts n (λ p. u p + (candidate_uses p cs + outcome_uses p t.outcomes)))
          (sym a.points)
          (Counts-ext n _ _ s.points
            (λ p. omega (
              arith,
              ap (outcome_uses p) a.outcomes,
              outcome_uses-append p s.outcomes a.outcome,
              ap (shared p) a.of_pts,
            ))
            k.counts);
  }

  candidate2object-IsKept :
      (pts : List ℕ) (n : ℕ) (u : ℕ → ℕ) (c : Candidate D) (cs : List (Candidate D)) (s : AFindPv D)
      → c.pts ≡ pts
      → IsKept n u (c ∷ cs) s
      → Returns (IsKept n u cs) (candidate2object m b pts s)
  candidate2object-IsKept [] n u c cs s e k = absurd (omega (arith, k.good.0.two, ap length e))
  candidate2object-IsKept (p ∷ ps) n u c cs s e k =
      let (t, et, a) =
        Returns-some (Adds (p ∷ ps) s) (candidate2object m b (p ∷ ps) s)
          (candidate2object-Adds m b p ps s) in
      rw et (Adds-IsKept n u c cs s t (subst (λ z. Adds z s t) (sym e) a) k)

  pub finish_candidate-IsKept :
      (n : ℕ) (u : ℕ → ℕ) (c : Candidate D) (cs : List (Candidate D)) (s : AFindPv D)
      → IsKept n u (c ∷ cs) s
      → Returns (IsKept n u cs) (finish_candidate m b c s)
  unfolding finish_candidate
  finish_candidate-IsKept n u c cs s k =
      elim (complete-Counts m n (λ p. u p + (candidate_uses p cs + outcome_uses p s.outcomes))
        s.points c (Counts-ext n _ _ s.points (λ p. omega arith) k.counts)) [
          | inl (_, e) ↦ rw e (candidate2object-IsKept c.pts n u c cs s refl k)
          | inr (e, kd) ↦ rw e (record {
            good = k.good.1;
            frmprev = k.frmprev;
            frmnow = k.frmnow;
            made = k.made;
            counts = kd;
          })
        ]

  recheck-IsKept :
      (cs : List (Candidate D)) (n : ℕ) (u : ℕ → ℕ) (now : PvFrame D) (s : AFindPv D)
      → IsKept n u cs s
      → Returns (λ r. IsKept n u r.0 r.1) (recheck m b now cs s)
  unfolding recheck
  recheck-IsKept [] n u now s k = k
  recheck-IsKept (c ∷ cs) n u now s k =
      >>=-Returns (λ e. Unit {0}) (λ r. IsKept n u r.0 r.1) (xy_expect m s.points now.mjd c) _
        (xy_expect-Returns m n s.points now.mjd c k.good.0)
        (λ e _.
          if-Returns (λ r. IsKept n u r.0 r.1) (in_rect m now e.0 e.1)
            (recheck m b now cs s >>= λ later. some (c ∷ later.0, later.1))
            (finish_candidate m b c s >>= λ t. recheck m b now cs t)
            (>>=-Returns (λ r. IsKept n (λ p. shared p c.pts + u p) r.0 r.1)
              (λ r. IsKept n u r.0 r.1) (recheck m b now cs s)
              (λ later. some (c ∷ later.0, later.1))
              (recheck-IsKept cs n (λ p. shared p c.pts + u p) now s (give n u c cs s k))
              (λ r kr. take_back n u c r.0 r.1 k.good.0 kr))
            (>>=-Returns (IsKept n u cs) (λ r. IsKept n u r.0 r.1) (finish_candidate m b c s)
              (λ t. recheck m b now cs t) (finish_candidate-IsKept n u c cs s k)
              (λ t kt. recheck-IsKept cs n u now t kt)))
    where
      give :
          (n : ℕ) (u : ℕ → ℕ) (c : Candidate D) (cs : List (Candidate D)) (s : AFindPv D)
          → IsKept n u (c ∷ cs) s
          → IsKept n (λ p. shared p c.pts + u p) cs s
      give n u c cs s k = record {
        good = k.good.1;
        frmprev = k.frmprev;
        frmnow = k.frmnow;
        made = k.made;
        counts = Counts-ext n _ _ s.points (λ p. omega arith) k.counts;
      }

      take_back :
          (n : ℕ) (u : ℕ → ℕ) (c : Candidate D) (cs : List (Candidate D)) (s : AFindPv D)
          → IsGood n c
          → IsKept n (λ p. shared p c.pts + u p) cs s
          → IsKept n u (c ∷ cs) s
      take_back n u c cs s g k = record {
        good = (g, k.good);
        frmprev = k.frmprev;
        frmnow = k.frmnow;
        made = k.made;
        counts = Counts-ext n _ _ s.points (λ p. omega arith) k.counts;
      }

  pub recheck_candidates-IsKept :
      (n : ℕ) (u : ℕ → ℕ) (now : PvFrame D) (s : AFindPv D)
      → IsKept n u s.cans s
      → Returns (λ t. IsKept n u t.cans t) (recheck_candidates m b now s)
  unfolding recheck_candidates
  recheck_candidates-IsKept n u now s k =
      >>=-Returns (λ r. IsKept n u r.0 r.1) (λ t. IsKept n u t.cans t) (recheck m b now s.cans s) _
        (recheck-IsKept s.cans n u now s k)
        (λ r kr. record {
          good = kr.good;
          frmprev = kr.frmprev;
          frmnow = kr.frmnow;
          made = kr.made;
          counts = kr.counts;
        })

  all_objects-IsKept :
      (cs : List (Candidate D)) (n : ℕ) (u : ℕ → ℕ) (s : AFindPv D)
      → IsKept n u cs s
      → Returns (IsKept n u []) (all_objects m b cs s)
  unfolding all_objects
  all_objects-IsKept [] n u s k = k
  all_objects-IsKept (c ∷ cs) n u s k =
      >>=-Returns (IsKept n u cs) (IsKept n u []) (candidate2object m b c.pts s)
        (λ t. all_objects m b cs t) (candidate2object-IsKept c.pts n u c cs s refl k)
        (λ t kt. all_objects-IsKept cs n u t kt)

  pub complete_candidates-IsKept :
      (n : ℕ) (u : ℕ → ℕ) (s : AFindPv D)
      → IsKept n u s.cans s
      → Returns (IsKept n u []) (complete_candidates m b s)
  unfolding complete_candidates
  complete_candidates-IsKept n u s k =
      let (good, counts) =
        complete_all-Counts m b s.cans n (λ p. u p + outcome_uses p s.outcomes) s.points k.good
          (Counts-ext n _ _ s.points (λ p. omega arith) k.counts) in
      all_objects-IsKept _ n u _ (record {
        good = good;
        frmprev = k.frmprev;
        frmnow = k.frmnow;
        made = k.made;
        counts = Counts-ext n _ _ _ (λ p. omega arith) counts;
      })
