-- ===== src/Tracks/Above.antt =====
-- Points that are not made yet are in no frame, candidate or outcome.
use airs.Base.{ℕ, ◌≡◌, ◌<◌, ◌≤◌, refl, List, [], ◌∷◌, Option, none, some, arith}
use airs.Tracks.Points.{PvFrame}
use airs.Tracks.Candidate.{Candidate}
use airs.Tracks.Finder.{Outcome}
use airs.Tracks.Counts.{outcome_pts, outcome_uses, candidate_uses, count-above, shared, All-drop}
use airs.Tracks.Keeping.{Below, IsGood}
use airs.Tracks.Batches.{AllGood}
use airs.Tracks.Invariant.{Within, AllMade}

pub Below-le : (n k : ℕ) (qs : List ℕ) → n ≤ k → Below n qs → Below k qs
Below-le n k [] h b = tt
Below-le n k (q ∷ qs) h (l, b) = (omega arith, Below-le n k qs h b)

pub Within-le : {D : Type 0} (n k : ℕ) (f : Option (PvFrame D)) → n ≤ k → Within n f → Within k f
Within-le n k none h w = tt
Within-le n k (some f) h w = Below-le n k f.pts h w

pub IsGood-le : {D : Type 0} (n k : ℕ) (c : Candidate D) → n ≤ k → IsGood n c → IsGood k c
IsGood-le n k c h g = record {
  two = g.two;
  made = Below-le n k c.pts h g.made;
  unsure = Below-le n k c.frmu h g.unsure;
}

-- What is not made yet is in no candidate and no outcome.
shared-above : (n p : ℕ) (qs : List ℕ) → n ≤ p → Below n qs → shared p qs ≡ 0
shared-above n p qs h b = count-above p _ (All-drop (λ q. q < p) 2 qs (Below-le n p qs h b))

pub candidate_uses-above :
    {D : Type 0} (n p : ℕ) (cs : List (Candidate D))
    → n ≤ p
    → AllGood n cs
    → candidate_uses p cs ≡ 0
candidate_uses-above n p [] h a = refl
candidate_uses-above n p (c ∷ cs) h (g, a) =
    omega (arith, shared-above n p c.pts h g.made, candidate_uses-above n p cs h a)

pub outcome_uses-above :
    {D : Type 0} (n p : ℕ) (os : List (Outcome D)) → n ≤ p → AllMade n os → outcome_uses p os ≡ 0
outcome_uses-above n p [] h a = refl
outcome_uses-above n p (o ∷ os) h (g, a) =
    omega (arith, shared-above n p (outcome_pts o) h g, outcome_uses-above n p os h a)
