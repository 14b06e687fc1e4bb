-- ===== src/Tracks/Counts.antt =====
-- How often the candidates and the outcomes hold a point behind their second one, and what the
-- counter `related` of the points makes of it.
use airs.Base.{
  ℕ, zero, suc, ◌+◌, ◌≡◌, ◌<◌, ◌≤◌, refl, ◌∙◌, ap, List, [], ◌∷◌, ◌++◌, ◌==◌, if◌then◌else◌, arith,
  Bool-cases, inl, inr, length, drop, All,
}
use airs.Base.Int.{ℤ, pos, ◌+ℤ◌, ◌-ℤ◌}
use airs.Tracks.Points.{Point, Store, inc_rel, dec_rel, set_matched, make}
use airs.Tracks.Candidate.{Candidate, dec_all}
use airs.Tracks.Finder.{Outcome}

abbrev pub count : ℕ → List ℕ → ℕ
count p [] = 0
count p (q ∷ qs) = (if q == p then 1 else 0) + count p qs

abbrev pub shared : ℕ → List ℕ → ℕ
shared p pts = count p (drop 2 pts)

less_one : (k : ℕ) → pos (1 + k) -ℤ pos 1 ≡ pos k
unfolding ◌-ℤ◌
less_one k = ground arith

one_more : (k : ℕ) → pos k +ℤ pos 1 ≡ pos (1 + k)
unfolding ◌+ℤ◌
one_more k = ground arith

module _ {D : Type 0} where
  abbrev pub outcome_pts : Outcome D → List ℕ
  outcome_pts (Outcome.noise pts) = pts
  outcome_pts (Outcome.hot pts) = pts
  outcome_pts (Outcome.orbit o) = o.pts

  abbrev pub candidate_uses : ℕ → List (Candidate D) → ℕ
  candidate_uses p [] = 0
  candidate_uses p (c ∷ cs) = shared p c.pts + candidate_uses p cs

  abbrev pub outcome_uses : ℕ → List (Outcome D) → ℕ
  outcome_uses p [] = 0
  outcome_uses p (o ∷ os) = shared p (outcome_pts o) + outcome_uses p os

  -- The points that are made have the counts `u`.
  pub record Counts (n : ℕ) (u : ℕ → ℕ) (st : Store D) : Type 0 where
    pub next : st.next ≡ n
    pub related : (p : ℕ) → p < n → (st.cell p).related ≡ pos (u p)

  pub Counts-ext :
      (n : ℕ) (u v : ℕ → ℕ) (st : Store D) → ((p : ℕ) → u p ≡ v p) → Counts n u st → Counts n v st
  Counts-ext n u v st e c = record { next = c.next; related = λ p h. c.related p h ∙ ap pos (e p) }

  dec_rel-Counts :
      (n : ℕ) (u : ℕ → ℕ) (q : ℕ) (st : Store D)
      → Counts n (λ p. (if q == p then 1 else 0) + u p) st
      → Counts n u (dec_rel q st)
  unfolding dec_rel
  dec_rel-Counts n u q st c = record {
    next = c.next;
    related = λ p h. elim (Bool-cases (p == q)) [
      | inl same ↦ ground (arith, c.related p h, less_one (u p))
      | inr other ↦ ground (arith, c.related p h)
    ];
  }

  pub inc_rel-Counts :
      (n : ℕ) (u : ℕ → ℕ) (q : ℕ) (st : Store D)
      → Counts n u st
      → Counts n (λ p. (if q == p then 1 else 0) + u p) (inc_rel q st)
  unfolding inc_rel
  inc_rel-Counts n u q st c = record {
    next = c.next;
    related = λ p h. elim (Bool-cases (p == q)) [
      | inl same ↦ ground (arith, c.related p h, one_more (u p))
      | inr other ↦ ground (arith, c.related p h)
    ];
  }

  pub dec_all-Counts :
      (qs : List ℕ) (n : ℕ) (u : ℕ → ℕ) (st : Store D)
      → Counts n (λ p. count p qs + u p) st
      → Counts n u (dec_all qs st)
  unfolding dec_all
  dec_all-Counts [] n u st c = Counts-ext n _ u st (λ p. omega arith) c
  dec_all-Counts (q ∷ qs) n u st c =
      dec_all-Counts qs n u (dec_rel q st)
        (dec_rel-Counts n (λ p. count p qs + u p) q st (Counts-ext n _ _ st (λ p. omega arith) c))

  pub set_matched-Counts :
      (n : ℕ) (u : ℕ → ℕ) (k : ℤ) (q : ℕ) (st : Store D)
      → Counts n u st
      → Counts n u (set_matched k q st)
  unfolding set_matched
  set_matched-Counts n u k q st c = record {
    next = c.next;
    related = λ p h. elim (Bool-cases (p == q)) [
      | inl same ↦ rw same (c.related p h)
      | inr other ↦ rw other (c.related p h)
    ];
  }

  pub make-Counts :
      (n : ℕ) (u : ℕ → ℕ) (v : Point D) (st : Store D)
      → v.related ≡ pos 0
      → u n ≡ 0
      → Counts n u st
      → Counts (suc n) u (make v st)
  make-Counts n u v st zero_related unused c = record {
    next = ap suc c.next;
    related = λ p h. elim (Bool-cases (p == st.next)) [
      | inl new ↦ ground (arith, c.next)
      | inr old ↦ ground (arith, c.next, c.related p)
    ];
  }

-- A point that is not made yet is in no list of points that are.
pub count-above : (n : ℕ) (qs : List ℕ) → All (λ q. q < n) qs → count n qs ≡ 0
count-above n [] a = refl
count-above n (q ∷ qs) (h, a) = ground (arith, count-above n qs a)

pub All-drop {ℓ} :
    {A : Type ℓ} (P : A → Type 0) (n : ℕ) (xs : List A) → All P xs → All P (drop n xs)
All-drop P zero xs a = a
All-drop P (suc n) [] a = tt
All-drop P (suc n) (x ∷ xs) (h, a) = All-drop P n xs a

pub count-append : (p : ℕ) (qs rs : List ℕ) → count p (qs ++ rs) ≡ count p qs + count p rs
count-append p [] rs = omega arith
count-append p (q ∷ qs) rs = omega (arith, count-append p qs rs)

-- A point that joins behind the second one is shared once more.
pub shared-join :
    (p q : ℕ) (pts : List ℕ)
    → 2 ≤ length pts
    → shared p (pts ++ q ∷ []) ≡ (if q == p then 1 else 0) + shared p pts
shared-join p q [] h = absurd (omega arith)
shared-join p q (a ∷ []) h = absurd (omega arith)
shared-join p q (a ∷ b ∷ rest) h = omega (arith, count-append p rest (q ∷ []))
