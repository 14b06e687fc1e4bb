-- ===== src/Tracks/Batches.antt =====
-- What the loops of AFindPV over candidates and points do to the counters of the points.
use airs.Base.{
  ℕ, ◌+◌, ◌≡◌, ◌<◌, refl, ap, List, [], ◌∷◌, ◌++◌, Bool, true, false, ◌⊎◌, if◌then◌else◌, arith,
  Bool-cases, inl, inr, drop, All, All-append,
}
use airs.Doubles.{Doubles}
use airs.Base.Faults.{Returns, Returns-some}
use airs.Tracks.Points.{Store}
use airs.Tracks.Candidate.{
  Candidate, update_candidate, is_valid, dec_all, complete, xy_expect, last_point, create,
}
use airs.Tracks.Finder.{Boost}
use airs.Tracks.Sequence.{add_points, append_all, pairs_with, pairs, complete_all}
use airs.Tracks.Counts.{shared, candidate_uses, Counts, Counts-ext, dec_all-Counts}
use airs.Tracks.Keeping.{Below, IsGood, last-IsGood, add_points-Returns, update-Returns}

abbrev pub AllGood : {D : Type 0} → ℕ → List (Candidate D) → Type 0
AllGood n cs = All (λ c. IsGood n c) cs

pub candidate_uses-append :
    {D : Type 0} (p : ℕ) (cs ds : List (Candidate D))
    → candidate_uses p (cs ++ ds) ≡ candidate_uses p cs + candidate_uses p ds
candidate_uses-append p [] ds = omega arith
candidate_uses-append p (c ∷ cs) ds = omega (arith, candidate_uses-append p cs ds)

module _ (m : Doubles) where
  abbrev D : Type 0
  D = m.real.Double

  xy_from :
      (n : ℕ) (pts : List ℕ) (st : Store D) (t : D) (c : Candidate D)
      → IsGood n (record c { pts = pts })
      → Returns (λ e. Unit {0}) (xy_expect m st t (record c { pts = pts }))
  unfolding xy_expect
  xy_from n [] st t c g = absurd (omega (arith, g.two))
  xy_from n (p ∷ ps) st t c g =
      let (l, e, h) =
        Returns-some (λ q. q < n) (last_point (p ∷ ps))
          (last-IsGood m n (record c { pts = p ∷ ps }) g) in
      rw (xy_expect, e) tt

  pub xy_expect-Returns :
      (n : ℕ) (st : Store D) (t : D) (c : Candidate D)
      → IsGood n c
      → Returns (λ e. Unit {0}) (xy_expect m st t c)
  xy_expect-Returns n st t c g = xy_from n c.pts st t c g

  pub append_all-Returns :
      (cs : List (Candidate D)) (n : ℕ) (u : ℕ → ℕ) (pts : List ℕ) (st : Store D)
      → Below n pts
      → AllGood n cs
      → Counts n (λ p. candidate_uses p cs + u p) st
      → Returns
          (λ r. AllGood n r.0 × Counts n (λ p. candidate_uses p r.0 + u p) r.1)
          (append_all m pts cs st)
  unfolding append_all
  append_all-Returns [] n u pts st b a k = (tt, k)
  append_all-Returns (c ∷ cs) n u pts st b (g, a) k =
      let (d, e, (gd, same)) =
        Returns-some (λ d. IsGood n d × (d.pts ≡ c.pts)) (add_points m st pts c)
          (add_points-Returns m n pts st c b g) in
      let (r, e2, (gr, kr)) =
        Returns-some
          (λ r. IsGood n r.0 × Counts n (λ p. shared p r.0.pts + (candidate_uses p cs + u p)) r.1)
          (update_candidate m d st)
          (update-Returns m n (λ p. candidate_uses p cs + u p) st d gd
            (Counts-ext n _ _ st (λ p. omega (arith, ap (shared p) same)) k)) in
      let (later, e3, (ga, ka)) =
        Returns-some
          (λ l. AllGood n l.0 × Counts n (λ p. candidate_uses p l.0 + (shared p r.0.pts + u p)) l.1)
          (append_all m pts cs r.1)
          (append_all-Returns cs n (λ p. shared p r.0.pts + u p) pts r.1 b a
            (Counts-ext n _ _ r.1 (λ p. omega arith) kr)) in
      rw (e, e2, e3) ((gr, ga), Counts-ext n _ _ later.1 (λ p. omega arith) ka)

  -- A candidate that is no track gives its points back; a track keeps them.
  pub complete-Counts :
      (n : ℕ) (u : ℕ → ℕ) (st : Store D) (c : Candidate D)
      → Counts n (λ p. shared p c.pts + u p) st
      → ((is_valid m st c.pts ≡ true) × (complete m c st ≡ (true, c, st)))
        ⊎ ((complete m c st ≡ (false, record c { pts = [] }, dec_all (drop 2 c.pts) st))
            × Counts n u (dec_all (drop 2 c.pts) st))
  unfolding complete
  complete-Counts n u st c k = elim (Bool-cases (is_valid m st c.pts)) [
    | inl valid ↦ inl (valid, rw valid refl)
    | inr bad ↦ inr (rw bad refl, dec_all-Counts (drop 2 c.pts) n u st k)
  ]

  pub complete_all-Counts :
      (b : Boost D) (cs : List (Candidate D)) (n : ℕ) (u : ℕ → ℕ) (st : Store D)
      → AllGood n cs
      → Counts n (λ p. candidate_uses p cs + u p) st
      → AllGood n (complete_all m b cs st).0
        × Counts n
            (λ p. candidate_uses p (complete_all m b cs st).0 + u p)
            (complete_all m b cs st).1
  unfolding complete_all
  complete_all-Counts b [] n u st a k = (tt, k)
  complete_all-Counts b (c ∷ cs) n u st (g, a) k =
      elim (complete-Counts n (λ p. candidate_uses p cs + u p) st c
        (Counts-ext n _ _ st (λ p. omega arith) k)) [
          | inl (_, e) ↦ rw e (
              let (ga, ka) =
                complete_all-Counts b cs n (λ p. shared p c.pts + u p) st a
                  (Counts-ext n _ _ st (λ p. omega arith) k) in
              ((g, ga), Counts-ext n _ _ _ (λ p. omega arith) ka))
          | inr (e, kd) ↦ rw e (complete_all-Counts b cs n u (dec_all (drop 2 c.pts) st) a kd)
        ]

  -- Good candidates that share no point.
  abbrev pub Unshared : ℕ → List (Candidate D) → Type 0
  Unshared n cs = AllGood n cs × ((r : ℕ) → candidate_uses r cs ≡ 0)

  if-Unshared :
      (hit : Bool) (n : ℕ) (c : Candidate D) (cs : List (Candidate D))
      → Unshared n (c ∷ cs)
      → Unshared n cs
      → Unshared n (if hit then c ∷ cs else cs)
  if-Unshared true n c cs a b = a
  if-Unshared false n c cs a b = b

  append-Unshared :
      (hit : Bool) (n : ℕ) (cs ds : List (Candidate D))
      → Unshared n cs
      → Unshared n ds
      → Unshared n (if hit then cs ++ ds else ds)
  append-Unshared true n cs ds (a, e) (b, f) = (
    All-append cs ds (λ c. IsGood n c) b a,
    λ r. omega (arith, candidate_uses-append r cs ds, e r, f r),
  )
  append-Unshared false n cs ds a b = b

  create-IsGood :
      (n p q : ℕ) (st : Store D)
      → p < n
      → q < n
      → IsGood n (create m st p q) × ((r : ℕ) → shared r (create m st p q).pts ≡ 0)
  unfolding create
  create-IsGood n p q st h k =
      (record { two = omega arith; made = (h, (k, tt)); unsure = tt }, λ r. refl)

  pairs_with-Unshared :
      (n p : ℕ) (qs : List ℕ) (st : Store D)
      → p < n
      → Below n qs
      → Unshared n (pairs_with m st p qs)
  unfolding pairs_with
  pairs_with-Unshared n p [] st h b = (tt, λ r. refl)
  pairs_with-Unshared n p (q ∷ qs) st h (hq, b) =
      let (a, e) = pairs_with-Unshared n p qs st h b in
      let (g, f) = create-IsGood n p q st h hq in
      if-Unshared _ n (create m st p q) (pairs_with m st p qs)
        ((g, a), λ r. omega (arith, e r, f r)) (a, e)

  pub pairs-Unshared :
      (n : ℕ) (ps qs : List ℕ) (st : Store D)
      → Below n ps
      → Below n qs
      → Unshared n (pairs m st ps qs)
  unfolding pairs
  pairs-Unshared n [] qs st a b = (tt, λ r. refl)
  pairs-Unshared n (p ∷ ps) qs st (h, a) b =
      append-Unshared _ n (pairs_with m st p qs) (pairs m st ps qs)
        (pairs_with-Unshared n p qs st h b) (pairs-Unshared n ps qs st a b)
