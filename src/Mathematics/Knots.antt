-- ===== src/Mathematics/Knots.antt =====
-- spline of airs/src/AMath.cpp stays inside of its arrays.
use airs.Base.{
  ℕ, zero, suc, ◌+◌, ◌≤◌, ◌<◌, ◌≡◌, refl, ◌∙◌, ap, List, [], ◌∷◌, some, length, get_elem?,
  replicate, length-replicate, arith, Bool-cases, inl, inr,
}
use airs.Base.Int.{pos}
use airs.Base.Faults.{Returns, >>=-Returns, Returns-some, Returns-map}
use airs.Doubles.{Doubles}
use airs.Mathematics.Spline.{
  write_at, start_of, three, row_of, sweep, end_of, sweep_back, upper_end, spline, splint,
}
use airs.Mathematics.Between.{get_elem?-some, Interpolates, splint-Interpolates}

write_at-Returns :
    {A : Type 0} (xs : List A) (i : ℕ) (b : A)
    → i < length xs
    → Returns (λ ys. length ys ≡ length xs) (write_at xs i b)
unfolding write_at
write_at-Returns [] i b h = absurd (omega arith)
write_at-Returns (a ∷ xs) zero b h = refl
write_at-Returns (a ∷ xs) (suc i) b h =
    >>=-Returns (λ ys. length ys ≡ length xs) (λ ys. length ys ≡ suc (length xs)) (write_at xs i b)
      _ (write_at-Returns xs i b (omega arith)) (λ ys e. ap suc e)

write_at-some :
    {A : Type 0} (xs : List A) (i : ℕ) (b : A) (n : ℕ)
    → length xs ≡ n
    → i < n
    → (ys : List A) × (write_at xs i b ≡ some ys) × (length ys ≡ n)
write_at-some xs i b n l h =
    let (ys, e, k) =
      Returns-some (λ ys. length ys ≡ length xs) (write_at xs i b)
        (write_at-Returns xs i b (omega arith)) in
    (ys, e, k ∙ l)

module _ (m : Doubles) where
  abbrev D : Type 0
  D = m.real.Double

  three-some :
      (x : List D) (j n : ℕ)
      → length x ≡ n
      → suc (suc j) < n
      → (a : D × D × D) × (three m x j ≡ some a)
  three-some x j n l h =
      let (a, e1) = get_elem?-some x j (omega arith) in
      let (b, e2) = get_elem?-some x (suc j) (omega arith) in
      let (c, e3) = get_elem?-some x (suc (suc j)) (omega arith) in
      ((a, b, c), rw (e1, e2, e3) refl)

  start_of-Returns :
      (x y : List D) (c1 : D) (n : ℕ)
      → length x ≡ n
      → length y ≡ n
      → 2 ≤ n
      → Returns (λ a. Unit {0}) (start_of m x y c1)
  unfolding start_of
  start_of-Returns x y c1 n lx ly h =
      let (y1, e1) = get_elem?-some y 1 (omega arith) in
      let (y0, e2) = get_elem?-some y 0 (omega arith) in
      let (x1, e3) = get_elem?-some x 1 (omega arith) in
      let (x0, e4) = get_elem?-some x 0 (omega arith) in
      elim (Bool-cases (m.real.less (m.real.mul (m.real.lit "0.99") (m.real.lit "1E30")) c1)) [
        | inl natural ↦ rw (natural, start_of) tt
        | inr given ↦ rw (given, e1, e2, e3, e4, start_of) tt
      ]

  end_of-Returns :
      (x y : List D) (cn : D) (k n : ℕ)
      → length x ≡ n
      → length y ≡ n
      → suc k < n
      → Returns (λ a. Unit {0}) (end_of m x y cn k)
  unfolding end_of
  end_of-Returns x y cn k n lx ly h =
      let (y1, e1) = get_elem?-some y (suc k) (omega arith) in
      let (y0, e2) = get_elem?-some y k (omega arith) in
      let (x1, e3) = get_elem?-some x (suc k) (omega arith) in
      let (x0, e4) = get_elem?-some x k (omega arith) in
      elim (Bool-cases (m.real.less (m.real.mul (m.real.lit "0.99") (m.real.lit "1E30")) cn)) [
        | inl natural ↦ rw (natural, end_of) tt
        | inr given ↦ rw (given, e1, e2, e3, e4, end_of) tt
      ]

  -- Both arrays have n places.
  abbrev Both : ℕ → List D × List D → Type 0
  Both n (c, u) = (length c ≡ n) × (length u ≡ n)

  sweep-Both :
      (x y : List D) (left j n : ℕ) (c u : List D)
      → length x ≡ n
      → length y ≡ n
      → Both n (c, u)
      → suc (left + j) < n
      → Returns (Both n) (sweep m x y left j (c, u))
  unfolding sweep
  sweep-Both x y zero j n c u lx ly b h = b
  sweep-Both x y (suc left) j n c u lx ly b h =
      let (xs, e1) = three-some x j n lx (omega arith) in
      let (ys, e2) = three-some y j n ly (omega arith) in
      let (cp, e3) = get_elem?-some c j (omega (arith, b.0)) in
      let (up, e4) = get_elem?-some u j (omega (arith, b.1)) in
      let row = row_of m xs ys (cp, up) in
      let (next_c, e5, lc) = write_at-some c (suc j) row.0 n b.0 (omega arith) in
      let (next_u, e6, lu) = write_at-some u (suc j) row.1 n b.1 (omega arith) in
      rw (e1, e2, e3, e4, e5, e6, sweep)
        (sweep-Both x y left (suc j) n next_c next_u lx ly (lc, lu) (omega arith))

  sweep_back-length :
      (u : List D) (i n : ℕ) (c : List D)
      → length u ≡ n
      → length c ≡ n
      → i < n
      → Returns (λ d. length d ≡ n) (sweep_back m u i c)
  unfolding sweep_back
  sweep_back-length u zero n c lu lc h = lc
  sweep_back-length u (suc i) n c lu lc h =
      let (a, e1) = get_elem?-some c i (omega arith) in
      let (b, e2) = get_elem?-some c (suc i) (omega arith) in
      let (v, e3) = get_elem?-some u i (omega arith) in
      let (next, e4, l) = write_at-some c i (m.real.add (m.real.mul a b) v) n lc (omega arith) in
      rw (e1, e2, e3, e4, sweep_back) (sweep_back-length u i n next lu l (omega arith))

  write_at-length :
      (xs : List D) (i : ℕ) (b : D) (n : ℕ)
      → length xs ≡ n
      → i < n
      → Returns (λ ys. length ys ≡ n) (write_at xs i b)
  write_at-length xs i b n l h =
      Returns-map (λ ys. length ys ≡ length xs) (λ ys. length ys ≡ n) (write_at xs i b)
        (λ ys e. e ∙ l) (write_at-Returns xs i b (omega arith))

  get-Returns :
      (xs : List D) (i n : ℕ) → length xs ≡ n → i < n → Returns (λ a. Unit {0}) (get_elem? xs i)
  get-Returns xs i n l h = let (a, e) = get_elem?-some xs i (omega arith) in rw e tt

  upper_end-length :
      (x y : List D) (cn : D) (k n : ℕ) (cu : List D × List D)
      → length x ≡ n
      → length y ≡ n
      → Both n cu
      → suc k < n
      → Returns (λ d. length d ≡ n) (upper_end m x y cn k cu)
  unfolding upper_end
  upper_end-length x y cn k n (c, us) lx ly b h =
      >>=-Returns (λ q. Unit) (λ d. length d ≡ n) (end_of m x y cn k) _
        (end_of-Returns x y cn k n lx ly h)
        (λ q t.
          >>=-Returns (λ u. Unit) (λ d. length d ≡ n) (get_elem? us k) _
            (get-Returns us k n b.1 (omega arith))
            (λ u tu.
              >>=-Returns (λ a. Unit) (λ d. length d ≡ n) (get_elem? c k) _
                (get-Returns c k n b.0 (omega arith))
                (λ a ta.
                  >>=-Returns (λ last. length last ≡ n) (λ d. length d ≡ n) (write_at c (suc k) _) _
                    (write_at-length c (suc k) _ n b.0 h)
                    (λ last l. sweep_back-length us (suc k) n last b.1 l h))))

  pub spline-length :
      (n : ℕ) (x y : List D) (c1 cn : D) (c : List D)
      → 2 ≤ n
      → length x ≡ n
      → length y ≡ n
      → length c ≡ n
      → Returns (λ d. length d ≡ n) (spline m n x y c1 cn c)
  unfolding spline
  spline-length zero x y c1 cn c two lx ly lc = absurd (omega arith)
  spline-length (suc zero) x y c1 cn c two lx ly lc = absurd (omega arith)
  spline-length (suc (suc k)) x y c1 cn c two lx ly lc =
      let n = suc (suc k) in
      let zeros = replicate (suc k) (m.real.of_int (pos 0)) in
      >>=-Returns (λ q. Unit) (λ d. length d ≡ n) (start_of m x y c1) _
        (start_of-Returns x y c1 n lx ly two)
        (λ first t.
          >>=-Returns (λ c0. length c0 ≡ n) (λ d. length d ≡ n) (write_at c 0 first.0) _
            (write_at-length c 0 first.0 n lc (omega arith))
            (λ c0 l.
              >>=-Returns (Both n) (λ d. length d ≡ n) (sweep m x y k 0 (c0, first.1 ∷ zeros)) _
                (sweep-Both x y k 0 n c0 (first.1 ∷ zeros) lx ly
                  (l, ap suc (length-replicate (suc k) (m.real.of_int (pos 0)))) (omega arith))
                (λ cu b. upper_end-length x y cn k n cu lx ly b (omega arith))))

  -- If there are at least two values and the arrays have room for them, spline reads and writes
  -- inside of its arrays, and splint with its result comes to an end, reads inside too, and takes
  -- the cubic between two neighbours of which the lower one is the first or not above the place
  -- and the upper one the last or above it.
  pub spline-Interpolates :
      (n : ℕ) (x y : List D) (c1 cn : D) (c : List D) (xo : D)
      → 2 ≤ n
      → length x ≡ n
      → length y ≡ n
      → length c ≡ n
      → Returns (λ d. Interpolates m n x y d xo (splint m n x y d xo)) (spline m n x y c1 cn c)
  spline-Interpolates n x y c1 cn c xo two lx ly lc =
      Returns-map (λ d. length d ≡ n) (λ d. Interpolates m n x y d xo (splint m n x y d xo))
        (spline m n x y c1 cn c) (λ d ld. splint-Interpolates m n x y d xo two lx ly ld)
        (spline-length n x y c1 cn c two lx ly lc)
