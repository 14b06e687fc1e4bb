-- ===== src/Mathematics/Between.antt =====
-- splint of airs/src/AMath.cpp finds the two neighbours that enclose a place.
use airs.Base.{
  ℕ, zero, suc, ◌+◌, ◌-◌, ◌/◌, ◌≤◌, ◌<◌, ◌≡◌, ◌⊎◌, inl, inr, refl, ap, subst, List, [], ◌∷◌, Option,
  some, length, get_elem?, Bool, true, false, arith, Bool-cases, ltb,
}
use airs.Base.Faults.{Returns}
use airs.Doubles.{Doubles}
use airs.Mathematics.Spline.{bracket, cubic, splint}

pub get_elem?-some :
    {A : Type 0} (xs : List A) (i : ℕ) → i < length xs → (a : A) × (get_elem? xs i ≡ some a)
get_elem?-some [] i h = absurd (omega arith)
get_elem?-some (x ∷ xs) zero h = (x, refl)
get_elem?-some (x ∷ xs) (suc i) h = get_elem?-some xs i (omega arith)

module _ (m : Doubles) where
  abbrev D : Type 0
  D = m.real.Double

  -- The value at `k` is above `xo`, or is not.
  abbrev pub Above : Bool → D → List D → ℕ → Type 0
  Above larger xo x k = (a : D) × (get_elem? x k ≡ some a) × (m.real.less xo a ≡ larger)

  -- Neighbours in n values: the lower one is the first or not above `xo`, the upper one the last or
  -- above `xo`.
  pub record Encloses (n : ℕ) (xo : D) (x : List D) (k : ℕ) : Type 0 where
    pub inside : suc k < n
    pub low : (k ≡ 0) ⊎ Above false xo x k
    pub high : (suc (suc k) ≡ n) ⊎ Above true xo x (suc k)

  abbrev Found : ℕ → D → List D → Option (ℕ × ℕ) → Type 0
  Found n xo x r = (k : ℕ) × Encloses n xo x k × (r ≡ some (k, suc k))

  bracket-Found :
      (fuel n : ℕ) (xo : D) (x : List D) (klo khi : ℕ)
      → length x ≡ n
      → klo < khi
      → khi < n
      → khi ≤ klo + fuel
      → (klo ≡ 0) ⊎ Above false xo x klo
      → (suc khi ≡ n) ⊎ Above true xo x khi
      → Found n xo x (bracket m fuel xo x klo khi)
  unfolding bracket
  bracket-Found zero n xo x klo khi l lt top f lo hi = absurd (omega arith)
  bracket-Found (suc fuel) n xo x klo khi l lt top f lo hi = elim (Bool-cases (ltb 1 (khi - klo))) [
    | inr near ↦
        let next : khi ≡ suc klo = ground arith in
        rw (near, bracket)
          (
            klo,
            record {
              inside = omega arith;
              low = lo;
              high = subst (λ k. (suc k ≡ n) ⊎ Above true xo x k) next hi;
            },
            ap (λ k. some (klo, k)) next,
          )
    | inl far ↦
        let mid = (khi + klo) / 2 in
        let wide : klo + 2 ≤ khi = ground arith in
        let (a, e) = get_elem?-some x mid (omega arith) in
        elim (Bool-cases (m.real.less xo a)) [
          | inl above ↦
              rw (far, e, above, bracket)
                (bracket-Found fuel n xo x klo mid l (omega arith) (omega arith) (omega arith) lo
                  (inr (a, e, above)))
          | inr under ↦
              rw (far, e, under, bracket)
                (bracket-Found fuel n xo x mid khi l (omega arith) (omega arith) (omega arith)
                  (inr (a, e, under)) hi)
        ]
  ]

  -- The place, or that the two values are too near to each other.
  abbrev Value : Option (Option D) → Type 0
  Value r = Returns (λ v. Unit {0}) r

  cubic-Value :
      (n : ℕ) (x y c : List D) (xo : D) (k : ℕ)
      → length x ≡ n
      → length y ≡ n
      → length c ≡ n
      → suc k < n
      → Value (cubic m x y c xo k (suc k))
  unfolding cubic
  cubic-Value n x y c xo k lx ly lc h =
      let (xhi, e1) = get_elem?-some x (suc k) (omega arith) in
      let (xlo, e2) = get_elem?-some x k (omega arith) in
      let (ylo, e3) = get_elem?-some y k (omega arith) in
      let (yhi, e4) = get_elem?-some y (suc k) (omega arith) in
      let (clo, e5) = get_elem?-some c k (omega arith) in
      let (chi, e6) = get_elem?-some c (suc k) (omega arith) in
      elim (Bool-cases (m.real.less (m.fabs (m.real.sub xhi xlo)) (m.real.lit "1E-6"))) [
        | inl same ↦ rw (e1, e2, same, cubic) tt
        | inr apart ↦ rw (e1, e2, apart, e3, e4, e5, e6, cubic) tt
      ]

  -- splint takes the cubic between two neighbours that enclose `xo`, which returns.
  abbrev pub Interpolates : ℕ → List D → List D → List D → D → Option (Option D) → Type 0
  Interpolates n x y c xo r =
      (k : ℕ) × Encloses n xo x k × (r ≡ cubic m x y c xo k (suc k)) × Value r

  pub splint-Interpolates :
      (n : ℕ) (x y c : List D) (xo : D)
      → 2 ≤ n
      → length x ≡ n
      → length y ≡ n
      → length c ≡ n
      → Interpolates n x y c xo (splint m n x y c xo)
  unfolding splint
  splint-Interpolates zero x y c xo two lx ly lc = absurd (omega arith)
  splint-Interpolates (suc n) x y c xo two lx ly lc =
      let (k, enc, e) =
        bracket-Found (suc n) (suc n) xo x 0 n lx (omega arith) (omega arith) (omega arith)
          (inl refl) (inl refl) in
      rw (e, splint) (k, enc, refl, cubic-Value (suc n) x y c xo k lx ly lc enc.inside)
