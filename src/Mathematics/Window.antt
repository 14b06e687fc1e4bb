-- ===== src/Mathematics/Window.antt =====
-- Lagrange of airs/src/AMath.cpp reads inside of its arrays.
use airs.Base.{
  ℕ, zero, suc, ◌+◌, ◌-◌, ◌/◌, ◌≤◌, ◌<◌, ◌≡◌, refl, ap, sym, subst, List, [], ◌∷◌, Option, some,
  get_elem?, length, Bool, true, false, arith, leb, leb→le, Bool-cases, inl, inr,
}
use airs.Base.Int.{ℤ, pos, negsuc, ◌+ℤ◌, ◌-ℤ◌, leb_ℤ, sub_ℕ}
use airs.Base.Faults.{◌>>=◌, Returns, >>=-Returns}
use airs.TimeSpace.Formulas.{Real}
use airs.Mathematics.Lagrange.{
  order, rounds, above_zero, below, window, first_above, factors, terms, lagrange_at, lagrange_all,
  lagrange,
}

order-le : (n : ℕ) (od : ℤ) → order n od ≤ n
unfolding order
order-le n od = ground arith

-- A window of `od` places from `s` on, and what is known of it.
abbrev places : ℕ → ℕ → ℤ × ℤ
places s od = (pos s, sub_ℕ (s + od) 1)

record IsInside (n od : ℕ) (w : ℤ × ℤ) : Type 0 where
  start : ℕ
  fits : start + od ≤ n
  same : w ≡ places start od

above_zero-places : (z : ℤ) (od : ℕ) → (s : ℕ) × (above_zero z od ≡ places s od)
unfolding above_zero ◌+ℤ◌ ◌-ℤ◌
above_zero-places (pos s) od = (s, ap (λ k. (pos s, k)) (ground arith))
above_zero-places (negsuc s) od = (0, ap (λ k. (pos 0, k)) (ground arith))

kept : (n od s : ℕ) → s + od ≤ n → below n od (places s od) ≡ places s od
unfolding below
kept n od s h = let e : leb_ℤ (pos n) (sub_ℕ (s + od) 1) ≡ false = ground arith in rw e refl

cut_start : (n od : ℕ) → od ≤ n → pos n -ℤ pos 1 -ℤ pos od +ℤ pos 1 ≡ pos (n - od)
unfolding ◌+ℤ◌ ◌-ℤ◌
cut_start zero od h = ground arith
cut_start (suc n) od h = ground arith

cut_end : (n od : ℕ) → od ≤ n → pos n -ℤ pos 1 ≡ sub_ℕ (n - od + od) 1
unfolding ◌-ℤ◌
cut_end n od h = ground arith

cut : (n od s : ℕ) → od ≤ n → n < s + od → below n od (places s od) ≡ places (n - od) od
unfolding below
cut n od s h k =
    let e : leb_ℤ (pos n) (sub_ℕ (s + od) 1) ≡ true = ground arith in
    rw (e, cut_start n od h, cut_end n od h) refl

below-IsInside : (n od s : ℕ) → od ≤ n → IsInside n od (below n od (places s od))
below-IsInside n od s h = elim (Bool-cases (leb (s + od) n)) [
  | inl fits ↦ record { start = s; fits = leb→le _ _ fits; same = kept n od s (leb→le _ _ fits) }
  | inr wide ↦ record { start = n - od; fits = omega arith; same = cut n od s h (ground arith) }
]

window-IsInside : (n od j : ℕ) → od ≤ n → IsInside n od (window n od j)
unfolding window
window-IsInside n od j h =
    let (s, e) = above_zero-places (pos j -ℤ pos (od / 2)) od in
    subst (λ w. IsInside n od (below n od w)) (sym e) (below-IsInside n od s h)

next_pos : (i : ℕ) → pos i +ℤ pos 1 ≡ pos (suc i)
unfolding ◌+ℤ◌
next_pos i = ground arith

get_elem?-Returns :
    {A : Type 0} (xs : List A) (i : ℕ) → i < length xs → Returns (λ a. Unit {0}) (get_elem? xs i)
get_elem?-Returns [] i h = absurd (omega arith)
get_elem?-Returns (x ∷ xs) zero h = tt
get_elem?-Returns (x ∷ xs) (suc i) h = get_elem?-Returns xs i (omega arith)

module _ (r : Real) where
  abbrev D : Type 0
  D = r.Double

  abbrev Any : {A : Type 0} → Option A → Type 0
  Any o = Returns (λ a. Unit {0}) o

  then-Any :
      {A B : Type 0} (x : Option A) (f : A → Option B)
      → Any x
      → ((a : A) → Any (f a))
      → Any (x >>= f)
  then-Any x f h k = >>=-Returns (λ a. Unit) (λ a. Unit) x f h (λ a u. k a)

  found :
      (larger : Bool) (j n : ℕ) (later : Option ℕ)
      → j ≤ n
      → Returns (λ k. k ≤ n) later
      → Returns (λ k. k ≤ n) (elim larger [ true ↦ some j | false ↦ later ])
  found true j n later h l = h
  found false j n later h l = l

  first_above-Returns :
      (left n j : ℕ) (x : D) (xi : List D)
      → left + j ≡ n
      → n ≤ length xi
      → Returns (λ k. k ≤ n) (first_above r left j x xi)
  unfolding first_above
  first_above-Returns zero n j x xi e h = omega arith
  first_above-Returns (suc left) n j x xi e h =
      >>=-Returns (λ a. Unit {0}) (λ k. k ≤ n) (get_elem? xi j) _
        (get_elem?-Returns xi j (omega arith))
        (λ a u.
          found (r.less x a) j n (first_above r left (suc j) x xi) (omega arith)
            (first_above-Returns left n (suc j) x xi (omega arith) h))

  factors-Returns :
      (left j i : ℕ) (x : D) (xi : List D) (t1 : D)
      → left + j ≤ length xi
      → i < length xi
      → Any (factors r left (pos j) (pos i) x xi t1)
  unfolding factors
  factors-Returns zero j i x xi t1 h k = tt
  factors-Returns (suc left) j i x xi t1 h k =
      then-Any (get_elem? xi i) _ (get_elem?-Returns xi i k) (λ b.
        then-Any (get_elem? xi j) _ (get_elem?-Returns xi j (omega arith)) (λ a.
          subst
            (λ z. Any (factors r left z (pos i) x xi (r.div (r.mul t1 (r.sub x a)) (r.sub b a))))
            (sym (next_pos j)) (factors-Returns left (suc j) i x xi _ (omega arith) k)))

  -- The places before and behind one of the window.
  rounds-before : (s i : ℕ) → s ≤ i → rounds (pos s) (pos i) ≡ i - s
  unfolding ◌-ℤ◌
  rounds-before s i h = ground arith

  rounds-behind : (s od i : ℕ) → i < s + od → rounds (pos i) (sub_ℕ (s + od) 1) ≡ s + od - 1 - i
  unfolding ◌-ℤ◌
  rounds-behind s od i h = ground arith

  terms-Returns :
      (left i s od : ℕ) (x : D) (xi yi : List D) (t0 : D)
      → left + i ≡ s + od
      → s ≤ i
      → s + od ≤ length xi
      → s + od ≤ length yi
      → Any (terms r left (pos i) (places s od) x xi yi t0)
  unfolding terms
  terms-Returns zero i s od x xi yi t0 e l h k = tt
  terms-Returns (suc left) i s od x xi yi t0 e l h k =
      rw (rounds-before s i l, rounds-behind s od i (omega arith), next_pos i)
        (then-Any (factors r (i - s) (pos s) (pos i) x xi (r.lit "1")) _
          (factors-Returns (i - s) s i x xi _ (omega arith) (omega arith))
          (λ t.
            then-Any (factors r (s + od - 1 - i) (pos (suc i)) (pos i) x xi t) _
              (factors-Returns (s + od - 1 - i) (suc i) i x xi t (omega arith) (omega arith))
              (λ t1.
                then-Any (get_elem? yi i) _ (get_elem?-Returns yi i (omega arith)) (λ y.
                  terms-Returns left (suc i) s od x xi yi _ (omega arith) (omega arith) h k))))

  rounds-all : (s od : ℕ) → rounds (pos s) (sub_ℕ (s + od) 1 +ℤ pos 1) ≡ od
  unfolding ◌-ℤ◌ ◌+ℤ◌
  rounds-all s od = ground arith

  lagrange_at-Returns :
      (n od : ℕ) (xi yi : List D) (x : D)
      → od ≤ n
      → n ≤ length xi
      → n ≤ length yi
      → Any (lagrange_at r n od xi yi x)
  unfolding lagrange_at
  lagrange_at-Returns n od xi yi x h k l =
      >>=-Returns (λ j. j ≤ n) (λ a. Unit {0}) (first_above r n 0 x xi) _
        (first_above-Returns n n 0 x xi (omega arith) k)
        (λ j m.
          let w = window-IsInside n od j h in
          subst (λ z. Any (terms r (rounds z.0 (z.1 +ℤ pos 1)) z.0 z x xi yi (r.lit "0")))
            (sym w.same)
            (subst (λ c. Any (terms r c (pos w.start) (places w.start od) x xi yi (r.lit "0")))
              (sym (rounds-all w.start od))
              (terms-Returns od w.start w.start od x xi yi _ (omega arith) (omega arith)
                (omega (arith, w.fits)) (omega (arith, w.fits)))))

  lagrange_all-Returns :
      (n od : ℕ) (xi yi xo : List D)
      → od ≤ n
      → n ≤ length xi
      → n ≤ length yi
      → Returns (λ yo. length yo ≡ length xo) (lagrange_all r n od xi yi xo)
  unfolding lagrange_all
  lagrange_all-Returns n od xi yi [] h k l = refl
  lagrange_all-Returns n od xi yi (x ∷ xo) h k l =
      >>=-Returns (λ y. Unit {0}) (λ yo. length yo ≡ suc (length xo)) (lagrange_at r n od xi yi x) _
        (lagrange_at-Returns n od xi yi x h k l)
        (λ y u.
          >>=-Returns (λ yo. length yo ≡ length xo) (λ yo. length yo ≡ suc (length xo))
            (lagrange_all r n od xi yi xo) _ (lagrange_all-Returns n od xi yi xo h k l)
            (λ yo e. ap suc e))

  -- If both arrays have N values at least, Lagrange reads inside of them for any order and any
  -- points, and gives one value for each point.
  pub lagrange-length :
      (n : ℕ) (xi yi xo : List D) (od : ℤ)
      → n ≤ length xi
      → n ≤ length yi
      → Returns (λ yo. length yo ≡ length xo) (lagrange r n xi yi od xo)
  unfolding lagrange
  lagrange-length n xi yi xo od k l =
      lagrange_all-Returns n (order n od) xi yi xo (order-le n od) k l
