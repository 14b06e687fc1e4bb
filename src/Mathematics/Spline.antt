-- ===== src/Mathematics/Spline.antt =====
-- spline and splint of airs/src/AMath.cpp. `none` is a read outside of an array; a splint that gives
-- false is `some none`.
use airs.Base.{
  ℕ, zero, suc, ◌+◌, ◌-◌, ◌/◌, List, [], ◌∷◌, Option, none, some, get_elem?, replicate, ltb,
  if◌then◌else◌, true, false,
}
use airs.Base.Int.{pos}
use airs.Base.Faults.{◌>>=◌}
use airs.Doubles.{Doubles}

-- A write into an array.
unfoldable pub write_at : {A : Type 0} → List A → ℕ → A → Option (List A)
write_at [] i b = none
write_at (a ∷ xs) zero b = some (b ∷ xs)
write_at (a ∷ xs) (suc i) b = do rest ← write_at xs i b; some (a ∷ rest)

module _ (m : Doubles) where
  abbrev D : Type 0
  D = m.real.Double

  -- The loop that halves the range from klo to khi; `none` also when the fuel is at its end.
  unfoldable pub bracket : ℕ → D → List D → ℕ → ℕ → Option (ℕ × ℕ)
  bracket zero xo x klo khi = none
  bracket (suc fuel) xo x klo khi = elim (ltb 1 (khi - klo)) [
    | false ↦ some (klo, khi)
    | true ↦ do
      a ← get_elem? x ((khi + klo) / 2)
      elim (m.real.less xo a) [
        | true ↦ bracket fuel xo x klo ((khi + klo) / 2)
        | false ↦ bracket fuel xo x ((khi + klo) / 2) khi
      ]
  ]

  -- ((a * a - 1) * a * c[klo] + (b * b - 1) * b * c[khi]) is the sum of two of these.
  abbrev bend : D → D → D
  bend a c = m.real.mul (m.real.mul (m.real.sub (m.real.mul a a) (m.real.of_int (pos 1))) a) c

  -- The value between two places.
  unfoldable pub cubic : List D → List D → List D → D → ℕ → ℕ → Option (Option D)
  cubic x y c xo klo khi = do
    xhi ← get_elem? x khi
    xlo ← get_elem? x klo
    let h = m.real.sub xhi xlo
    if m.real.less (m.fabs h) (m.real.lit "1E-6") then some none else (do
      let a = m.real.div (m.real.sub xhi xo) h
      let b = m.real.div (m.real.sub xo xlo) h
      ylo ← get_elem? y klo
      yhi ← get_elem? y khi
      clo ← get_elem? c klo
      chi ← get_elem? c khi
      some (
          some (
            m.real.add (m.real.add (m.real.mul a ylo) (m.real.mul b yhi)) (
              m.real.div (m.real.mul (m.real.mul (m.real.add (bend a clo) (bend b chi)) h) h)
                (m.real.of_int (pos 6))))))

  unfoldable pub splint : ℕ → List D → List D → List D → D → Option (Option D)
  unfolding bracket cubic
  splint zero x y c xo = none
  splint (suc n) x y c xo = do (klo, khi) ← bracket (suc n) xo x 0 n; cubic x y c xo klo khi

  abbrev add : D → D → D
  add a b = m.real.add a b

  abbrev sub : D → D → D
  sub a b = m.real.sub a b

  abbrev mul : D → D → D
  mul a b = m.real.mul a b

  abbrev div : D → D → D
  div a b = m.real.div a b

  abbrev int : ℕ → D
  int n = m.real.of_int (pos n)

  abbrev limit : D
  limit = mul (m.real.lit "0.99") (m.real.lit "1E30")

  -- c[0] and u[0].
  unfoldable pub start_of : List D → List D → D → Option (D × D)
  start_of x y c1 = elim (m.real.less limit c1) [
    | true ↦ some (int 0, int 0)
    | false ↦ do
      y1 ← get_elem? y 1
      y0 ← get_elem? y 0
      x1 ← get_elem? x 1
      x0 ← get_elem? x 0
      some (m.real.lit "-0.5", div (div (mul (int 3) (sub y1 y0)) (sub (sub y1 y0) c1)) (sub x1 x0))
  ]

  -- c[i] and u[i] from those before and three places.
  abbrev pub row_of : D × D × D → D × D × D → D × D → D × D
  row_of (xp, xi, xn) (yp, yi, yn) (cp, up) =
      let sig = div (sub xi xp) (sub xn xp) in
      let p = add (mul sig cp) (int 2) in
      let slope = sub (div (sub yn yi) (sub xn xi)) (div (sub yi yp) (sub xi xp)) in
      (
        div (sub sig (int 1)) p,
        div (sub (div (mul (m.real.lit "6.") slope) (sub xn xp)) (mul sig up)) p,
      )

  -- Three neighbours, from `j` on.
  abbrev pub three : List D → ℕ → Option (D × D × D)
  three x j = do
    a ← get_elem? x j
    b ← get_elem? x (suc j)
    c ← get_elem? x (suc (suc j))
    some (a, b, c)

  -- The loop upwards, with i = j + 1.
  unfoldable pub sweep : List D → List D → ℕ → ℕ → List D × List D → Option (List D × List D)
  unfolding write_at
  sweep x y zero j cu = some cu
  sweep x y (suc left) j (c, u) = do
    xs ← three x j
    ys ← three y j
    cp ← get_elem? c j
    up ← get_elem? u j
    let row = row_of xs ys (cp, up)
    next_c ← write_at c (suc j) row.0
    next_u ← write_at u (suc j) row.1
    sweep x y left (suc j) (next_c, next_u)

  -- qn and un; the last place is k + 1.
  unfoldable pub end_of : List D → List D → D → ℕ → Option (D × D)
  end_of x y cn k = elim (m.real.less limit cn) [
    | true ↦ some (int 0, int 0)
    | false ↦ do
      xn ← get_elem? x (suc k)
      xp ← get_elem? x k
      yn ← get_elem? y (suc k)
      yp ← get_elem? y k
      some (
        m.real.lit "0.5",
        mul (div (m.real.lit "3.") (sub xn xp)) (sub cn (div (sub yn yp) (sub xn xp))),
      )
  ]

  -- The loop downwards, from i = n - 2 to 0; the number is i + 1.
  unfoldable pub sweep_back : List D → ℕ → List D → Option (List D)
  unfolding write_at
  sweep_back u zero c = some c
  sweep_back u (suc i) c = do
    a ← get_elem? c i
    b ← get_elem? c (suc i)
    v ← get_elem? u i
    next ← write_at c i (add (mul a b) v)
    sweep_back u i next

  -- From the loop upwards on.
  unfoldable pub upper_end : List D → List D → D → ℕ → List D × List D → Option (List D)
  unfolding end_of sweep_back write_at
  upper_end x y cn k (c, us) = do
    q ← end_of x y cn k
    u ← get_elem? us k
    a ← get_elem? c k
    last ← write_at c (suc k) (div (sub q.1 (mul q.0 u)) (add (mul q.0 a) (m.real.lit "1.")))
    sweep_back us (suc k) last

  -- With less than two values u[n-2] is a read in front of the array.
  unfoldable pub spline : ℕ → List D → List D → D → D → List D → Option (List D)
  unfolding start_of sweep upper_end write_at
  spline zero x y c1 cn c = none
  spline (suc zero) x y c1 cn c = none
  spline (suc (suc k)) x y c1 cn c = do
    first ← start_of x y c1
    c0 ← write_at c 0 first.0
    u0 ← write_at (replicate (suc (suc k)) (int 0)) 0 first.1
    cu ← sweep x y k 0 (c0, u0)
    upper_end x y cn k cu
