-- ===== src/Mathematics/Lagrange.antt =====
-- Lagrange of airs/src/AMath.cpp. `none` is a read outside of an array.
use airs.Base.{
  ℕ, zero, suc, ◌/◌, List, [], ◌∷◌, Option, none, some, get_elem?, ltb, if◌then◌else◌, true, false,
}
use airs.Base.Int.{ℤ, pos, negsuc, pos_part, ◌+ℤ◌, ◌-ℤ◌, ltb_ℤ, leb_ℤ}
use airs.Base.Faults.{◌>>=◌}
use airs.TimeSpace.Formulas.{Real}

-- A read of an array.
abbrev pub at : {A : Type 0} → List A → ℤ → Option A
at xs (pos i) = get_elem? xs i
at xs (negsuc i) = none

-- OD, at least 2 and then at most N.
unfoldable pub order : ℕ → ℤ → ℕ
order n od = let a = if ltb_ℤ od (pos 2) then 2 else pos_part od in if ltb n a then n else a

-- The rounds of a loop from one number to below another.
abbrev pub rounds : ℤ → ℤ → ℕ
rounds a b = pos_part (b -ℤ a)

-- SI and EI, brought above 0 and then below N.
unfoldable pub above_zero : ℤ → ℕ → ℤ × ℤ
unfolding ◌+ℤ◌ ◌-ℤ◌
above_zero (negsuc s) od = (pos 0, pos od -ℤ pos 1)
above_zero (pos s) od = (pos s, pos s +ℤ pos od -ℤ pos 1)

unfoldable pub below : ℕ → ℕ → ℤ × ℤ → ℤ × ℤ
unfolding ◌+ℤ◌ ◌-ℤ◌
below n od (si, ei) =
    if leb_ℤ (pos n) ei then (pos n -ℤ pos 1 -ℤ pos od +ℤ pos 1, pos n -ℤ pos 1) else (si, ei)

-- From the first position with a larger value.
unfoldable pub window : ℕ → ℕ → ℕ → ℤ × ℤ
unfolding above_zero below ◌-ℤ◌
window n od j = below n od (above_zero (pos j -ℤ pos (od / 2)) od)

module _ (r : Real) where
  abbrev D : Type 0
  D = r.Double

  -- The first j below N with XI[j] > x, from `j` on; `left` is N - j.
  unfoldable pub first_above : ℕ → ℕ → D → List D → Option ℕ
  first_above zero j x xi = some j
  first_above (suc left) j x xi = do
    a ← get_elem? xi j
    elim (r.less x a) [ true ↦ some j | false ↦ first_above left (suc j) x xi ]

  -- t1 = t1 * (x - XI[j]) / (XI[i] - XI[j]), from `j` on.
  unfoldable pub factors : ℕ → ℤ → ℤ → D → List D → D → Option D
  unfolding ◌+ℤ◌
  factors zero j i x xi t1 = some t1
  factors (suc left) j i x xi t1 = do
    b ← at xi i
    a ← at xi j
    factors left (j +ℤ pos 1) i x xi (r.div (r.mul t1 (r.sub x a)) (r.sub b a))

  -- t0 = t0 + t1 * YI[i], from `i` on.
  unfoldable pub terms : ℕ → ℤ → ℤ × ℤ → D → List D → List D → D → Option D
  unfolding factors ◌+ℤ◌ ◌-ℤ◌
  terms zero i w x xi yi t0 = some t0
  terms (suc left) i w x xi yi t0 = do
    t ← factors (rounds w.0 i) w.0 i x xi (r.lit "1")
    t1 ← factors (rounds i w.1) (i +ℤ pos 1) i x xi t
    y ← at yi i
    terms left (i +ℤ pos 1) w x xi yi (r.add t0 (r.mul t1 y))

  unfoldable pub lagrange_at : ℕ → ℕ → List D → List D → D → Option D
  unfolding first_above window terms ◌+ℤ◌ ◌-ℤ◌
  lagrange_at n od xi yi x = do
    j ← first_above n 0 x xi
    let w = window n od j
    terms (rounds w.0 (w.1 +ℤ pos 1)) w.0 w x xi yi (r.lit "0")

  unfoldable pub lagrange_all : ℕ → ℕ → List D → List D → List D → Option (List D)
  unfolding lagrange_at
  lagrange_all n od xi yi [] = some []
  lagrange_all n od xi yi (x ∷ xo) = do
    y ← lagrange_at n od xi yi x
    yo ← lagrange_all n od xi yi xo
    some (y ∷ yo)

  unfoldable pub lagrange : ℕ → List D → List D → ℤ → List D → Option (List D)
  unfolding order lagrange_all
  lagrange n xi yi od xo = lagrange_all n (order n od) xi yi xo
