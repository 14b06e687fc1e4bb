-- ===== src/Mathematics/Tests.antt =====
-- The theorems on the functions of AMath at small arrays.
use airs.Base.{ℕ, ◌≡◌, refl, ◌*◌, ◌^◌, List, [], ◌∷◌, length, some, if◌then◌else◌, ◌==◌, ◌%◌, arith}
use airs.Base.Int.{ℤ, pos, ◌+ℤ◌, ◌-ℤ◌}
use airs.Base.Faults.{Returns}
use airs.Doubles.Whole.{numbers, whole, whole_part, no_turns, divide, times, literal}
use airs.Mathematics.Spline.{spline, splint}
use airs.Mathematics.Between.{Interpolates}
use airs.Mathematics.Knots.{spline-Interpolates}
use airs.Mathematics.Endian.{swap_endian, reverse_cells}
use airs.Mathematics.Reversal.{swap_endian-reverse_cells}
use airs.Mathematics.Lagrange.{lagrange}
use airs.Mathematics.Window.{lagrange-length}

abbrev bytes : List ℕ
bytes = 1 ∷ 2 ∷ 3 ∷ 4 ∷ 5 ∷ 6 ∷ 7 ∷ 8 ∷ []

swapped : swap_endian 2 4 bytes ≡ 4 ∷ 3 ∷ 2 ∷ 1 ∷ 8 ∷ 7 ∷ 6 ∷ 5 ∷ []
unfolding swap_endian
swapped = refl

swap_endian-reverse_cells_example :
    swap_endian 2 4 bytes ≡ (if 4 % 2 == 0 then reverse_cells 2 4 bytes else bytes)
swap_endian-reverse_cells_example = swap_endian-reverse_cells 2 4 bytes refl

abbrev tens : List ℤ
tens = pos 0 ∷ pos 10 ∷ pos 20 ∷ pos 30 ∷ []

abbrev steps : List ℤ
steps = pos 0 ∷ pos 1 ∷ pos 2 ∷ pos 3 ∷ []

abbrev places : List ℤ
places = pos 2 ∷ pos 5 ∷ []

between : lagrange whole 4 steps tens (pos 2) places ≡ some (pos 20 ∷ pos 50 ∷ [])
unfolding lagrange no_turns divide times literal ◌+ℤ◌ ◌-ℤ◌
between = refl

lagrange-length_example :
    Returns (λ yo. length yo ≡ length places) (lagrange whole 4 steps tens (pos 2) places)
lagrange-length_example =
    lagrange-length whole 4 steps tens places (pos 2) (omega arith) (omega arith)

abbrev natural : ℤ
natural = pos (2 * 10 ^ 30)

spline-Interpolates_example :
    Returns
      (λ d. Interpolates numbers 4 steps tens d (pos 2) (splint numbers 4 steps tens d (pos 2)))
      (spline numbers 4 steps tens natural natural tens)
spline-Interpolates_example =
    spline-Interpolates numbers 4 steps tens natural natural tens (pos 2) (omega arith) refl refl
      refl

abbrev flat : List ℤ
flat = pos 0 ∷ pos 0 ∷ pos 0 ∷ pos 0 ∷ []

straight : splint numbers 4 steps tens flat (pos 2) ≡ some (some (pos 20))
unfolding splint no_turns divide times literal whole_part ◌+ℤ◌ ◌-ℤ◌
straight = refl
