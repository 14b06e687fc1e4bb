-- ===== src/Mathematics/Endian.antt =====
-- SwapEndian of airs/src/AMath.cpp on the bytes of its array.
use airs.Base.{
  ℕ, zero, suc, ◌+◌, ◌-◌, ◌%◌, List, ◌++◌, none, some, get_elem?, set, take, drop, ltb, ◌==◌,
  if◌then◌else◌, not,
}
use mathlib.Core.List.{reverse}

-- The exchange of two bytes. A read or write outside of the array is not modelled.
unfoldable pub exchange : ℕ → ℕ → List ℕ → List ℕ
exchange p1 p2 xs = elim (get_elem? xs p1) [
  | none ↦ xs
  | some a ↦ elim (get_elem? xs p2) [ none ↦ xs | some b ↦ set (set xs p1 b) p2 a ]
]

-- for (p1 = p, p2 = p1 + np; p1 < p2; p1++, p2--), with fuel for the rounds.
unfoldable pub swap_cell : ℕ → ℕ → ℕ → List ℕ → List ℕ
unfolding exchange
swap_cell zero p1 p2 xs = xs
swap_cell (suc fuel) p1 p2 xs =
    let rest = swap_cell fuel (suc p1) (p2 - 1) (exchange p1 p2 xs) in
    if ltb p1 p2 then rest else xs

-- The loop over the elements from `p` on. A cell of `ncell` bytes has fewer rounds than bytes.
unfoldable pub swap_cells : ℕ → ℕ → ℕ → List ℕ → List ℕ
unfolding swap_cell
swap_cells zero ncell p xs = xs
swap_cells (suc nelement) ncell p xs =
    swap_cells nelement ncell (p + ncell) (swap_cell ncell p (p + ncell - 1) xs)

unfoldable pub swap_endian : ℕ → ℕ → List ℕ → List ℕ
unfolding swap_cells
swap_endian nelement ncell xs = if not (ncell % 2 == 0) then xs else swap_cells nelement ncell 0 xs

-- Each cell of the array in the opposite order.
unfoldable pub reverse_cells : ℕ → ℕ → List ℕ → List ℕ
reverse_cells zero ncell xs = xs
reverse_cells (suc nelement) ncell xs =
    reverse (take ncell xs) ++ reverse_cells nelement ncell (drop ncell xs)
