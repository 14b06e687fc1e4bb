-- ===== src/Mathematics/Reversal.antt =====
-- SwapEndian of airs/src/AMath.cpp puts the bytes of each cell in the opposite order.
use airs.Base.{
  ℕ, zero, suc, ◌+◌, ◌-◌, ◌*◌, ◌%◌, ◌≤◌, ◌≡◌, refl, ◌∙◌, ap, sym, subst, List, [], ◌∷◌, ◌++◌, some,
  get_elem?, set, take, drop, length, length-append, length-take, length-drop, take-append-drop,
  ltb, lt→ltb, ◌==◌, if◌then◌else◌, true, false, arith, append_assoc, Bool-cases, inl, inr,
}
use mathlib.Core.List.{reverse, reverse-append}
use airs.Mathematics.Endian.{exchange, swap_cell, swap_cells, swap_endian, reverse_cells}

get_elem?-middle :
    (front : List ℕ) (a : ℕ) (back : List ℕ) → get_elem? (front ++ a ∷ back) (length front) ≡ some a
get_elem?-middle [] a back = refl
get_elem?-middle (b ∷ front) a back = get_elem?-middle front a back

set-middle :
    (front : List ℕ) (a v : ℕ) (back : List ℕ)
    → set (front ++ a ∷ back) (length front) v ≡ front ++ v ∷ back
set-middle [] a v back = refl
set-middle (b ∷ front) a v back = ap (λ z. b ∷ z) (set-middle front a v back)

-- The same behind `front` and one byte, at a position given by a number.
behind : (front mid : List ℕ) (a : ℕ) → length (front ++ a ∷ mid) ≡ suc (length front + length mid)
behind front mid a = omega (arith, length-append front (a ∷ mid))

regroup :
    (front mid back : List ℕ) (a b : ℕ)
    → front ++ (a ∷ (mid ++ (b ∷ back))) ≡ (front ++ (a ∷ mid)) ++ (b ∷ back)
regroup front mid back a b = sym (append_assoc front (a ∷ mid) (b ∷ back))

exchange-ends :
    (front mid back : List ℕ) (a b : ℕ)
    → exchange (length front) (suc (length front + length mid)) (front ++ (a ∷ (mid ++ (b ∷ back))))
      ≡ front ++ (b ∷ (mid ++ (a ∷ back)))
unfolding exchange
exchange-ends front mid back a b =
    let e = get_elem?-middle front a (mid ++ (b ∷ back)) in
    let f =
      ap (λ z. get_elem? z (suc (length front + length mid))) (regroup front mid back a b)
      ∙ ap (get_elem? ((front ++ (a ∷ mid)) ++ (b ∷ back))) (sym (behind front mid a))
      ∙ get_elem?-middle (front ++ (a ∷ mid)) b back in
    rw (e, f, exchange)
      (ap (λ z. set z (suc (length front + length mid)) a)
          (set-middle front a b (mid ++ (b ∷ back)) ∙ regroup front mid back b b)
        ∙ ap (λ k. set ((front ++ (b ∷ mid)) ++ (b ∷ back)) k a) (sym (behind front mid b))
        ∙ set-middle (front ++ (b ∷ mid)) b a back
        ∙ sym (regroup front mid back b a))

-- A list that is not empty has a last element.
last_split : (a : ℕ) (xs : List ℕ) → (mid : List ℕ) × (b : ℕ) × (a ∷ xs ≡ mid ++ (b ∷ []))
last_split a [] = ([], a, refl)
last_split a (x ∷ xs) = let (mid, b, e) = last_split x xs in (a ∷ mid, b, ap (λ z. a ∷ z) e)

reverse-ends :
    (mid : List ℕ) (a b : ℕ) → reverse (a ∷ (mid ++ (b ∷ []))) ≡ b ∷ (reverse mid ++ (a ∷ []))
reverse-ends mid a b =
    reverse-append (a ∷ []) (mid ++ (b ∷ []))
    ∙ ap (λ z. z ++ (a ∷ [])) (reverse-append mid (b ∷ []))

swap_cell-stop : (fuel p1 p2 : ℕ) (xs : List ℕ) → ltb p1 p2 ≡ false → swap_cell fuel p1 p2 xs ≡ xs
unfolding swap_cell
swap_cell-stop zero p1 p2 xs h = refl
swap_cell-stop (suc fuel) p1 p2 xs h = rw h refl

swap_cell-step :
    (fuel p1 p2 : ℕ) (xs : List ℕ)
    → ltb p1 p2 ≡ true
    → swap_cell (suc fuel) p1 p2 xs ≡ swap_cell fuel (suc p1) (p2 - 1) (exchange p1 p2 xs)
unfolding swap_cell
swap_cell-step fuel p1 p2 xs h = rw h refl

not_less : (p q : ℕ) → q ≤ p → ltb p q ≡ false
not_less p q h = ground arith

-- One round, from what the other rounds do to the bytes between.
swap_cell-ends :
    (fuel : ℕ) (front mid back : List ℕ) (a b : ℕ)
    → (let start = front ++ (b ∷ []) in
        swap_cell fuel (length start) (length start + length mid - 1) (start ++ (mid ++ (a ∷ back)))
        ≡ start ++ (reverse mid ++ (a ∷ back)))
    → (let cell = a ∷ (mid ++ (b ∷ [])) in
        swap_cell
          (suc fuel)
          (length front)
          (length front + length cell - 1)
          (front ++ (cell ++ back))
        ≡ front ++ (reverse cell ++ back))
swap_cell-ends fuel front mid back a b ih =
    let p1 = length front in
    let p2 = suc (length front + length mid) in
    let start = front ++ (b ∷ []) in
    let inner = mid ++ (a ∷ back) in
    ap (λ k. swap_cell (suc fuel) p1 k (front ++ ((a ∷ (mid ++ (b ∷ []))) ++ back)))
      (omega (arith, length-append mid (b ∷ [])))
    ∙ ap (λ z. swap_cell (suc fuel) p1 p2 (front ++ (a ∷ z))) (append_assoc mid (b ∷ []) back)
    ∙ swap_cell-step fuel p1 p2 _ (lt→ltb p1 p2 (omega arith))
    ∙ ap (swap_cell fuel (suc p1) (p2 - 1))
        (exchange-ends front mid back a b ∙ sym (append_assoc front (b ∷ []) inner))
    ∙ ap (λ k. swap_cell fuel k (p2 - 1) (start ++ inner))
        (omega (arith, length-append front (b ∷ [])))
    ∙ ap (λ k. swap_cell fuel (length start) k (start ++ inner))
        (omega (arith, length-append front (b ∷ [])))
    ∙ ih
    ∙ append_assoc front (b ∷ []) (reverse mid ++ (a ∷ back))
    ∙ ap (λ z. front ++ z)
        (sym (
          ap (λ z. z ++ back) (reverse-ends mid a b)
          ∙ ap (λ z. b ∷ z) (append_assoc (reverse mid) (a ∷ []) back)))

swap_cell-reverse :
    (fuel : ℕ) (front cell back : List ℕ)
    → length cell ≤ fuel
    → swap_cell fuel (length front) (length front + length cell - 1) (front ++ (cell ++ back))
      ≡ front ++ (reverse cell ++ back)
swap_cell-reverse fuel front [] back h = swap_cell-stop fuel _ _ _ (not_less _ _ (omega arith))
swap_cell-reverse fuel front (a ∷ []) back h =
    swap_cell-stop fuel _ _ _ (not_less _ _ (omega arith))
swap_cell-reverse zero front (a ∷ c ∷ cs) back h = absurd (omega arith)
swap_cell-reverse (suc fuel) front (a ∷ c ∷ cs) back h =
    let (mid, b, e) = last_split c cs in
    let ih =
      swap_cell-reverse fuel (front ++ (b ∷ [])) mid (a ∷ back)
        (omega (arith, ap length e, length-append mid (b ∷ []))) in
    subst
      (λ z.
        swap_cell (suc fuel) (length front) (length front + length (a ∷ z) - 1)
          (front ++ ((a ∷ z) ++ back))
        ≡ front ++ (reverse (a ∷ z) ++ back))
      (sym e) (swap_cell-ends fuel front mid back a b ih)

length-reverse : (xs : List ℕ) → length (reverse xs) ≡ length xs
length-reverse [] = refl
length-reverse (a ∷ xs) =
    ap length (reverse-append (a ∷ []) xs)
    ∙ (omega (arith, length-append (reverse xs) (a ∷ []), length-reverse xs))

swap_cells-reverse :
    (nelement ncell : ℕ) (front xs : List ℕ)
    → nelement * ncell ≤ length xs
    → swap_cells nelement ncell (length front) (front ++ xs)
      ≡ front ++ reverse_cells nelement ncell xs
unfolding swap_cells reverse_cells
swap_cells-reverse zero ncell front xs h = refl
swap_cells-reverse (suc nelement) ncell front xs h =
    let cell = take ncell xs in
    let rest = drop ncell xs in
    let many : ncell ≤ length xs = grind arith in
    let len : length cell ≡ ncell = ground (arith, length-take ncell xs) in
    let left : nelement * ncell ≤ length rest = grind (arith, length-drop ncell xs) in
    ap (λ z. swap_cells nelement ncell (length front + ncell) z)
      (ap (λ z. swap_cell ncell (length front) (length front + ncell - 1) (front ++ z))
          (sym (take-append-drop ncell xs))
        ∙ ap (λ k. swap_cell ncell (length front) (length front + k - 1) (front ++ (cell ++ rest)))
            (sym len)
        ∙ swap_cell-reverse ncell front cell rest (omega arith)
        ∙ sym (append_assoc front (reverse cell) rest))
    ∙ ap (λ k. swap_cells nelement ncell k ((front ++ reverse cell) ++ rest))
        (omega (arith, length-append front (reverse cell), length-reverse cell))
    ∙ swap_cells-reverse nelement ncell (front ++ reverse cell) rest left
    ∙ append_assoc front (reverse cell) (reverse_cells nelement ncell rest)

-- If the array has as many bytes as cells of the given size need, SwapEndian puts the bytes of
-- each cell in the opposite order, if the size is even, and leaves the array as it is, if it is
-- odd.
pub swap_endian-reverse_cells :
    (nelement ncell : ℕ) (xs : List ℕ)
    → length xs ≡ nelement * ncell
    → swap_endian nelement ncell xs
      ≡ (if ncell % 2 == 0 then reverse_cells nelement ncell xs else xs)
unfolding swap_endian
swap_endian-reverse_cells nelement ncell xs h = elim (Bool-cases (ncell % 2 == 0)) [
  | inl even ↦ rw even (swap_cells-reverse nelement ncell [] xs (omega arith))
  | inr odd ↦ rw odd refl
]
