-- ===== src/TimeSpace/AngleBounds.antt =====
-- When HourStr2Dbl and DegStr2Dbl of airs/src/ATimeSpace.cpp stay inside their buffer.
use airs.Base.{
  ℕ, suc, ◌+◌, ◌≡◌, ◌≢◌, ◌≤◌, ◌<◌, sym, subst, [], ◌∷◌, Bool, true, false, ◌==◌, ◌||◌, ltb, length,
  arith, if◌then◌else◌, Bool-cases, inl, inr, lt→ltb, length-append,
}
use airs.Base.Text.{Text, is_digit}
use airs.TimeSpace.Formulas.{Real}
use airs.TimeSpace.Angles.{
  Scanned, and_then, buff_size, Scan, hour_digits, degree_digits, put_char, end_text, next_part,
  end_part, is_full, scan_digit, at_last, scan_separator, scan_point, scan_char, scan_text,
  new_scan, scan_all, hour_str2_dbl, deg_str2_dbl, signed,
}

-- No overrun, and a result only as `P` says.
abbrev Within : {A : Type 0} → (A → Type 0) → Scanned A → Type 0
Within P (Scanned.failed z) = Unit
Within P Scanned.overrun = ⊥
Within P (Scanned.parsed a) = P a

and_then-Within :
    {A B : Type 0} (P : A → Type 0) (Q : B → Type 0) (x : Scanned A) (f : A → Scanned B)
    → Within P x
    → ((a : A) → P a → Within Q (f a))
    → Within Q (and_then x f)
and_then-Within P Q (Scanned.failed z) f w h = tt
and_then-Within P Q Scanned.overrun f w h = absurd w
and_then-Within P Q (Scanned.parsed a) f w h = h a w

one_most : (n : ℕ) → 1 ≤ suc n
one_most n = omega arith

shift : (a b : ℕ) → suc a + b ≡ a + suc b
shift a b = omega arith

if-Within :
    {A : Type 0} (P : A → Type 0) (b : Bool) (x y : Scanned A)
    → Within P x
    → Within P y
    → Within P (if b then x else y)
if-Within P true x y w v = w
if-Within P false x y w v = v

module _ (r : Real) (atof : Text → r.Double) (digits : ℕ → ℕ) where
  -- At most `n` characters in the buffer.
  abbrev Fits : ℕ → Scan r.Double → Type 0
  Fits n s = length s.buff ≤ n

  put_char-Within :
      (c n : ℕ) (s : Scan r.Double)
      → n < buff_size
      → Fits n s
      → Within (Fits (suc n)) (put_char r atof digits c s)
  unfolding put_char
  put_char-Within c n s h f =
      rw (lt→ltb (length s.buff) buff_size (omega arith))
        (subst (λ k. k ≤ suc n) (sym (length-append s.buff (c ∷ []))) (omega arith))

  end_part-Within :
      (n : ℕ) (s : Scan r.Double)
      → n < buff_size
      → Fits n s
      → Within (Fits 0) (end_part r atof digits s)
  unfolding end_part end_text next_part
  end_part-Within n s h f = rw (lt→ltb (length s.buff) buff_size (omega arith)) (omega arith)

  Within-weaken :
      (m n : ℕ) (x : Scanned (Scan r.Double)) → m ≤ n → Within (Fits m) x → Within (Fits n) x
  Within-weaken m n (Scanned.failed z) h w = tt
  Within-weaken m n Scanned.overrun h w = w
  Within-weaken m n (Scanned.parsed s) h w = omega (arith, h, w)

  scan_digit-Within :
      (c n : ℕ) (s : Scan r.Double)
      → n < buff_size
      → Fits n s
      → Within (Fits (suc n)) (scan_digit r atof digits c s)
  unfolding scan_digit
  scan_digit-Within c n s h f =
      if-Within (Fits (suc n)) (is_full r atof digits s)
        (and_then (end_part r atof digits s) (put_char r atof digits c))
        (put_char r atof digits c s)
        (and_then-Within (Fits 0) (Fits (suc n)) (end_part r atof digits s)
          (put_char r atof digits c) (end_part-Within n s h f)
          (λ t w.
            Within-weaken 1 (suc n) (put_char r atof digits c t) (one_most n)
              (put_char-Within c 0 t (omega arith) w)))
        (put_char-Within c n s h f)

  scan_separator-Within :
      (n : ℕ) (s : Scan r.Double)
      → n < buff_size
      → Fits n s
      → Within (Fits (suc n)) (scan_separator r atof digits s)
  unfolding scan_separator
  scan_separator-Within n s h f = elim (Bool-cases (at_last r atof digits s)) [
    | inl last ↦ rw last tt
    | inr early ↦ elim (Bool-cases (ltb 0 (length s.buff))) [
      | inl some ↦
          rw (early, some) (Within-weaken 0 (suc n) _ (omega arith) (end_part-Within n s h f))
      | inr none ↦ rw (early, none) (omega (arith, f))
    ]
  ]

  scan_point-Within :
      (c n : ℕ) (s : Scan r.Double)
      → n < buff_size
      → Fits n s
      → Within (Fits (suc n)) (scan_point r atof digits c s)
  unfolding scan_point
  scan_point-Within c n s h f = elim (Bool-cases (ltb 0 s.dot)) [
    | inl again ↦ rw again tt
    | inr first ↦ rw first (put_char-Within c n (record s { dot = suc s.dot }) h f)
  ]

  scan_char-Within :
      (c n : ℕ) (s : Scan r.Double)
      → n < buff_size
      → Fits n s
      → Within (Fits (suc n)) (scan_char r atof digits c s)
  unfolding scan_char
  scan_char-Within c n s h f = elim (Bool-cases (is_digit c)) [
    | inl digit ↦ rw digit (scan_digit-Within c n s h f)
    | inr other ↦ elim (Bool-cases (c == b' ' || c == b':')) [
      | inl gap ↦ rw (other, gap) (scan_separator-Within n s h f)
      | inr char ↦ elim (Bool-cases (c == b'.')) [
        | inl point ↦ rw (other, char, point) (scan_point-Within c n s h f)
        | inr wrong ↦ rw (other, char, wrong) tt
      ]
    ]
  ]

  scan_text-Within :
      (cs : Text) (n : ℕ) (s : Scan r.Double)
      → n + length cs ≤ buff_size
      → Fits n s
      → Within (Fits (n + length cs)) (scan_text r atof digits cs s)
  unfolding scan_text
  scan_text-Within [] n s h f = omega (arith, f)
  scan_text-Within (c ∷ cs) n s h f =
      and_then-Within (Fits (suc n)) (Fits (n + suc (length cs))) _ _
        (scan_char-Within c n s (omega (arith, h)) f)
        (λ t w.
          subst (λ k. Within (Fits k) (scan_text r atof digits cs t)) (shift n (length cs))
            (scan_text-Within cs (suc n) t (omega (arith, h)) w))

  scan_all-Within :
      (cs : Text) → length cs < buff_size → Within (λ d. Unit) (scan_all r atof digits cs)
  unfolding scan_all end_text
  scan_all-Within cs h =
      and_then-Within (Fits (0 + length cs)) (λ d. Unit) _ _
        (scan_text-Within cs 0 (new_scan r atof digits) (omega (arith, h)) (omega arith))
        (λ s w. rw (lt→ltb (length s.buff) buff_size (omega (arith, h, w))) tt)

Within-overrun : {A : Type 0} (P : A → Type 0) (x : Scanned A) → Within P x → x ≢ Scanned.overrun
Within-overrun P x w e = subst (Within P) e w

signed-Within :
    (r : Real) (atof : Text → r.Double) (sign : r.Double) (x : Scanned r.Double)
    → Within (λ d. Unit) x
    → Within (λ d. Unit) (signed r atof sign x)
signed-Within r atof sign (Scanned.failed z) w = tt
signed-Within r atof sign Scanned.overrun w = w
signed-Within r atof sign (Scanned.parsed d) w = tt

deg_str2_dbl-Within :
    (r : Real) (atof : Text → r.Double) (cs : Text)
    → length cs < buff_size
    → Within (λ d. Unit) (deg_str2_dbl r atof cs)
unfolding deg_str2_dbl
deg_str2_dbl-Within r atof [] h = tt
deg_str2_dbl-Within r atof (c ∷ cs) h = elim (Bool-cases (c == b'+' || c == b'-')) [
  | inl sign ↦ rw sign (
      signed-Within r atof _ (scan_all r atof degree_digits cs)
        (scan_all-Within r atof degree_digits cs (omega (arith, h))))
  | inr none ↦ rw none (
      signed-Within r atof _ (scan_all r atof degree_digits (c ∷ cs))
        (scan_all-Within r atof degree_digits (c ∷ cs) h))
]

-- For every text of fewer than 20 characters neither HourStr2Dbl nor DegStr2Dbl writes behind the
-- end of its buffer.
pub str2_dbl-bounds :
    (r : Real) (atof : Text → r.Double) (cs : Text)
    → length cs < buff_size
    → (hour_str2_dbl r atof cs ≢ Scanned.overrun) × (deg_str2_dbl r atof cs ≢ Scanned.overrun)
unfolding hour_str2_dbl
str2_dbl-bounds r atof [] h = (λ e. cc, Within-overrun _ _ (deg_str2_dbl-Within r atof [] h))
str2_dbl-bounds r atof (c ∷ cs) h = (
  Within-overrun _ _ (scan_all-Within r atof hour_digits (c ∷ cs) h),
  Within-overrun _ _ (deg_str2_dbl-Within r atof (c ∷ cs) h),
)
