-- ===== src/TimeSpace/LeapRange.antt =====
-- Where DeltaAT of airs/src/ATimeSpace.cpp reads inside its tables.
use airs.Base.{
  ℕ, suc, ◌+◌, ◌-◌, ◌*◌, ◌≢◌, ◌≡◌, ◌↔◌, refl, ap, List, [], ◌∷◌, Bool, true, false, ◌&&◌, All-map,
  Option, none, some, get_elem?, All, Option-cases, Bool-cases, inl, inr, arith,
}
use airs.Badmark.Ids.{both_true}
use airs.Base.Int.{ℤ, pos, leb_ℤ}
use airs.TimeSpace.Formulas.{Real}
use airs.TimeSpace.Leap.{find_change, month_number, changes, delta_at, drifted, drift, from_change}
use Prim.Native.String.{String}

-- The month of an entry, and whether none of the entries is from an earlier month.
abbrev month_of : ℕ × (ℕ × String) → ℤ
month_of (y, (k, d)) = pos (12 * y + k)

find_change-none :
    (m : ℤ) (es : List (ℕ × (ℕ × String)))
    → All (λ e. leb_ℤ (month_of e) m ≡ false) es
    → find_change m es ≡ (0, none)
unfolding find_change
find_change-none m [] a = refl
find_change-none m ((y, (k, d)) ∷ es) (h, a) = rw (find_change-none m es a, h) refl

all_true : {A : Type 0} → (A → Bool) → List A → Bool
all_true p [] = true
all_true p (a ∷ xs) = p a && all_true p xs

all_true-All :
    {A : Type 0} (p : A → Bool) (xs : List A) → all_true p xs ≡ true → All (λ a. p a ≡ true) xs
unfolding all_true
all_true-All p [] h = tt
all_true-All p (a ∷ xs) h =
    let (now, later) = both_true (p a) (all_true p xs) h in (now, all_true-All p xs later)

-- January 1960, in months.
abbrev pub first_month : ℤ
first_month = pos 23521

changes-from : all_true (λ e. leb_ℤ first_month (month_of e)) changes ≡ true
unfolding all_true
changes-from = refl

later_lem :
    (e : ℤ) (m : ℤ) → leb_ℤ first_month m ≡ false → leb_ℤ first_month e ≡ true → leb_ℤ e m ≡ false
later_lem e m h k = ground arith

find_change_early : (m : ℤ) → leb_ℤ first_month m ≡ false → find_change m changes ≡ (0, none)
find_change_early m h = find_change-none m changes (
    All-map changes (λ e k. later_lem (month_of e) m h k)
      (all_true-All (λ e. leb_ℤ first_month (month_of e)) changes changes-from))

-- With an entry that is not later than the month, the search finds one.
find_change-some :
    (m : ℤ) (y k : ℕ) (d : String) (es : List (ℕ × (ℕ × String)))
    → leb_ℤ (pos (12 * y + k)) m ≡ true
    → (n : ℕ) × (e : String) × (find_change m ((y, (k, d)) ∷ es) ≡ (n, some e))
unfolding find_change
find_change-some m y k d es h = elim (Option-cases (find_change m es).1) [
  | inl nothing ↦ (1, d, rw (nothing, h) refl)
  | inr (e, later) ↦ (suc (find_change m es).0, e, rw later refl)
]

found_lem : {A : Type 0} {o : Option A} {a : A} → o ≡ some a → o ≢ none
found_lem h e = cc

delta_at_at :
    (r : Real) (iy im id : ℤ) (fd : r.Double) (n : ℕ) (d : String)
    → find_change (month_number iy im) changes ≡ (n, some d)
    → (x : r.Double) × (delta_at r iy im id fd ≡ some x)
unfolding delta_at from_change
delta_at_at r iy im id fd n d h =
    (drifted r iy im id fd (r.lit d) (get_elem? drift (n - 1)), ap (from_change r iy im id fd) h)

delta_at_missing :
    (r : Real) (iy im id : ℤ) (fd : r.Double)
    → find_change (month_number iy im) changes ≡ (0, none)
    → delta_at r iy im id fd ≡ none
unfolding delta_at from_change
delta_at_missing r iy im id fd h = ap (from_change r iy im id fd) h

-- For any year and month, DeltaAT reads outside its table of leap seconds exactly if the number
-- of the month, as the int of 32 bits that the code computes, is before that of January 1960.
pub delta_at-none :
    (r : Real) (iy im id : ℤ) (fd : r.Double)
    → (delta_at r iy im id fd ≡ none) ↔ (leb_ℤ first_month (month_number iy im) ≡ false)
delta_at-none r iy im id fd = (
  λ missing. elim (Bool-cases (leb_ℤ first_month (month_number iy im))) [
    | inl inside ↦
        let (n, d, h) = find_change-some (month_number iy im) 1960 1 "1.4178180" _ inside in
        let (x, found) = delta_at_at r iy im id fd n d h in absurd (found_lem found missing)
    | inr before ↦ before
  ],
  λ before. delta_at_missing r iy im id fd (find_change_early (month_number iy im) before),
)
