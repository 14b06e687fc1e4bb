-- ===== src/Stars/Tests.antt =====
-- A search of ACatUCAC4 in a catalogue whose zones hold one star each.
use airs.Base.{
  ℕ, zero, suc, ◌<◌, ◌≡◌, inl, inr, refl, List, [], ◌∷◌, true, false, none, some, Option, subst,
  length, get_elem?, replicate, length-replicate, arith,
}
use airs.Base.Int.{pos, ◌+ℤ◌, ◌-ℤ◌}
use airs.Base.Faults.{Returns}
use airs.Doubles.Whole.{numbers, no_turns, divide, times, literal, whole_part}
use airs.Stars.Border.{new_seek, sides, is_refused, unwrap}
use airs.Stars.Item.{resolve_item, int_at, byte, signed_of}
use airs.Stars.Search.{
  Ucac4Asc, Files, ACatUcac4, Target, target, is_within, sphere_range, find_star, nasc, is_sized,
}
use airs.Stars.Zones.{AllSized}
use airs.Stars.Found.{Wanted}
use airs.Stars.Kept.{Complete, find_star-Complete}

abbrev entry : Ucac4Asc
entry = record { start = 0; number = 1 }

-- One line for each zone.
unfoldable lines : List Ucac4Asc
lines = replicate nasc entry

length-lines : length lines ≡ nasc
unfolding lines
length-lines = length-replicate nasc entry

-- The place is at 10 degrees, 89 degrees from the pole.
abbrev star : List ℕ
star = 0 ∷ 81 ∷ 37 ∷ 2 ∷ 128 ∷ 234 ∷ 24 ∷ 19 ∷ replicate 70 0

abbrev files : Files
files = record { index = some lines; zone = λ z. some star; fresh = 0 }

abbrev catalogue : ACatUcac4
catalogue = record { nstars = 0; max = 0; stars = none; result = []; asc = none }

abbrev near : Target numbers
near = target numbers (pos 10) (pos 0) (pos 60)

place : (resolve_item star).ra ≡ pos 36000000
unfolding resolve_item int_at byte signed_of
place = refl

height : (resolve_item star).spd ≡ pos 320400000
unfolding resolve_item int_at byte signed_of
height = refl

taken : is_refused numbers (pos 10) (pos 0) (pos 60) ≡ false
unfolding is_refused no_turns literal whole_part times divide
taken = refl

border :
    new_seek numbers (pos 10) (pos 0) (numbers.real.div (pos 60) (numbers.real.lit "60.0"))
    ≡ some (record {
      ramin = pos 0;
      ramax = pos 1295999999;
      spdmin = pos 320400000;
      spdmax = pos 327600000;
    })
unfolding new_seek sides unwrap no_turns literal whole_part times divide ◌+ℤ◌ ◌-ℤ◌
border = refl

inside : is_within numbers near star ≡ true
unfolding is_within sphere_range int_at byte signed_of no_turns literal whole_part times divide ◌+ℤ◌
    ◌-ℤ◌
inside = refl

no_entry : (e : Ucac4Asc) → Path (Option Ucac4Asc) none (some e) → ⊥
no_entry e h = cc h

same_entry : (n i : ℕ) (e : Ucac4Asc) → get_elem? (replicate n entry) i ≡ some e → entry ≡ e
same_entry zero i e h = absurd (no_entry e h)
same_entry (suc n) zero e h = cc h
same_entry (suc n) (suc i) e h = same_entry n i e h

lines-AllSized : AllSized lines
unfolding lines
lines-AllSized i e h = subst (λ x. is_sized x ≡ true) (same_entry nasc i e h) refl

find_star-Complete_example :
    Returns
      (Complete numbers files lines near (λ z. star) 0 1295999999 320400000 327600000)
      (find_star numbers files (pos 10) (pos 0) (pos 60) catalogue)
find_star-Complete_example =
    find_star-Complete numbers files lines (λ z. star) 0 1295999999 320400000 327600000 (pos 10)
      (pos 0) (pos 60) catalogue taken border length-lines lines-AllSized (λ z h. refl)
      (omega arith) (omega arith) (inr (refl, refl)) (λ k e. cc e)

get_elem?-replicate : (n i : ℕ) (a : Ucac4Asc) → i < n → get_elem? (replicate n a) i ≡ some a
get_elem?-replicate zero i a h = absurd (omega arith)
get_elem?-replicate (suc n) zero a h = refl
get_elem?-replicate (suc n) (suc i) a h = get_elem?-replicate n i a (omega arith)

indexed : get_elem? lines 640840 ≡ some entry
unfolding lines
indexed = get_elem?-replicate nasc 640840 entry (omega arith)

-- The star is one that the search has to find.
wanted :
    Wanted numbers files lines near (λ z. star) 0 1295999999 320400000 327600000 (resolve_item star)
wanted = record {
  ra = 36000000;
  spd = 320400000;
  ra_of = place;
  spd_of = height;
  on_circle = omega arith;
  along = inl (omega arith, omega arith);
  low = omega arith;
  high = omega arith;
  star = record {
    entry = entry;
    indexed = indexed;
    k = 0;
    counted = omega arith;
    whole = refl;
    within = inside;
    same = refl;
  };
}
