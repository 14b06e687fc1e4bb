-- ===== src/Badmark/Spread.antt =====
-- No two marks of a camera are near each other: add of CameraBadcol and CameraBadpix in
-- airs/src/Parameter.h keeps it so.
use airs.Base.{
  ◌≡◌, refl, List, [], ◌∷◌, ◌++◌, Bool, true, false, ◌||◌, Bool-cases, Option-cases, inl, inr, All,
  All-append,
}
use airs.Base.Text.{Text}
use airs.Badmark.Marks.{
  Camera, test, add_mark, add, get_bad, write_bad, new_camera, add_bad, is_camera,
}

pub either_false : (a b : Bool) → (a || b) ≡ false → (a ≡ false) × (b ≡ false)
either_false true b h = cc
either_false false b h = (refl, h)

module _ {A : Type 0} (near : A → A → Bool) where
  abbrev pub Spread : List A → Type 0
  Spread [] = Unit
  Spread (x ∷ xs) = All (λ y. near x y ≡ false) xs × Spread xs

  Spread-snoc : (xs : List A) (c : A) → Spread xs → test near xs c ≡ false → Spread (xs ++ c ∷ [])
  unfolding test
  Spread-snoc [] c s h = (tt, tt)
  Spread-snoc (x ∷ xs) c (far, s) h =
      let (here, there) = either_false (near x c) (test near xs c) h in
      (All-append xs (c ∷ []) _ (here, tt) far, Spread-snoc xs c s there)

  pub add_mark-Spread : (xs : List A) (c : A) → Spread xs → Spread (add_mark near xs c)
  unfolding add_mark
  add_mark-Spread xs c s = elim (Bool-cases (test near xs c)) [
    | inl old ↦ rw old s
    | inr new ↦ rw new (Spread-snoc xs c s new)
  ]

  -- The marks of every camera of a set.
  abbrev pub AllSpread : List (Camera A) → Type 0
  AllSpread xs = All (λ x. Spread x.marks) xs

  write_bad-AllSpread :
      (g u c : Text) (a : A) (xs : List (Camera A))
      → AllSpread xs
      → AllSpread (write_bad g u c (λ y. add near y a) xs)
  unfolding write_bad add
  write_bad-AllSpread g u c a [] s = s
  write_bad-AllSpread g u c a (x ∷ xs) (s, ss) = elim (Bool-cases (is_camera g u c x)) [
    | inl here ↦ rw here (add_mark-Spread x.marks a s, ss)
    | inr there ↦ rw there (s, write_bad-AllSpread g u c a xs ss)
  ]

  pub add_bad-AllSpread :
      (g u c : Text) (a : A) (xs : List (Camera A))
      → AllSpread xs
      → AllSpread (add_bad near g u c a xs)
  unfolding add_bad new_camera
  add_bad-AllSpread g u c a xs s = elim (Option-cases (get_bad g u c xs)) [
    | inl new ↦ rw (add_bad, new) (All-append xs (new_camera g u c ∷ []) _ (tt, tt) s)
    | inr (x, old) ↦ rw (add_bad, old) (write_bad-AllSpread g u c a xs s)
  ]
