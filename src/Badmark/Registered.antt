-- ===== src/Badmark/Registered.antt =====
-- A mark that AddBadcol or AddBadpix of airs/src/Parameter.h adds is found by test, for a camera that
-- is in the set; for a camera that is not, it is lost.
use airs.Base.{
  ◌≡◌, refl, ◌∙◌, sym, ap, List, [], ◌∷◌, ◌++◌, Bool, true, false, ◌||◌, ◌&&◌, not, Bool-cases, inl,
  inr, none, some, arith, Option-cases,
}
use airs.Base.Int.{ℤ, ◌-ℤ◌}
use mathlib.Core.Option
use airs.Base.Text.{Text}
use airs.Badmark.Marks.{
  Camera, Parameter, near_column, test, add_mark, add, get_bad, write_bad, new_camera, add_bad,
  is_camera, get_badcol, add_badcol,
}
use airs.Badmark.Ids.{
  get_bad-write_bad, get_bad-write_bad_others, new_camera-is_camera, new_camera_others, none-some,
}

pub near_column_self : (c : ℤ) → near_column c c ≡ true
unfolding near_column ◌-ℤ◌
near_column_self c = ground arith

module _ {A : Type 0} (near : A → A → Bool) where
  test-snoc : (xs : List A) (a c : A) → test near (xs ++ a ∷ []) c ≡ (test near xs c || near a c)
  unfolding test
  test-snoc [] a c = ground arith
  test-snoc (x ∷ xs) a c = rw (test-snoc xs a c) (ground arith)

  -- The added mark is found, and so is what was found before.
  pub test-add_mark :
      (xs : List A) (a : A) → near a a ≡ true → test near (add_mark near xs a) a ≡ true
  unfolding add_mark
  test-add_mark xs a r = elim (Bool-cases (test near xs a)) [
    | inl old ↦ rw old old
    | inr new ↦ rw (new, test-snoc xs a a, new, r) refl
  ]

  pub test-add_mark_others :
      (xs : List A) (a c : A)
      → test near (add_mark near xs a) c ≡ (test near xs c || (near a c && not (test near xs a)))
  unfolding add_mark
  test-add_mark_others xs a c = elim (Bool-cases (test near xs a)) [
    | inl old ↦ rw old (ground arith)
    | inr new ↦ rw (new, test-snoc xs a c) (ground arith)
  ]

  add-is_camera :
      (g u c : Text) (a : A) (y : Camera A) → is_camera g u c (add near y a) ≡ is_camera g u c y
  unfolding add is_camera
  add-is_camera g u c a y = refl

  add_bad-old :
      (g u c : Text) (a : A) (x : Camera A) (xs : List (Camera A))
      → get_bad g u c xs ≡ some x
      → add_bad near g u c a xs ≡ write_bad g u c (λ y. add near y a) xs
  unfolding add_bad write_bad
  add_bad-old g u c a x xs h = rw (add_bad, h) refl

  add_bad-new :
      (g u c : Text) (a : A) (xs : List (Camera A))
      → get_bad g u c xs ≡ none
      → add_bad near g u c a xs ≡ xs ++ new_camera g u c ∷ []
  unfolding add_bad new_camera
  add_bad-new g u c a xs h = rw (add_bad, h) refl

  pub get_bad-add_bad :
      (g u c : Text) (a : A) (x : Camera A) (xs : List (Camera A))
      → get_bad g u c xs ≡ some x
      → get_bad g u c (add_bad near g u c a xs) ≡ some (add near x a)
  get_bad-add_bad g u c a x xs h =
      ap (get_bad g u c) (add_bad-old g u c a x xs h)
      ∙ get_bad-write_bad g u c (λ y. add near y a) xs (add-is_camera g u c a)
      ∙ ap (Option.map (λ y. add near y a)) h

  get_bad-hit :
      (g u c : Text) (y : Camera A) (xs : List (Camera A))
      → is_camera g u c y ≡ true
      → get_bad g u c (y ∷ xs) ≡ some y
  unfolding get_bad
  get_bad-hit g u c y xs h = rw h refl

  get_bad-miss :
      (g u c : Text) (y : Camera A) (xs : List (Camera A))
      → is_camera g u c y ≡ false
      → get_bad g u c (y ∷ xs) ≡ get_bad g u c xs
  unfolding get_bad
  get_bad-miss g u c y xs h = rw h refl

  get_bad-snoc :
      (g u c : Text) (xs ys : List (Camera A))
      → get_bad g u c xs ≡ none
      → get_bad g u c (xs ++ ys) ≡ get_bad g u c ys
  get_bad-snoc g u c [] ys h = refl
  get_bad-snoc g u c (y ∷ xs) ys h = elim (Bool-cases (is_camera g u c y)) [
    | inl here ↦ absurd (none-some y _ h (get_bad-hit g u c y xs here))
    | inr there ↦
        get_bad-miss g u c y (xs ++ ys) there
        ∙ get_bad-snoc g u c xs ys (sym (get_bad-miss g u c y xs there) ∙ h)
  ]

  pub get_bad-add_bad_new :
      (g u c : Text) (a : A) (xs : List (Camera A))
      → get_bad g u c xs ≡ none
      → get_bad g u c (add_bad near g u c a xs) ≡ some (new_camera g u c)
  get_bad-add_bad_new g u c a xs h =
      ap (get_bad g u c) (add_bad-new g u c a xs h)
      ∙ get_bad-snoc g u c xs _ h
      ∙ get_bad-hit g u c (new_camera g u c) [] (new_camera-is_camera A g u c)

  get_bad_others-snoc :
      (g u c : Text) (x : Camera A) (xs : List (Camera A))
      → is_camera g u c x ≡ false
      → get_bad g u c (xs ++ x ∷ []) ≡ get_bad g u c xs
  unfolding get_bad
  get_bad_others-snoc g u c x [] h = rw h refl
  get_bad_others-snoc g u c x (y ∷ xs) h = rw (get_bad_others-snoc g u c x xs h) refl

  pub get_bad_others-add_bad :
      (g u c g' u' c' : Text) (a : A) (xs : List (Camera A))
      → ¬ ((g ≡ g') × ((u ≡ u') × (c ≡ c')))
      → get_bad g' u' c' (add_bad near g u c a xs) ≡ get_bad g' u' c' xs
  get_bad_others-add_bad g u c g' u' c' a xs n = elim (Option-cases (get_bad g u c xs)) [
    | inl new ↦
        ap (get_bad g' u' c') (add_bad-new g u c a xs new)
        ∙ get_bad_others-snoc g' u' c' _ xs (new_camera_others A g u c g' u' c' n)
    | inr (x, old) ↦
        ap (get_bad g' u' c') (add_bad-old g u c a x xs old)
        ∙ get_bad-write_bad_others g u c g' u' c' _ xs (add-is_camera g' u' c' a) n
  ]

-- If a camera is in the set of bad columns, then after AddBadcol the column is a bad one of it,
-- and any other column is a bad one if it was before, or if it is near the new one and the new
-- one was not bad already.
pub test-add_badcol :
    (g u c : Text) (col other : ℤ) (par : Parameter) (x : Camera ℤ)
    → get_badcol g u c par ≡ some x
    → (y : Camera ℤ) × (get_badcol g u c (add_badcol g u c col par) ≡ some y)
      × (test near_column y.marks col ≡ true)
      × (test near_column y.marks other ≡ (
          test near_column x.marks other
          || (near_column col other && not (test near_column x.marks col))))
unfolding get_badcol add_badcol add
test-add_badcol g u c col other par x h = (
  add near_column x col,
  get_bad-add_bad near_column g u c col x par.badcol_set h,
  test-add_mark near_column x.marks col (near_column_self col),
  test-add_mark_others near_column x.marks col other,
)

pub get_badcol-add_badcol_others :
    (g u c g' u' c' : Text) (col : ℤ) (par : Parameter)
    → ¬ ((g ≡ g') × ((u ≡ u') × (c ≡ c')))
    → get_badcol g' u' c' (add_badcol g u c col par) ≡ get_badcol g' u' c' par
unfolding get_badcol add_badcol
get_badcol-add_badcol_others g u c g' u' c' col par n =
    get_bad_others-add_bad near_column g u c g' u' c' col par.badcol_set n

pub test-add_badcol_lost :
    (g u c : Text) (col : ℤ) (par : Parameter)
    → get_badcol g u c par ≡ none
    → (y : Camera ℤ) × (get_badcol g u c (add_badcol g u c col par) ≡ some y)
      × ((other : ℤ) → test near_column y.marks other ≡ false)
unfolding get_badcol add_badcol test new_camera
test-add_badcol_lost g u c col par h =
    (new_camera g u c, get_bad-add_bad_new near_column g u c col par.badcol_set h, λ other. refl)
