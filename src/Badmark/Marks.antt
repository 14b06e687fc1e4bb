-- ===== src/Badmark/Marks.antt =====
-- CameraBadcol, CameraBadpix and the sets of them in Parameter of airs/src/Parameter.h. The two
-- structs repeat each other; here they are one record, with the columns or the pixels as `marks`.
use airs.Base.{
  ℕ, suc, List, [], ◌∷◌, ◌++◌, Bool, true, false, ◌&&◌, ◌||◌, Option, none, some, leb,
  if◌then◌else◌,
}
use airs.Base.Int.{ℤ, pos, negsuc, ◌-ℤ◌}
use airs.Base.Text.{Text}
use airs.Daemon.Receive.{same_text}

pub record Camera (A : Type 0) : Type 0 where
  pub gid : Text
  pub uid : Text
  pub cid : Text
  pub count : ℤ
  pub marks : List A

pub record Pixel : Type 0 where
  pub row : ℤ
  pub col : ℤ

abbrev pub abs : ℤ → ℕ
abs (pos n) = n
abs (negsuc n) = suc n

unfoldable pub near_column : ℤ → ℤ → Bool
unfolding ◌-ℤ◌
near_column x c = leb (abs (x -ℤ c)) 2

unfoldable pub near_pixel : Pixel → Pixel → Bool
unfolding ◌-ℤ◌
near_pixel x p = leb (abs (x.col -ℤ p.col)) 1 && leb (abs (x.row -ℤ p.row)) 1

unfoldable pub is_camera : {A : Type 0} → Text → Text → Text → Camera A → Bool
unfolding same_text
is_camera g u c x = same_text x.gid g && (same_text x.uid u && same_text x.cid c)

module _ {A : Type 0} where
  -- GetBadcol and GetBadpix: the first camera with the ids.
  unfoldable pub get_bad : Text → Text → Text → List (Camera A) → Option (Camera A)
  unfolding is_camera
  get_bad g u c [] = none
  get_bad g u c (x ∷ xs) = let rest = get_bad g u c xs in if is_camera g u c x then some x else rest

  -- A write through the pointer that they return.
  unfoldable pub write_bad :
      Text → Text → Text → (Camera A → Camera A) → List (Camera A) → List (Camera A)
  unfolding is_camera
  write_bad g u c f [] = []
  write_bad g u c f (x ∷ xs) =
      let rest = write_bad g u c f xs in if is_camera g u c x then f x ∷ xs else x ∷ rest

  unfoldable pub new_camera : Text → Text → Text → Camera A
  new_camera g u c = record { gid = g; uid = u; cid = c; count = pos 0; marks = [] }

module _ {A : Type 0} (near : A → A → Bool) where
  unfoldable pub test : List A → A → Bool
  test [] c = false
  test (x ∷ xs) c = near x c || test xs c

  unfoldable pub add_mark : List A → A → List A
  unfolding test
  add_mark xs c = if test xs c then xs else xs ++ c ∷ []

  unfoldable pub add : Camera A → A → Camera A
  unfolding add_mark
  add x c = record x { marks = add_mark x.marks c }

  -- AddBadcol and AddBadpix. For a camera that is not there a copy is pushed, and the mark goes into
  -- the local variable, which is gone at the end.
  unfoldable pub add_bad : Text → Text → Text → A → List (Camera A) → List (Camera A)
  unfolding get_bad write_bad new_camera add
  add_bad g u c a xs = elim (get_bad g u c xs) [
    | none ↦ xs ++ new_camera g u c ∷ []
    | some x ↦ write_bad g u c (λ y. add y a) xs
  ]

-- What Parameter keeps of the marks.
pub record Parameter : Type 0 where
  pub path_badmark : Text
  pub badcol_set : List (Camera ℤ)
  pub badpix_set : List (Camera Pixel)
  pub dirty : Bool

unfoldable pub get_badcol : Text → Text → Text → Parameter → Option (Camera ℤ)
unfolding get_bad
get_badcol g u c par = get_bad g u c par.badcol_set

unfoldable pub add_badcol : Text → Text → Text → ℤ → Parameter → Parameter
unfolding add_bad
add_badcol g u c col par = record par {
  badcol_set = add_bad near_column g u c col par.badcol_set;
  dirty = true;
}

unfoldable pub get_badpix : Text → Text → Text → Parameter → Option (Camera Pixel)
unfolding get_bad
get_badpix g u c par = get_bad g u c par.badpix_set

unfoldable pub add_badpix : Text → Text → Text → Pixel → Parameter → Parameter
unfolding add_bad
add_badpix g u c p par = record par {
  badpix_set = add_bad near_pixel g u c p par.badpix_set;
  dirty = true;
}
