-- ===== src/Badmark/Clean.antt =====
-- Parameter of airs/src/Parameter.h never holds two marks of one camera that are near each other.
use airs.Base.{ℕ, zero, suc, [], ◌∷◌, Bool, Bool-cases, inl, inr, All-append, Option, none, some}
use airs.Base.Int.{ℤ, pos, pos_part}
use airs.Base.Text.{Text, codes, is_empty, same_letters}
use airs.Badmark.Marks.{
  Camera, Parameter, Pixel, add, near_column, near_pixel, add_badcol, add_badpix,
}
use airs.Badmark.Spread.{Spread, AllSpread, add_mark-Spread, add_bad-AllSpread}
use airs.Badmark.Store.{
  Key, PropertyTree, read_marks, read_head, read_camera, read_child, read_root, load_badmark, Root,
  read_column, read_pixel,
}

pub record IsClean (par : Parameter) : Type 0 where
  pub columns : AllSpread near_column par.badcol_set
  pub pixels : AllSpread near_pixel par.badpix_set

-- What changes the marks.
pub data Change (pt : PropertyTree) : Parameter → Parameter → Type 0 where
  bad_column : (g u c : Text) (col : ℤ) (par : Parameter) → Change pt par (add_badcol g u c col par)
  bad_pixel : (g u c : Text) (p : Pixel) (par : Parameter) → Change pt par (add_badpix g u c p par)
  load : (file : Option (Root pt)) (par : Parameter) → Change pt par (load_badmark pt file par).1

pub data Changes (pt : PropertyTree) : Parameter → Parameter → Type 0 where
  stop : (par : Parameter) → Changes pt par par
  then : {a b c : Parameter} → Change pt a b → Changes pt b c → Changes pt a c

module _ (pt : PropertyTree) where
  read_marks-Spread :
      {A : Type 0} (near : A → A → Bool) (get : ℕ → pt.Element → A) (n i : ℕ) (e : pt.Element)
      (x : Camera A)
      → Spread near x.marks
      → Spread near (read_marks pt near get n i e x).marks
  unfolding read_marks add
  read_marks-Spread near get zero i e x s = s
  read_marks-Spread near get (suc n) i e x s =
      read_marks-Spread near get n (suc i) e (add near x (get i e))
        (add_mark-Spread near x.marks (get i e) s)

  read_camera-Spread :
      {A : Type 0} (near : A → A → Bool) (get : ℕ → pt.Element → A) (e : pt.Element)
      → Spread near (read_camera pt near get e).marks
  unfolding read_camera read_head
  read_camera-Spread near get e =
      read_marks-Spread near get (pos_part (pt.get_int Key.count (pos 0) e)) 1 e (read_head pt e) tt

  read_child-IsClean :
      (name : Text) (e : pt.Element) (par : Parameter)
      → IsClean par
      → IsClean (read_child pt (name, e) par)
  unfolding read_child
  read_child-IsClean name e par s = elim (Bool-cases (same_letters name (codes "BadColumn"))) [
    | inl column ↦ rw column record {
      columns =
          All-append par.badcol_set _ _ (read_camera-Spread near_column (read_column pt) e, tt)
            s.columns;
      pixels = s.pixels;
    }
    | inr other ↦ elim (Bool-cases (same_letters name (codes "BadPixel"))) [
      | inl pixel ↦
          rw (other, pixel)
            record {
              columns = s.columns;
              pixels =
                  All-append par.badpix_set _ _
                    (read_camera-Spread near_pixel (read_pixel pt) e, tt) s.pixels;
            }
      | inr unknown ↦ rw (other, unknown) s
    ]
  ]

  read_root-IsClean :
      (root : Root pt) (par : Parameter) → IsClean par → IsClean (read_root pt root par)
  unfolding read_root
  read_root-IsClean [] par s = s
  read_root-IsClean ((name, e) ∷ root) par s =
      read_root-IsClean root (read_child pt (name, e) par) (read_child-IsClean name e par s)

  load_badmark-IsClean :
      (file : Option (Root pt)) (par : Parameter)
      → IsClean par
      → IsClean (load_badmark pt file par).1
  unfolding load_badmark
  load_badmark-IsClean none par s = elim (Bool-cases (is_empty par.path_badmark)) [
    | inl h ↦ rw h s
    | inr h ↦ rw h s
  ]
  load_badmark-IsClean (some root) par s = elim (Bool-cases (is_empty par.path_badmark)) [
    | inl h ↦ rw h s
    | inr h ↦ rw h (read_root-IsClean root par s)
  ]

  Change-IsClean : {a b : Parameter} → Change pt a b → IsClean a → IsClean b
  unfolding add_badcol add_badpix
  Change-IsClean (Change.bad_column g u c col par) s = record {
    columns = add_bad-AllSpread near_column g u c col par.badcol_set s.columns;
    pixels = s.pixels;
  }
  Change-IsClean (Change.bad_pixel g u c p par) s = record {
    columns = s.columns;
    pixels = add_bad-AllSpread near_pixel g u c p par.badpix_set s.pixels;
  }
  Change-IsClean (Change.load file par) s = load_badmark-IsClean file par s

  -- If no two marks of a camera are near each other, two columns or less for columns and one
  -- pixel or less in both directions for pixels, then this holds after any sequence of AddBadcol,
  -- AddBadpix and LoadBadmark, whatever the file contains.
  pub Changes-IsClean : {a b : Parameter} → Changes pt a b → IsClean a → IsClean b
  Changes-IsClean (Changes.stop par) s = s
  Changes-IsClean (Changes.then c cs) s = Changes-IsClean cs (Change-IsClean c s)
