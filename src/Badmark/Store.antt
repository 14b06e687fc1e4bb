-- ===== src/Badmark/Store.antt =====
-- LoadBadmark and SaveBadmark of airs/src/Parameter.h. The property tree and the XML file of Boost are
-- a parameter.
use airs.Base.{
  ℕ, zero, suc, ◌≡◌, List, [], ◌∷◌, ◌++◌, Bool, true, false, ◌==◌, ◌||◌, not, if◌then◌else◌, length,
  Option, none, some, map,
}
use airs.Base.Int.{ℤ, pos, pos_part}
use airs.Base.Text.{Text, codes, is_empty, same_letters}
use airs.Badmark.Marks.{Camera, Parameter, Pixel, add, near_column, near_pixel}

-- The paths below an element: its attributes `gid`, `uid`, `cid` and `count`, and the attributes
-- `row` and `column` of its child No#i.
pub data Key : Type 0 where
  gid uid cid count : Key
  row column : ℕ → Key

abbrev pub key_eq : Key → Key → Bool
key_eq Key.gid Key.gid = true
key_eq Key.uid Key.uid = true
key_eq Key.cid Key.cid = true
key_eq Key.count Key.count = true
key_eq (Key.row i) (Key.row j) = i == j
key_eq (Key.column i) (Key.column j) = i == j
key_eq _ _ = false

-- An element of a property tree: `add` at a path, and `get` with a default.
pub record PropertyTree : Type 1 where
  pub Element : Type 0
  pub element : Element
  pub has : Key → Element → Bool
  pub add_text : Key → Text → Element → Element
  pub add_int : Key → ℤ → Element → Element
  pub get_text : Key → Text → Element → Text
  pub get_int : Key → ℤ → Element → ℤ

-- A path that has been added once is read back, and adding at another path changes nothing there.
pub record TreeLaws (pt : PropertyTree) : Type 0 where
  pub has-element : (k : Key) → pt.has k pt.element ≡ false
  pub has-add_text :
      (k l : Key) (v : Text) (e : pt.Element)
      → pt.has k (pt.add_text l v e) ≡ (key_eq k l || pt.has k e)
  pub has-add_int :
      (k l : Key) (v : ℤ) (e : pt.Element)
      → pt.has k (pt.add_int l v e) ≡ (key_eq k l || pt.has k e)
  pub get_text-add_text :
      (k : Key) (v d : Text) (e : pt.Element)
      → pt.has k e ≡ false
      → pt.get_text k d (pt.add_text k v e) ≡ v
  pub get_int-add_int :
      (k : Key) (v d : ℤ) (e : pt.Element)
      → pt.has k e ≡ false
      → pt.get_int k d (pt.add_int k v e) ≡ v
  pub get_text-add_text_others :
      (k l : Key) (v d : Text) (e : pt.Element)
      → key_eq k l ≡ false
      → pt.get_text k d (pt.add_text l v e) ≡ pt.get_text k d e
  pub get_text-add_int :
      (k l : Key) (v : ℤ) (d : Text) (e : pt.Element)
      → key_eq k l ≡ false
      → pt.get_text k d (pt.add_int l v e) ≡ pt.get_text k d e
  pub get_int-add_int_others :
      (k l : Key) (v d : ℤ) (e : pt.Element)
      → key_eq k l ≡ false
      → pt.get_int k d (pt.add_int l v e) ≡ pt.get_int k d e
  pub get_int-add_text :
      (k l : Key) (v : Text) (d : ℤ) (e : pt.Element)
      → key_eq k l ≡ false
      → pt.get_int k d (pt.add_text l v e) ≡ pt.get_int k d e

module _ (pt : PropertyTree) where
  -- One mark as SaveBadmark writes it and as LoadBadmark reads it.
  unfoldable pub put_column : ℕ → ℤ → pt.Element → pt.Element
  put_column i c e = pt.add_int (Key.column i) c e

  unfoldable pub put_pixel : ℕ → Pixel → pt.Element → pt.Element
  put_pixel i p e = pt.add_int (Key.column i) p.col (pt.add_int (Key.row i) p.row e)

  unfoldable pub read_column : ℕ → pt.Element → ℤ
  read_column i e = pt.get_int (Key.column i) (pos 0) e

  unfoldable pub read_pixel : ℕ → pt.Element → Pixel
  read_pixel i e = record {
    row = pt.get_int (Key.row i) (pos 0) e;
    col = pt.get_int (Key.column i) (pos 0) e;
  }

  module _ {A : Type 0} where
    -- The loop of SaveBadmark over the marks of a camera, from number i on.
    unfoldable pub put_marks :
        (ℕ → A → pt.Element → pt.Element) → ℕ → List A → pt.Element → pt.Element
    put_marks put i [] e = e
    put_marks put i (a ∷ later) e = put_marks put (suc i) later (put i a e)

    unfoldable pub put_head : Camera A → pt.Element
    put_head x = pt.add_int Key.count (pos (length x.marks)) (
        pt.add_text Key.cid x.cid
          (pt.add_text Key.uid x.uid (pt.add_text Key.gid x.gid pt.element)))

    unfoldable pub put_camera : (ℕ → A → pt.Element → pt.Element) → Camera A → pt.Element
    unfolding put_marks put_head
    put_camera put x = put_marks put 1 x.marks (put_head x)

    -- The loop of LoadBadmark, with `n` marks to come.
    unfoldable pub read_marks :
        (A → A → Bool) → (ℕ → pt.Element → A) → ℕ → ℕ → pt.Element → Camera A → Camera A
    unfolding add
    read_marks near get zero i e x = x
    read_marks near get (suc n) i e x = read_marks near get n (suc i) e (add near x (get i e))

    unfoldable pub read_head : pt.Element → Camera A
    read_head e = record {
      gid = pt.get_text Key.gid [] e;
      uid = pt.get_text Key.uid [] e;
      cid = pt.get_text Key.cid [] e;
      count = pt.get_int Key.count (pos 0) e;
      marks = [];
    }

    unfoldable pub read_camera : (A → A → Bool) → (ℕ → pt.Element → A) → pt.Element → Camera A
    unfolding read_marks read_head
    read_camera near get e =
        read_marks near get (pos_part (pt.get_int Key.count (pos 0) e)) 1 e (read_head e)

  -- The elements of the file with their names.
  abbrev pub Root : Type 0
  Root = List (Text × pt.Element)

  unfoldable pub read_child : Text × pt.Element → Parameter → Parameter
  unfolding read_camera read_column read_pixel
  read_child (name, e) par =
      if same_letters name (codes "BadColumn")
      then record par { badcol_set = par.badcol_set ++ read_camera near_column read_column e ∷ [] }
      else if same_letters name (codes "BadPixel")
      then record par { badpix_set = par.badpix_set ++ read_camera near_pixel read_pixel e ∷ [] }
      else par

  unfoldable pub read_root : Root → Parameter → Parameter
  unfolding read_child
  read_root [] par = par
  read_root (r ∷ rs) par = read_root rs (read_child r par)

  -- LoadBadmark, with what read_xml finds, or none for its exception.
  unfoldable pub load_badmark : Option Root → Parameter → Bool × Parameter
  unfolding read_root
  load_badmark file par =
      if is_empty par.path_badmark
      then (false, par)
      else elim file [ none ↦ (false, par) | some root ↦ (true, read_root root par) ]

  unfoldable pub cameras_root : Parameter → Root
  unfolding put_camera put_column put_pixel
  cameras_root par =
      map (λ x. (codes "BadColumn", put_camera put_column x)) par.badcol_set
      ++ map (λ x. (codes "BadPixel", put_camera put_pixel x)) par.badpix_set

  -- SaveBadmark: its result, and what it gives to write_xml. `date` is the element of the date, and
  -- `written` says whether write_xml comes back without an exception.
  unfoldable pub save_badmark : pt.Element → Bool → Parameter → Bool × Option Root
  unfolding cameras_root
  save_badmark date written par =
      if not par.dirty || is_empty par.path_badmark
      then (true, none)
      else (written, some ((codes "date", date) ∷ cameras_root par))
