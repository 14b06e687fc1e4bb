-- ===== src/Badmark/RoundTrip.antt =====
-- The whole file of bad marks: SaveBadmark and then LoadBadmark of airs/src/Parameter.h.
use airs.Base.{
  ℕ, ◌≡◌, refl, ◌∙◌, sym, ap, List, [], ◌∷◌, ◌++◌, Bool, true, false, ◌==◌, arith, some, map,
  append_assoc, append-nil,
}
use airs.Base.Int.{ℤ, pos}
use airs.Base.Text.{codes, is_empty}
use airs.Badmark.Marks.{Camera, Parameter, Pixel, near_column, near_pixel}
use airs.Badmark.Spread.{AllSpread}
use airs.Badmark.Store.{
  Key, PropertyTree, TreeLaws, key_eq, put_column, put_pixel, read_column, read_pixel, put_camera,
  read_child, read_root, load_badmark, cameras_root, save_badmark, Root,
}
use airs.Badmark.Reload.{
  MarkLaws, recounted, fresh_head, neq, column-MarkLaws, read_camera-put_camera,
}

-- Both parameters keep the same.
abbrev pub recounted_all : Parameter → Parameter → Parameter
recounted_all saved par = record par {
  badcol_set = par.badcol_set ++ map recounted saved.badcol_set;
  badpix_set = par.badpix_set ++ map recounted saved.badpix_set;
}

pixel_eq : (p q : Pixel) → p.row ≡ q.row → p.col ≡ q.col → p ≡ q
pixel_eq p q h k =
    ap (λ r. record { row = r; col = p.col }) h ∙ ap (λ c. record { row = q.row; col = c }) k

module _ (pt : PropertyTree) (tree : TreeLaws pt) where
  pixel-has :
      (i : ℕ) (p : Pixel) (k : Key) (e : pt.Element)
      → key_eq k (Key.column i) ≡ false
      → key_eq k (Key.row i) ≡ false
      → pt.has k e ≡ false
      → pt.has k (put_pixel pt i p e) ≡ false
  unfolding put_pixel
  pixel-has i p k e h l f =
      rw (tree.has-add_int k (Key.column i), tree.has-add_int k (Key.row i), h, l) f

  get_text-put_pixel :
      (k : Key) (i : ℕ) (p : Pixel) (e : pt.Element)
      → key_eq k (Key.column i) ≡ false
      → key_eq k (Key.row i) ≡ false
      → pt.get_text k [] (put_pixel pt i p e) ≡ pt.get_text k [] e
  unfolding put_pixel
  get_text-put_pixel k i p e h l =
      tree.get_text-add_int _ _ _ _ _ h ∙ tree.get_text-add_int _ _ _ _ _ l

  get_int-put_pixel :
      (k : Key) (i : ℕ) (p : Pixel) (e : pt.Element)
      → key_eq k (Key.column i) ≡ false
      → key_eq k (Key.row i) ≡ false
      → pt.get_int k (pos 0) (put_pixel pt i p e) ≡ pt.get_int k (pos 0) e
  unfolding put_pixel
  get_int-put_pixel k i p e h l =
      tree.get_int-add_int_others _ _ _ _ _ h ∙ tree.get_int-add_int_others _ _ _ _ _ l

  read_pixel-put_pixel :
      (i : ℕ) (p : Pixel) (e : pt.Element)
      → pt.has (Key.column i) e ≡ false
      → pt.has (Key.row i) e ≡ false
      → read_pixel pt i (put_pixel pt i p e) ≡ p
  unfolding read_pixel put_pixel
  read_pixel-put_pixel i p e h l =
      pixel_eq _ p (tree.get_int-add_int_others _ _ _ _ _ refl ∙ tree.get_int-add_int _ _ _ _ l)
        (tree.get_int-add_int _ _ _ _ (tree.has-add_int _ _ _ _ ∙ h))

  read_pixel-put_pixel_others :
      (i j : ℕ) (p : Pixel) (e : pt.Element)
      → (j == i) ≡ false
      → read_pixel pt j (put_pixel pt i p e) ≡ read_pixel pt j e
  unfolding read_pixel
  read_pixel-put_pixel_others i j p e h =
      pixel_eq _ _ (get_int-put_pixel (Key.row j) i p e refl h)
        (get_int-put_pixel (Key.column j) i p e h refl)

  pixel-MarkLaws : MarkLaws pt Pixel (put_pixel pt) (read_pixel pt)
  pixel-MarkLaws = record {
    IsFresh = λ i e. (pt.has (Key.column i) e ≡ false) × (pt.has (Key.row i) e ≡ false);
    fresh-head = λ x i. (
      fresh_head pt tree x (Key.column i) refl refl refl refl,
      fresh_head pt tree x (Key.row i) refl refl refl refl,
    );
    fresh-put = λ i j p e h f. (
      pixel-has i p (Key.column j) e (neq j i (omega arith)) refl f.0,
      pixel-has i p (Key.row j) e refl (neq j i (omega arith)) f.1,
    );
    get-put = λ i p e f. read_pixel-put_pixel i p e f.0 f.1;
    get-put_others = λ i j p e h. read_pixel-put_pixel_others i j p e (neq j i (omega arith));
    get_gid-put = λ i p e. get_text-put_pixel Key.gid i p e refl refl;
    get_uid-put = λ i p e. get_text-put_pixel Key.uid i p e refl refl;
    get_cid-put = λ i p e. get_text-put_pixel Key.cid i p e refl refl;
    get_count-put = λ i p e. get_int-put_pixel Key.count i p e refl refl;
  }

  read_root-append :
      (r s : Root pt) (par : Parameter)
      → read_root pt (r ++ s) par ≡ read_root pt s (read_root pt r par)
  unfolding read_root
  read_root-append [] s par = refl
  read_root-append (x ∷ r) s par = read_root-append r s (read_child pt x par)

  read_columns :
      (xs : List (Camera ℤ)) (par : Parameter)
      → AllSpread near_column xs
      → read_root pt (map (λ x. (codes "BadColumn", put_camera pt (put_column pt) x)) xs) par
        ≡ record par { badcol_set = par.badcol_set ++ map recounted xs }
  unfolding read_root read_child
  read_columns [] par s =
      ap (λ xs. record par { badcol_set = xs }) (sym (append-nil par.badcol_set))
  read_columns (x ∷ xs) par (s, ss) =
      ap
        (λ y.
          read_root pt (map (λ x. (codes "BadColumn", put_camera pt (put_column pt) x)) xs)
            (record par { badcol_set = par.badcol_set ++ y ∷ [] }))
        (read_camera-put_camera pt near_column (put_column pt) (read_column pt)
          (column-MarkLaws pt tree) tree x s)
      ∙ read_columns xs (record par { badcol_set = par.badcol_set ++ recounted x ∷ [] }) ss
      ∙ ap (λ xs. record par { badcol_set = xs })
          (append_assoc par.badcol_set (recounted x ∷ []) (map recounted xs))

  read_pixels :
      (xs : List (Camera Pixel)) (par : Parameter)
      → AllSpread near_pixel xs
      → read_root pt (map (λ x. (codes "BadPixel", put_camera pt (put_pixel pt) x)) xs) par
        ≡ record par { badpix_set = par.badpix_set ++ map recounted xs }
  unfolding read_root read_child
  read_pixels [] par s = ap (λ xs. record par { badpix_set = xs }) (sym (append-nil par.badpix_set))
  read_pixels (x ∷ xs) par (s, ss) =
      ap
        (λ y.
          read_root pt (map (λ x. (codes "BadPixel", put_camera pt (put_pixel pt) x)) xs)
            (record par { badpix_set = par.badpix_set ++ y ∷ [] }))
        (read_camera-put_camera pt near_pixel (put_pixel pt) (read_pixel pt) pixel-MarkLaws tree x
          s)
      ∙ read_pixels xs (record par { badpix_set = par.badpix_set ++ recounted x ∷ [] }) ss
      ∙ ap (λ xs. record par { badpix_set = xs })
          (append_assoc par.badpix_set (recounted x ∷ []) (map recounted xs))

  read_cameras_root :
      (saved par : Parameter)
      → AllSpread near_column saved.badcol_set
      → AllSpread near_pixel saved.badpix_set
      → read_root pt (cameras_root pt saved) par ≡ recounted_all saved par
  unfolding cameras_root
  read_cameras_root saved par s t =
      read_root-append
        (map (λ x. (codes "BadColumn", put_camera pt (put_column pt) x)) saved.badcol_set) _ par
      ∙ ap (read_root pt _) (read_columns saved.badcol_set par s)
      ∙ read_pixels saved.badpix_set _ t

  save_badmark-dirty :
      (date : pt.Element) (written : Bool) (saved : Parameter)
      → saved.dirty ≡ true
      → is_empty saved.path_badmark ≡ false
      → save_badmark pt date written saved
        ≡ (written, some ((codes "date", date) ∷ cameras_root pt saved))
  unfolding save_badmark
  save_badmark-dirty date written saved d p = rw (save_badmark, d, p) refl

  load_badmark-some :
      (root : Root pt) (par : Parameter)
      → is_empty par.path_badmark ≡ false
      → load_badmark pt (some root) par ≡ (true, read_root pt root par)
  unfolding load_badmark
  load_badmark-some root par q = rw (load_badmark, q) refl

  read_date :
      (date : pt.Element) (root : Root pt) (par : Parameter)
      → read_root pt ((codes "date", date) ∷ root) par ≡ read_root pt root par
  unfolding read_root read_child
  read_date date root par = refl

  -- If the property tree obeys its laws, the marks have changed, both file paths are set and no
  -- two marks of a camera are near each other, then what SaveBadmark gives to the file puts all
  -- cameras with all their marks, in order, behind those that are there when LoadBadmark reads
  -- it, each with the number of its marks as its count.
  pub load_badmark-save_badmark :
      (date : pt.Element) (written : Bool) (saved par : Parameter)
      → saved.dirty ≡ true
      → is_empty saved.path_badmark ≡ false
      → is_empty par.path_badmark ≡ false
      → AllSpread near_column saved.badcol_set
      → AllSpread near_pixel saved.badpix_set
      → load_badmark pt (save_badmark pt date written saved).1 par ≡ (true, recounted_all saved par)
  load_badmark-save_badmark date written saved par d p q s t =
      ap (λ r. load_badmark pt r.1 par) (save_badmark-dirty date written saved d p)
      ∙ load_badmark-some _ par q
      ∙ ap (λ r. (true, r))
          (read_date date (cameras_root pt saved) par ∙ read_cameras_root saved par s t)
