-- ===== src/Badmark/Tests.antt =====
-- A property tree, parameters with one camera, and the theorems on bad marks at them.
use airs.Base.{
  ℕ, ◌≡◌, refl, List, [], ◌∷◌, Bool, true, false, ◌||◌, ◌==◌, none, some, arith, if◌then◌else◌, All,
  replicate, ◌≢◌,
}
use airs.Base.Int.{ℤ, pos, ◌-ℤ◌}
use airs.Base.Text.{Text, codes}
use airs.Daemon.Receive.{same_text}
use airs.Badmark.Marks.{Camera, Parameter, Pixel, near_column, test, get_badcol, add_badcol}
use airs.Badmark.Registered.{test-add_badcol}
use airs.Badmark.Suspects.{Search, is_column, badcnt, remove_badpix}
use airs.Badmark.Hits.{
  IsFar, test_all, test_all-replicate, remove_badpix-hits, remove_badpix-hits_lost,
}
use airs.Badmark.Doubts.{Apart, doubt, doubts, pixel_at, lookup, new_doubt, doubt-Apart}
use airs.Badmark.Store.{Key, key_eq, PropertyTree, TreeLaws, load_badmark, save_badmark}
use airs.Badmark.Clean.{IsClean, Change, Changes, Changes-IsClean}
use airs.Badmark.RoundTrip.{recounted_all, load_badmark-save_badmark}

-- Elements as lists of paths and values.
data Value : Type 0 where
  text : Text → Value
  int : ℤ → Value

abbrev Entries : Type 0
Entries = List (Key × Value)

abbrev has_key : Key → Entries → Bool
has_key k [] = false
has_key k ((l, v) ∷ e) = key_eq k l || has_key k e

abbrev text_of : Text → Value → Text
text_of d (Value.text t) = t
text_of d (Value.int z) = d

abbrev int_of : ℤ → Value → ℤ
int_of d (Value.text t) = d
int_of d (Value.int z) = z

abbrev find_text : Key → Text → Entries → Text
find_text k d [] = d
find_text k d ((l, v) ∷ e) = let rest = find_text k d e in if key_eq k l then text_of d v else rest

abbrev find_int : Key → ℤ → Entries → ℤ
find_int k d [] = d
find_int k d ((l, v) ∷ e) = let rest = find_int k d e in if key_eq k l then int_of d v else rest

abbrev entries : PropertyTree
entries = record {
  Element = Entries;
  element = [];
  has = has_key;
  add_text = λ k t e. (k, Value.text t) ∷ e;
  add_int = λ k z e. (k, Value.int z) ∷ e;
  get_text = find_text;
  get_int = find_int;
}

same_number : (n : ℕ) → (n == n) ≡ true
same_number n = ground arith

same_key : (k : Key) → key_eq k k ≡ true
same_key Key.gid = refl
same_key Key.uid = refl
same_key Key.cid = refl
same_key Key.count = refl
same_key (Key.row i) = same_number i
same_key (Key.column i) = same_number i

entries-TreeLaws : TreeLaws entries
entries-TreeLaws = record {
  has-element = λ k. refl;
  has-add_text = λ k l v e. refl;
  has-add_int = λ k l v e. refl;
  get_text-add_text = λ k v d e h. rw (same_key k) refl;
  get_int-add_int = λ k v d e h. rw (same_key k) refl;
  get_text-add_text_others = λ k l v d e h. rw h refl;
  get_text-add_int = λ k l v d e h. rw h refl;
  get_int-add_int_others = λ k l v d e h. rw h refl;
  get_int-add_text = λ k l v d e h. rw h refl;
}

abbrev camera_001 : Camera ℤ
camera_001 = record {
  gid = codes "001";
  uid = codes "002";
  cid = codes "003";
  count = pos 0;
  marks = pos 10 ∷ pos 20 ∷ [];
}

abbrev pixels_001 : Camera Pixel
pixels_001 = record {
  gid = codes "001";
  uid = codes "002";
  cid = codes "003";
  count = pos 1;
  marks = record { row = pos 7; col = pos 9 } ∷ [];
}

abbrev marked : Parameter
marked = record {
  path_badmark = codes "bad.xml";
  badcol_set = camera_001 ∷ [];
  badpix_set = pixels_001 ∷ [];
  dirty = true;
}

abbrev empty_marks : Parameter
empty_marks = record marked { badcol_set = []; badpix_set = [] }

load_badmark-save_badmark_example :
    load_badmark entries (save_badmark entries [] true marked).1 empty_marks
    ≡ (true, recounted_all marked empty_marks)
unfolding near_column ◌-ℤ◌
load_badmark-save_badmark_example =
    load_badmark-save_badmark entries entries-TreeLaws [] true marked empty_marks refl refl refl
      (((refl, tt), (tt, tt)), tt) ((tt, tt), tt)

empty_marks-IsClean : IsClean empty_marks
empty_marks-IsClean = record { columns = tt; pixels = tt }

Changes-IsClean_example :
    IsClean (add_badcol (codes "1") (codes "2") (codes "3") (pos 4) empty_marks)
Changes-IsClean_example =
    Changes-IsClean entries
      (Changes.then (Change.bad_column (codes "1") (codes "2") (codes "3") (pos 4) empty_marks)
        (Changes.stop _))
      empty_marks-IsClean

found_001 : get_badcol (codes "001") (codes "002") (codes "003") marked ≡ some camera_001
unfolding get_badcol same_text
found_001 = refl

test-add_badcol_example :
    (y : Camera ℤ) × (get_badcol
        (codes "001")
        (codes "002")
        (codes "003")
        (add_badcol (codes "001") (codes "002") (codes "003") (pos 30) marked)
      ≡ some y)
    × (test near_column y.marks (pos 30) ≡ true)
    × (test near_column y.marks (pos 31) ≡ true)
unfolding test near_column ◌-ℤ◌
test-add_badcol_example =
    test-add_badcol (codes "001") (codes "002") (codes "003") (pos 30) (pos 31) marked camera_001
      found_001

abbrev search : Search
search = record {
  gid = codes "001";
  uid = codes "002";
  cid = codes "003";
  uncbadcol = record { col = pos 100; hit = 2 } ∷ [];
  par = marked;
}

suspects-IsFar : All (IsFar (pos 30)) search.uncbadcol
unfolding is_column ◌-ℤ◌
suspects-IsFar = (refl, tt)

test_all-replicate_example : test_all (pos 30 ∷ pos 30 ∷ pos 30 ∷ pos 30 ∷ pos 30 ∷ []) search ≡ (
  false ∷ false ∷ false ∷ false ∷ true ∷ [],
  record search { par = add_badcol (codes "001") (codes "002") (codes "003") (pos 30) marked },
)
test_all-replicate_example = test_all-replicate (pos 30) search suspects-IsFar

-- Objects that are their own columns.
abbrev same : ℤ → ℤ
same c = c

abbrev objects : List ℤ
objects = pos 30 ∷ pos 50 ∷ []

remove_badpix-hits_example :
    All
      (λ o. o ≢ pos 30)
      (remove_badpix same
        (codes "001")
        (codes "002")
        (codes "003")
        (test_all (replicate badcnt (pos 30)) search).1.par
        objects)
remove_badpix-hits_example =
    remove_badpix-hits same (pos 30) search camera_001 objects suspects-IsFar found_001

abbrev unregistered : Search
unregistered = record search { par = empty_marks }

lost_001 : get_badcol (codes "001") (codes "002") (codes "003") empty_marks ≡ none
unfolding get_badcol
lost_001 = refl

remove_badpix-hits_lost_example :
    remove_badpix same
      (codes "001")
      (codes "002")
      (codes "003")
      (test_all (replicate badcnt (pos 30)) unregistered).1.par
      objects
    ≡ objects
remove_badpix-hits_lost_example =
    remove_badpix-hits_lost same (pos 30) unregistered objects suspects-IsFar lost_001

abbrev arcs : List (ℤ × ℤ)
arcs = (pos 1, pos 5) ∷ (pos 3, pos 9) ∷ (pos 4, pos 12) ∷ []

three_arcs : (pixel_at (pos 7) (pos 8) (doubts (pos 7) (pos 8) arcs [])).count ≡ 3
unfolding pixel_at lookup new_doubt doubts doubt
three_arcs = refl

doubt-Apart_example : Apart (doubt (pos 7) (pos 8) (pos 1) (pos 5) [])
doubt-Apart_example = doubt-Apart (pos 7) (pos 8) (pos 1) (pos 5) [] tt
