-- ===== src/Badmark/Hits.antt =====
-- A column is taken for a bad one at the fifth hit of test_badcol of airs/src/AFindPV.cpp, and then
-- remove_badpix takes the objects in it out of a frame.
use airs.Base.{
  ℕ, suc, ◌≡◌, refl, ◌∙◌, sym, ap, List, [], ◌∷◌, ◌++◌, Bool, true, false, ◌≢◌, All-map, Bool-cases,
  inl, inr, leb, if◌then◌else◌, none, some, All, replicate,
}
use mathlib.Core.Bool.{true≢false}
use airs.Base.Int.{ℤ}
use airs.Base.Text.{Text}
use airs.Badmark.Marks.{Camera, Parameter, near_column, test, get_badcol, add_badcol}
use airs.Badmark.Registered.{near_column_self, test-add_badcol, test-add_badcol_lost}
use airs.Badmark.Suspects.{
  Suspect, Search, is_column, badcnt, hit_column, test_badcol, erase_bad, remove_badpix,
}

-- test_badcol with one column after the other.
unfoldable pub test_all : List ℤ → Search → List Bool × Search
test_all [] st = ([], st)
test_all (c ∷ cs) st =
    let (bad, next) = test_badcol c st in let (rest, last) = test_all cs next in (bad ∷ rest, last)

abbrev pub IsFar : ℤ → Suspect → Type 0
IsFar c s = is_column s c ≡ false

is_column_self : (c : ℤ) (h : ℕ) → is_column (record { col = c; hit = h }) c ≡ true
unfolding is_column
is_column_self c h = near_column_self c

hit_column-new :
    (c : ℤ) (ss : List Suspect)
    → All (IsFar c) ss
    → hit_column c ss ≡ (1, ss ++ record { col = c; hit = 1 } ∷ [])
unfolding hit_column
hit_column-new c [] f = refl
hit_column-new c (s ∷ ss) (f, fs) = rw (f, hit_column-new c ss fs) refl

hit_column-again :
    (c : ℤ) (h : ℕ) (ss : List Suspect)
    → All (IsFar c) ss
    → leb badcnt (suc h) ≡ false
    → hit_column c (ss ++ record { col = c; hit = h } ∷ [])
      ≡ (suc h, ss ++ record { col = c; hit = suc h } ∷ [])
unfolding hit_column
hit_column-again c h [] f l = rw (is_column_self c h, l) refl
hit_column-again c h (s ∷ ss) (f, fs) l = rw (f, hit_column-again c h ss fs l) refl

hit_column-last :
    (c : ℤ) (h : ℕ) (ss : List Suspect)
    → All (IsFar c) ss
    → leb badcnt (suc h) ≡ true
    → hit_column c (ss ++ record { col = c; hit = h } ∷ []) ≡ (suc h, ss)
unfolding hit_column
hit_column-last c h [] f l = rw (is_column_self c h, l) refl
hit_column-last c h (s ∷ ss) (f, fs) l = rw (f, hit_column-last c h ss fs l) refl

-- One call, by what hit_column does.
test_badcol-by :
    (c : ℤ) (st : Search) (hit : ℕ) (left : List Suspect) (b : Bool)
    → hit_column c st.uncbadcol ≡ (hit, left)
    → leb badcnt hit ≡ b
    → test_badcol c st ≡ (
      b,
      record st {
        uncbadcol = left;
        par = if b then add_badcol st.gid st.uid st.cid c st.par else st.par;
      },
    )
unfolding test_badcol
test_badcol-by c st hit left b h k = rw (h, k) refl

test_all-nil : (st : Search) → test_all [] st ≡ ([], st)
unfolding test_all
test_all-nil st = refl

test_all-cons :
    (c : ℤ) (cs : List ℤ) (st : Search) {b : Bool} {rest : List Bool} {next last : Search}
    → test_badcol c st ≡ (b, next)
    → test_all cs next ≡ (rest, last)
    → test_all (c ∷ cs) st ≡ (b ∷ rest, last)
unfolding test_all
test_all-cons c cs st h k = rw (h, k) refl

-- A state with one more suspect.
abbrev suspected : ℤ → ℕ → Search → Search
suspected c h st = record st { uncbadcol = st.uncbadcol ++ record { col = c; hit = h } ∷ [] }

-- If a column is near no suspect, then five calls of test_badcol with it answer false four times
-- and then true, AddBadcol has been called once, at the fifth, and the suspects are as before.
pub test_all-replicate :
    (c : ℤ) (st : Search)
    → All (IsFar c) st.uncbadcol
    → test_all (replicate badcnt c) st ≡ (
      false ∷ false ∷ false ∷ false ∷ true ∷ [],
      record st { par = add_badcol st.gid st.uid st.cid c st.par },
    )
test_all-replicate c st f =
    test_all-cons _ _ _ (test_badcol-by c st _ _ false (hit_column-new c _ f) refl) (
      test_all-cons _ _ _
        (test_badcol-by c (suspected c 1 st) _ _ false (hit_column-again c 1 _ f refl) refl)
        (test_all-cons _ _ _
          (test_badcol-by c (suspected c 2 st) _ _ false (hit_column-again c 2 _ f refl) refl)
          (test_all-cons _ _ _
            (test_badcol-by c (suspected c 3 st) _ _ false (hit_column-again c 3 _ f refl) refl)
            (test_all-cons _ _ _
              (test_badcol-by c (suspected c 4 st) _ _ true (hit_column-last c 4 _ f refl) refl)
              (test_all-nil _)))))

differ :
    (x : Camera ℤ) (c d : ℤ)
    → test near_column x.marks c ≡ true
    → test near_column x.marks d ≡ false
    → d ≢ c
differ x c d bad good e = true≢false (sym bad ∙ ap (test near_column x.marks) (sym e) ∙ good)

module _ {O : Type 0} (column : O → ℤ) where
  erase_bad-All :
      (x : Camera ℤ) (os : List O)
      → All (λ o. test near_column x.marks (column o) ≡ false) (erase_bad column x os)
  unfolding erase_bad
  erase_bad-All x [] = tt
  erase_bad-All x (o ∷ os) = elim (Bool-cases (test near_column x.marks (column o))) [
    | inl bad ↦ rw bad (erase_bad-All x os)
    | inr good ↦ rw good (good, erase_bad-All x os)
  ]

  erase_bad_none :
      (x : Camera ℤ) (os : List O)
      → ((d : ℤ) → test near_column x.marks d ≡ false)
      → erase_bad column x os ≡ os
  unfolding erase_bad
  erase_bad_none x [] n = refl
  erase_bad_none x (o ∷ os) n = rw (n (column o), erase_bad_none x os n) refl

  remove_badpix-found :
      (g u c : Text) (par : Parameter) (x : Camera ℤ) (objs : List O)
      → get_badcol g u c par ≡ some x
      → remove_badpix column g u c par objs ≡ erase_bad column x objs
  unfolding remove_badpix
  remove_badpix-found g u c par x objs h = rw (remove_badpix, h) refl

  -- If a camera is in the set of bad columns and a column is near no suspect, then after five
  -- calls of test_badcol with the column remove_badpix leaves no object in it.
  pub remove_badpix-hits :
      (c : ℤ) (st : Search) (x : Camera ℤ) (objs : List O)
      → All (IsFar c) st.uncbadcol
      → get_badcol st.gid st.uid st.cid st.par ≡ some x
      → All
          (λ o. column o ≢ c)
          (remove_badpix column st.gid st.uid st.cid (test_all (replicate badcnt c) st).1.par objs)
  remove_badpix-hits c st x objs f h =
      let (y, found, bad, others) = test-add_badcol st.gid st.uid st.cid c c st.par x h in
      rw (test_all-replicate c st f, remove_badpix-found _ _ _ _ y objs found)
        (All-map (erase_bad column y objs) (λ o good. differ y c (column o) bad good)
          (erase_bad-All y objs))

  -- If a camera is not in the set of bad columns and a column is near no suspect, then after five
  -- calls of test_badcol with the column remove_badpix still takes no object away.
  pub remove_badpix-hits_lost :
      (c : ℤ) (st : Search) (objs : List O)
      → All (IsFar c) st.uncbadcol
      → get_badcol st.gid st.uid st.cid st.par ≡ none
      → remove_badpix column st.gid st.uid st.cid (test_all (replicate badcnt c) st).1.par objs
        ≡ objs
  remove_badpix-hits_lost c st objs f h =
      let (y, found, clear) = test-add_badcol_lost st.gid st.uid st.cid c st.par h in
      rw (test_all-replicate c st f, remove_badpix-found _ _ _ _ y objs found)
        (erase_bad_none y objs clear)
