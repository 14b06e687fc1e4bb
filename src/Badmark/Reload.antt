-- ===== src/Badmark/Reload.antt =====
-- SaveBadmark and then LoadBadmark of airs/src/Parameter.h give the marks back.
use airs.Base.{
  ℕ, suc, ◌≡◌, ◌<◌, ◌≤◌, refl, ◌∙◌, sym, ap, List, [], ◌∷◌, ◌++◌, Bool, false, ◌==◌, arith, length,
  All-middle, subst, ◌≢◌, append_assoc, append-nil,
}
use airs.Base.Int.{ℤ, pos, pos_part}
use airs.Base.Text.{Text}
use airs.Badmark.Marks.{Camera, add, add_mark, test}
use airs.Badmark.Spread.{Spread}
use airs.Badmark.Store.{
  Key, PropertyTree, TreeLaws, key_eq, put_column, read_column, put_marks, put_head, put_camera,
  read_marks, read_head, read_camera,
}

-- What one mark that is written and read again has to do.
pub neq : (i j : ℕ) → i ≢ j → (i == j) ≡ false
neq i j h = ground arith

pub record MarkLaws (pt : PropertyTree) (A : Type 0) (put : ℕ → A → pt.Element → pt.Element)
    (get : ℕ → pt.Element → A) : Type 1 where
  pub IsFresh : ℕ → pt.Element → Type 0
  pub fresh-head : (x : Camera A) (i : ℕ) → IsFresh i (put_head pt x)
  pub fresh-put : (i j : ℕ) (a : A) (e : pt.Element) → i < j → IsFresh j e → IsFresh j (put i a e)
  pub get-put : (i : ℕ) (a : A) (e : pt.Element) → IsFresh i e → get i (put i a e) ≡ a
  pub get-put_others : (i j : ℕ) (a : A) (e : pt.Element) → j < i → get j (put i a e) ≡ get j e
  pub get_gid-put :
      (i : ℕ) (a : A) (e : pt.Element)
      → pt.get_text Key.gid [] (put i a e) ≡ pt.get_text Key.gid [] e
  pub get_uid-put :
      (i : ℕ) (a : A) (e : pt.Element)
      → pt.get_text Key.uid [] (put i a e) ≡ pt.get_text Key.uid [] e
  pub get_cid-put :
      (i : ℕ) (a : A) (e : pt.Element)
      → pt.get_text Key.cid [] (put i a e) ≡ pt.get_text Key.cid [] e
  pub get_count-put :
      (i : ℕ) (a : A) (e : pt.Element)
      → pt.get_int Key.count (pos 0) (put i a e) ≡ pt.get_int Key.count (pos 0) e

module _ {A : Type 0} (near : A → A → Bool) where
  -- `add` of marks that are far from each other and from those there.
  unfoldable adds : List A → Camera A → Camera A
  adds [] x = x
  adds (a ∷ later) x = adds later (add near x a)

  Spread-test :
      (xs : List A) (a : A) (later : List A)
      → Spread near (xs ++ a ∷ later)
      → test near xs a ≡ false
  unfolding test
  Spread-test [] a later s = refl
  Spread-test (x ∷ xs) a later (far, s) =
      rw (All-middle xs a later _ far, Spread-test xs a later s) refl

  add-new :
      (x : Camera A) (a : A)
      → test near x.marks a ≡ false
      → add near x a ≡ record x { marks = x.marks ++ a ∷ [] }
  unfolding add add_mark
  add-new x a h = rw h refl

  adds_lem :
      (later : List A) (x : Camera A)
      → Spread near (x.marks ++ later)
      → adds later x ≡ record x { marks = x.marks ++ later }
  unfolding adds add add_mark
  adds_lem [] x s = ap (λ xs. record x { marks = xs }) (sym (append-nil x.marks))
  adds_lem (a ∷ later) x s =
      ap (adds later) (add-new x a (Spread-test x.marks a later s))
      ∙ adds_lem later (record x { marks = x.marks ++ a ∷ [] })
          (subst (Spread near) (sym (append_assoc x.marks (a ∷ []) later)) s)
      ∙ ap (λ xs. record x { marks = xs }) (append_assoc x.marks (a ∷ []) later)

-- A camera as it is after it has been saved and loaded: its count is the number of its marks.
unfoldable pub recounted : {A : Type 0} → Camera A → Camera A
recounted x = record x { count = pos (length x.marks) }

module _ (pt : PropertyTree) (tree : TreeLaws pt) {A : Type 0} (x : Camera A) where
  uid-has : pt.has Key.uid (pt.add_text Key.gid x.gid pt.element) ≡ false
  uid-has = tree.has-add_text _ _ _ _ ∙ tree.has-element Key.uid

  cid-has :
      pt.has Key.cid (pt.add_text Key.uid x.uid (pt.add_text Key.gid x.gid pt.element)) ≡ false
  cid-has = tree.has-add_text _ _ _ _ ∙ tree.has-add_text _ _ _ _ ∙ tree.has-element Key.cid

  count-has :
      (k : Key)
      → key_eq k Key.gid ≡ false
      → key_eq k Key.uid ≡ false
      → key_eq k Key.cid ≡ false
      → pt.has k (
          pt.add_text Key.cid x.cid
            (pt.add_text Key.uid x.uid (pt.add_text Key.gid x.gid pt.element)))
        ≡ false
  count-has k g u c =
      rw
        (
          tree.has-add_text k Key.cid,
          tree.has-add_text k Key.uid,
          tree.has-add_text k Key.gid,
          g,
          u,
          c,
        )
        (tree.has-element k)

  get_gid-put_head : pt.get_text Key.gid [] (put_head pt x) ≡ x.gid
  unfolding put_head
  get_gid-put_head =
      tree.get_text-add_int _ _ _ _ _ refl
      ∙ tree.get_text-add_text_others _ _ _ _ _ refl
      ∙ tree.get_text-add_text_others _ _ _ _ _ refl
      ∙ tree.get_text-add_text _ _ _ _ (tree.has-element Key.gid)

  get_uid-put_head : pt.get_text Key.uid [] (put_head pt x) ≡ x.uid
  unfolding put_head
  get_uid-put_head =
      tree.get_text-add_int _ _ _ _ _ refl
      ∙ tree.get_text-add_text_others _ _ _ _ _ refl
      ∙ tree.get_text-add_text _ _ _ _ uid-has

  get_cid-put_head : pt.get_text Key.cid [] (put_head pt x) ≡ x.cid
  unfolding put_head
  get_cid-put_head = tree.get_text-add_int _ _ _ _ _ refl ∙ tree.get_text-add_text _ _ _ _ cid-has

  get_count-put_head : pt.get_int Key.count (pos 0) (put_head pt x) ≡ pos (length x.marks)
  unfolding put_head
  get_count-put_head = tree.get_int-add_int _ _ _ _ (count-has Key.count refl refl refl)

  pub fresh_head :
      (k : Key)
      → key_eq k Key.gid ≡ false
      → key_eq k Key.uid ≡ false
      → key_eq k Key.cid ≡ false
      → key_eq k Key.count ≡ false
      → pt.has k (put_head pt x) ≡ false
  unfolding put_head
  fresh_head k g u c n = rw (tree.has-add_int k Key.count, n) (count-has k g u c)

module _ (pt : PropertyTree) {A : Type 0} (near : A → A → Bool)
    (put : ℕ → A → pt.Element → pt.Element) (get : ℕ → pt.Element → A)
    (laws : MarkLaws pt A put get) where
  get-put_marks :
      (i j : ℕ) (xs : List A) (e : pt.Element) → j < i → get j (put_marks pt put i xs e) ≡ get j e
  unfolding put_marks
  get-put_marks i j [] e h = refl
  get-put_marks i j (x ∷ xs) e h =
      get-put_marks (suc i) j xs (put i x e) (omega arith) ∙ laws.get-put_others i j x e h

  read_marks-put_marks :
      (i : ℕ) (xs : List A) (e : pt.Element) (x : Camera A)
      → ((j : ℕ) → i ≤ j → laws.IsFresh j e)
      → read_marks pt near get (length xs) i (put_marks pt put i xs e) x ≡ adds near xs x
  unfolding put_marks read_marks adds
  read_marks-put_marks i [] e x f = refl
  read_marks-put_marks i (a ∷ xs) e x f =
      ap
        (λ b.
          read_marks pt near get (length xs) (suc i) (put_marks pt put (suc i) xs (put i a e))
            (add near x b))
        (get-put_marks (suc i) i xs (put i a e) (omega arith)
          ∙ laws.get-put i a e (f i (omega arith)))
      ∙ read_marks-put_marks (suc i) xs (put i a e) (add near x a)
          (λ j h. laws.fresh-put i j a e (omega arith) (f j (omega arith)))

  -- A value that no mark changes.
  kept :
      {B : Type 0} (read : pt.Element → B) (i : ℕ) (xs : List A) (e : pt.Element)
      → ((i : ℕ) (a : A) (e : pt.Element) → read (put i a e) ≡ read e)
      → read (put_marks pt put i xs e) ≡ read e
  unfolding put_marks
  kept read i [] e k = refl
  kept read i (x ∷ xs) e k = kept read (suc i) xs (put i x e) k ∙ k i x e

  read_camera-by :
      (e : pt.Element) (g u c : Text) (n : ℤ)
      → pt.get_text Key.gid [] e ≡ g
      → pt.get_text Key.uid [] e ≡ u
      → pt.get_text Key.cid [] e ≡ c
      → pt.get_int Key.count (pos 0) e ≡ n
      → read_camera pt near get e
        ≡ read_marks pt near get
            (pos_part n)
            1
            e
            (record { gid = g; uid = u; cid = c; count = n; marks = [] })
  unfolding read_camera read_head
  read_camera-by e g u c n hg hu hc hn = rw (hg, hu, hc, hn) refl

  pub read_camera-put_camera :
      (tree : TreeLaws pt) (x : Camera A)
      → Spread near x.marks
      → read_camera pt near get (put_camera pt put x) ≡ recounted x
  unfolding put_camera recounted
  read_camera-put_camera tree x s =
      read_camera-by _ x.gid x.uid x.cid (pos (length x.marks))
        (kept (pt.get_text Key.gid []) 1 x.marks _ laws.get_gid-put ∙ get_gid-put_head pt tree x)
        (kept (pt.get_text Key.uid []) 1 x.marks _ laws.get_uid-put ∙ get_uid-put_head pt tree x)
        (kept (pt.get_text Key.cid []) 1 x.marks _ laws.get_cid-put ∙ get_cid-put_head pt tree x)
        (kept (pt.get_int Key.count (pos 0)) 1 x.marks _ laws.get_count-put
          ∙ get_count-put_head pt tree x)
      ∙ read_marks-put_marks 1 x.marks (put_head pt x) _ (λ j h. laws.fresh-head x j)
      ∙ adds_lem near x.marks _ s

module _ (pt : PropertyTree) (tree : TreeLaws pt) where
  pub column-MarkLaws : MarkLaws pt ℤ (put_column pt) (read_column pt)
  unfolding put_column read_column
  column-MarkLaws = record {
    IsFresh = λ i e. pt.has (Key.column i) e ≡ false;
    fresh-head = λ x i. fresh_head pt tree x (Key.column i) refl refl refl refl;
    fresh-put = λ i j a e h f. tree.has-add_int _ _ _ _ ∙ rw (neq j i (omega arith)) f;
    get-put = λ i a e f. tree.get_int-add_int _ _ _ _ f;
    get-put_others = λ i j a e h. tree.get_int-add_int_others _ _ _ _ _ (neq j i (omega arith));
    get_gid-put = λ i a e. tree.get_text-add_int _ _ _ _ _ refl;
    get_uid-put = λ i a e. tree.get_text-add_int _ _ _ _ _ refl;
    get_cid-put = λ i a e. tree.get_text-add_int _ _ _ _ _ refl;
    get_count-put = λ i a e. tree.get_int-add_int_others _ _ _ _ _ refl;
  }
