-- ===== src/Daemon/Delivery.antt =====
-- A frame that PhotometryResult of airs/src/DoProcess.cpp hands on reaches the finder with its ids.
use airs.Base.{
  ℕ, suc, ◌≡◌, refl, ap, ◌∙◌, sym, List, [], ◌∷◌, ◌++◌, Bool, true, false, length, ◌==◌,
  if◌then◌else◌, arith, Bool-cases, inl, inr,
}
use airs.Base.Text.{Text}
use airs.Daemon.Frame.{OneFrame}
use airs.Daemon.Receive.{same_text}
use airs.Daemon.Finders.{Finder, set_ids, is_matched, find_finder, get_finder, new_frame}

pub same_text_refl : (s : Text) → same_text s s ≡ true
unfolding same_text
same_text_refl [] = refl
same_text_refl (c ∷ s) = ground (arith, same_text_refl s)

pub same_text-eq : (s t : Text) → same_text s t ≡ true → s ≡ t
unfolding same_text
same_text-eq [] [] h = refl
same_text-eq [] (b ∷ t) h = cc
same_text-eq (a ∷ s) [] h = cc
same_text-eq (a ∷ s) (b ∷ t) h = ground (arith, same_text-eq s t)

zero_ne : (n : ℕ) → (0 == suc n) ≡ false
zero_ne n = ground arith

suc_eq : (a b : ℕ) → (suc a == suc b) ≡ (a == b)
suc_eq a b = ground arith

module _ {D : Type 0} where
  -- What photometry does to the finders with a frame.
  unfoldable pub deliver : OneFrame D → List (Finder D) → List (Finder D)
  unfolding get_finder new_frame
  deliver f xs = let (found, at) = get_finder f xs in new_frame f at found

  -- The frames that wait at the first finder with some ids.
  unfoldable pub frames_for : Text → Text → Text → List (Finder D) → List (OneFrame D)
  unfolding is_matched
  frames_for g u c [] = []
  frames_for g u c (x ∷ xs) =
      let rest = frames_for g u c xs in if is_matched g u c x then x.frmque else rest

  deliver-at :
      (f : OneFrame D) (xs : List (Finder D)) (at : ℕ) (b : Bool)
      → find_finder f xs ≡ at
      → (at == length xs) ≡ b
      → deliver f xs ≡ new_frame f at (if b then xs ++ set_ids f.gid f.uid f.cid ∷ [] else xs)
  unfolding deliver
  deliver-at f xs at true e h = rw (e, h)
  deliver-at f xs at false e h = rw (e, h)

  find_finder-hit :
      (f : OneFrame D) (x : Finder D) (xs : List (Finder D))
      → is_matched f.gid f.uid f.cid x ≡ true
      → find_finder f (x ∷ xs) ≡ 0
  unfolding find_finder
  find_finder-hit f x xs h = rw h

  find_finder-miss :
      (f : OneFrame D) (x : Finder D) (xs : List (Finder D))
      → is_matched f.gid f.uid f.cid x ≡ false
      → find_finder f (x ∷ xs) ≡ suc (find_finder f xs)
  unfolding find_finder
  find_finder-miss f x xs h = rw h

  deliver-hit :
      (f : OneFrame D) (x : Finder D) (xs : List (Finder D))
      → is_matched f.gid f.uid f.cid x ≡ true
      → deliver f (x ∷ xs) ≡ record x { frmque = x.frmque ++ f ∷ [] } ∷ xs
  unfolding new_frame
  deliver-hit f x xs h =
      deliver-at f (x ∷ xs) 0 false (find_finder-hit f x xs h) (zero_ne (length xs))

  deliver-miss :
      (f : OneFrame D) (x : Finder D) (xs : List (Finder D))
      → is_matched f.gid f.uid f.cid x ≡ false
      → deliver f (x ∷ xs) ≡ x ∷ deliver f xs
  unfolding new_frame
  deliver-miss f x xs h = elim (Bool-cases (find_finder f xs == length xs)) [
    | inl e ↦
        deliver-at f (x ∷ xs) _ true (find_finder-miss f x xs h) (suc_eq _ (length xs) ∙ e)
        ∙ ap (◌∷◌ x) (sym (deliver-at f xs _ true refl e))
    | inr e ↦
        deliver-at f (x ∷ xs) _ false (find_finder-miss f x xs h) (suc_eq _ (length xs) ∙ e)
        ∙ ap (◌∷◌ x) (sym (deliver-at f xs _ false refl e))
  ]

  deliver-nil :
      (f : OneFrame D) → deliver f [] ≡ record (set_ids f.gid f.uid f.cid) { frmque = f ∷ [] } ∷ []
  unfolding deliver find_finder new_frame set_ids
  deliver-nil f = refl

  matches_itself :
      (g u c : Text) (q : List (OneFrame D))
      → is_matched g u c (record (set_ids g u c) { frmque = q }) ≡ true
  unfolding is_matched set_ids
  matches_itself g u c q = rw (same_text_refl g, same_text_refl u, same_text_refl c)

  still_matches :
      (g u c : Text) (x : Finder D) (q : List (OneFrame D))
      → is_matched g u c (record x { frmque = q }) ≡ is_matched g u c x
  unfolding is_matched
  still_matches g u c x q = refl

  frames_for-hit :
      (g u c : Text) (x : Finder D) (xs : List (Finder D))
      → is_matched g u c x ≡ true
      → frames_for g u c (x ∷ xs) ≡ x.frmque
  unfolding frames_for
  frames_for-hit g u c x xs h = rw h

  frames_for-miss :
      (g u c : Text) (x : Finder D) (xs : List (Finder D))
      → is_matched g u c x ≡ false
      → frames_for g u c (x ∷ xs) ≡ frames_for g u c xs
  unfolding frames_for
  frames_for-miss g u c x xs h = rw h

  -- After get_finder and NewFrame with a frame, the frames that wait at the first finder with its
  -- ids are those that waited there before, and the frame.
  pub frames_for-deliver :
      (f : OneFrame D) (xs : List (Finder D))
      → frames_for f.gid f.uid f.cid (deliver f xs) ≡ frames_for f.gid f.uid f.cid xs ++ f ∷ []
  unfolding frames_for
  frames_for-deliver f [] =
      ap (frames_for f.gid f.uid f.cid) (deliver-nil f)
      ∙ frames_for-hit f.gid f.uid f.cid (record (set_ids f.gid f.uid f.cid) { frmque = f ∷ [] }) []
          (matches_itself f.gid f.uid f.cid (f ∷ []))
  frames_for-deliver f (x ∷ xs) = elim (Bool-cases (is_matched f.gid f.uid f.cid x)) [
    | inl e ↦
        ap (frames_for f.gid f.uid f.cid) (deliver-hit f x xs e)
        ∙ frames_for-hit f.gid f.uid f.cid (record x { frmque = x.frmque ++ f ∷ [] }) xs
            (still_matches f.gid f.uid f.cid x (x.frmque ++ f ∷ []) ∙ e)
        ∙ ap (λ (q : List (OneFrame D)). q ++ f ∷ [])
            (sym (frames_for-hit f.gid f.uid f.cid x xs e))
    | inr e ↦
        ap (frames_for f.gid f.uid f.cid) (deliver-miss f x xs e)
        ∙ frames_for-miss f.gid f.uid f.cid x _ e
        ∙ frames_for-deliver f xs
        ∙ ap (λ (q : List (OneFrame D)). q ++ f ∷ [])
            (sym (frames_for-miss f.gid f.uid f.cid x xs e))
  ]

  -- Ids that are not those of the frame.
  abbrev pub AreOthers : OneFrame D → Text → Text → Text → Type 0
  AreOthers f g u c = is_matched {D = D} g u c (set_ids f.gid f.uid f.cid) ≡ false

  others_miss :
      (f : OneFrame D) (g u c : Text) (x : Finder D)
      → AreOthers f g u c
      → is_matched f.gid f.uid f.cid x ≡ true
      → is_matched g u c x ≡ false
  unfolding is_matched set_ids
  others_miss f g u c x o m =
      rw
        (
          same_text-eq x.gid f.gid (ground (arith, m)),
          same_text-eq x.uid f.uid (ground (arith, m)),
          same_text-eq x.cid f.cid (ground (arith, m)),
        )
        o

  -- After get_finder and NewFrame with a frame, the frames that wait at the first finder with
  -- other ids are the same as before.
  frames_for-deliver_others :
      (f : OneFrame D) (xs : List (Finder D)) (g u c : Text)
      → AreOthers f g u c
      → frames_for g u c (deliver f xs) ≡ frames_for g u c xs
  unfolding frames_for
  frames_for-deliver_others f [] g u c o =
      ap (frames_for g u c) (deliver-nil f)
      ∙ frames_for-miss g u c (record (set_ids f.gid f.uid f.cid) { frmque = f ∷ [] }) []
          (still_matches g u c (set_ids f.gid f.uid f.cid) (f ∷ []) ∙ o)
  frames_for-deliver_others f (x ∷ xs) g u c o =
      elim (Bool-cases (is_matched f.gid f.uid f.cid x)) [
        | inl e ↦
            let miss = others_miss f g u c x o e in
            ap (frames_for g u c) (deliver-hit f x xs e)
            ∙ frames_for-miss g u c (record x { frmque = x.frmque ++ f ∷ [] }) xs
                (still_matches g u c x (x.frmque ++ f ∷ []) ∙ miss)
            ∙ sym (frames_for-miss g u c x xs miss)
        | inr e ↦
            ap (frames_for g u c) (deliver-miss f x xs e)
            ∙ ap (λ (q : List (OneFrame D)). if is_matched g u c x then x.frmque else q)
                (frames_for-deliver_others f xs g u c o)
      ]

  deliver_itself :
      (f : OneFrame D) (xs : List (Finder D)) (g u c : Text)
      → is_matched {D = D} g u c (set_ids f.gid f.uid f.cid) ≡ true
      → frames_for g u c (deliver f xs) ≡ frames_for g u c xs ++ f ∷ []
  unfolding is_matched set_ids
  deliver_itself f xs g u c e =
      rw
        (
          sym (same_text-eq f.gid g (ground (arith, e))),
          sym (same_text-eq f.uid u (ground (arith, e))),
          sym (same_text-eq f.cid c (ground (arith, e))),
        )
        (frames_for-deliver f xs)

  -- After get_finder and NewFrame with a frame, the frames that wait at the first finder with any
  -- ids are those that waited there before, and, if they are the ids of the frame, the frame.
  pub frames_for-deliver_each :
      (f : OneFrame D) (xs : List (Finder D)) (g u c : Text)
      → frames_for g u c (deliver f xs) ≡ (
          if is_matched {D = D} g u c (set_ids f.gid f.uid f.cid)
          then frames_for g u c xs ++ f ∷ []
          else frames_for g u c xs)
  frames_for-deliver_each f xs g u c =
      elim (Bool-cases (is_matched {D = D} g u c (set_ids f.gid f.uid f.cid))) [
        | inl e ↦ rw e (deliver_itself f xs g u c e)
        | inr e ↦ rw e (frames_for-deliver_others f xs g u c e)
      ]
