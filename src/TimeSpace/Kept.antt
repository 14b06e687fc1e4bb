-- ===== src/TimeSpace/Kept.antt =====
-- What it means that the kept values of ATimeSpace of airs/src/ATimeSpace.cpp are right, and that a
-- function gives what the static functions give and keeps them right.
use airs.Base.{
  ◌≡◌, ◌≢◌, refl, ◌∙◌, sym, ap, Bool, true, false, Bool-cases, inl, inr, if◌then◌else◌, arith,
}
use mathlib.Core.Bool.{true≢false}
use airs.TimeSpace.Values.{
  Name, Moment, Times, same, same-eq, flag, flag-cases, flag_far, put, mark,
}
use airs.TimeSpace.Getters.{Get, ◌>>=◌, give, the_moment, keep, cached}

-- The mark of the position covers two values and is none itself.
abbrev pub IsValue : Name → Type 0
IsValue k = k ≢ Name.ats_position_sun

pub same_self : (k : Name) → same k k ≡ true
same_self k = ground arith

unmarked : (b c d : Bool) → b ≡ false → (if b then c else d) ≡ d
unmarked b c d h = rw h refl

only : (k j : Name) → IsValue k → same j k ≡ false → flag j ≢ k
only k j q n e = elim (flag-cases j) [
  | inl own ↦ true≢false (sym (same_self k) ∙ ap (λ x. same x k) (sym e ∙ own) ∙ n)
  | inr position ↦ q (sym e ∙ position)
]

module _ {D : Type 0} (exact : Name → Moment D → D) where
  -- Every value that counts as valid is the exact one.
  abbrev pub IsRight : Times D → Type 0
  IsRight st = (k : Name) → IsValue k → st.valid (flag k) ≡ true → st.values k ≡ exact k st.now

  -- From right values the computation gives `spec` of the moment, and leaves the values right.
  abbrev pub Gives : {A : Type 0} → Get D A → (Moment D → A) → Type 0
  Gives g spec =
      (st : Times D)
      → IsRight st
      → ((g st).0 ≡ spec st.now) × (IsRight (g st).1 × ((g st).1.now ≡ st.now))

  pub give-Gives : {A : Type 0} (a : A) → Gives (give a) (λ b. a)
  give-Gives a st h = (refl, (h, refl))

  pub the_moment-Gives : Gives the_moment (λ b. b)
  the_moment-Gives st h = (refl, (h, refl))

  pub >>=-Gives :
      {A B : Type 0} (g : Get D A) (f : A → Get D B) (s : Moment D → A) (t : A → Moment D → B)
      → Gives g s
      → ((a : A) → Gives (f a) (t a))
      → Gives (g >>= f) (λ b. t (s b) b)
  >>=-Gives g f s t hg hf st h =
      let (e, (i, k)) = hg st h in
      let (e', (i', k')) = hf (g st).0 (g st).1 i in
      (e' ∙ ap (t (g st).0) k ∙ ap (λ a. t a st.now) e, (i', k' ∙ k))

  -- Marking `k` makes no other value valid.
  still_valid :
      (k j : Name) (st : Times D)
      → flag k ≡ k
      → IsValue k
      → same j k ≡ false
      → (mark k st).valid (flag j) ≡ true
      → st.valid (flag j) ≡ true
  still_valid k j st p q n m = elim (Bool-cases (same (flag j) k)) [
    | inl hit ↦ absurd (only k j q n (same-eq (flag j) k hit))
    | inr miss ↦ sym (unmarked _ true _ miss) ∙ m
  ]

  put-IsRight :
      (k : Name) (v : D) (st : Times D)
      → flag k ≡ k
      → IsValue k
      → v ≡ exact k st.now
      → IsRight st
      → IsRight (mark k (put k v st))
  put-IsRight k v st p q e h j q' m = elim (Bool-cases (same j k)) [
    | inl hit ↦ rw hit (e ∙ ap (λ n. exact n st.now) (sym (same-eq j k hit)))
    | inr miss ↦ rw miss (h j q' (still_valid k j (put k v st) p q miss m))
  ]

  -- A value that is taken from where it is kept, or worked out.
  pub either-Gives :
      {A : Type 0} (k : Name) (old : Times D → A) (g : Get D A) (s : Moment D → A)
      → ((st : Times D) → IsRight st → st.valid k ≡ true → old st ≡ s st.now)
      → Gives g s
      → Gives (λ st. if st.valid k then (old st, st) else g st) s
  either-Gives k old g s ho hg st h = elim (Bool-cases (st.valid k)) [
    | inl valid ↦ rw valid (ho st h valid, (h, refl))
    | inr invalid ↦ rw invalid (hg st h)
  ]

  kept-Gives :
      (k : Name) (g : Get D D)
      → flag k ≡ k
      → IsValue k
      → Gives g (exact k)
      → Gives (g >>= keep k) (exact k)
  unfolding keep
  kept-Gives k g p q hg st h =
      let (e, (i, c)) = hg st h in
      (e, (put-IsRight k (g st).0 (g st).1 p q (e ∙ ap (exact k) (sym c)) i, c))

  pub cached-Gives :
      (k : Name) (g : Get D D)
      → flag k ≡ k
      → IsValue k
      → Gives g (exact k)
      → Gives (cached k g) (exact k)
  unfolding cached
  cached-Gives k g p q hg =
      either-Gives k (λ st. st.values k) (g >>= keep k) (exact k)
        (λ st h v. h k q (ap st.valid p ∙ v)) (kept-Gives k g p q hg)

  -- Two values that are worked out together and both kept.
  pub two-Gives :
      {A : Type 0} (j k : Name) (a b : A → D) (g : Get D A) (s : Moment D → A)
      → flag j ≡ j
      → IsValue j
      → flag k ≡ k
      → IsValue k
      → ((m : Moment D) → a (s m) ≡ exact j m)
      → ((m : Moment D) → b (s m) ≡ exact k m)
      → Gives g s
      → Gives (g >>= λ p. keep j (a p) >>= λ x. keep k (b p) >>= λ y. give x) (exact j)
  unfolding keep
  two-Gives j k a b g s pj qj pk qk ha hb hg st h =
      let (e, (i, c)) = hg st h in
      let ea = ap a e ∙ ha st.now in
      let eb = ap b e ∙ hb st.now in
      (
        ea,
        (
          put-IsRight k _ (mark j (put j (a (g st).0) (g st).1)) pk qk (eb ∙ ap (exact k) (sym c))
              (put-IsRight j _ (g st).1 pj qj (ea ∙ ap (exact j) (sym c)) i),
          c,
        ),
      )

  -- The two coordinates of the sun, under the mark that they share.
  pub position-IsRight :
      (ra dec : D) (st : Times D)
      → ra ≡ exact Name.ats_position_sun_ra st.now
      → dec ≡ exact Name.ats_position_sun_dec st.now
      → IsRight st
      → IsRight (
          mark Name.ats_position_sun
            (put Name.ats_position_sun_dec dec (put Name.ats_position_sun_ra ra st)))
  position-IsRight ra dec st ea ed h j q m = elim (Bool-cases (same j Name.ats_position_sun_dec)) [
    | inl hit ↦
        rw hit (ed ∙ ap (λ n. exact n st.now) (sym (same-eq j Name.ats_position_sun_dec hit)))
    | inr other ↦ elim (Bool-cases (same j Name.ats_position_sun_ra)) [
      | inl hit ↦
          rw (other, hit)
            (ea ∙ ap (λ n. exact n st.now) (sym (same-eq j Name.ats_position_sun_ra hit)))
      | inr miss ↦ rw (other, miss) (h j q (sym (unmarked _ true _ (flag_far j q other miss)) ∙ m))
    ]
  ]
