-- ===== src/Tracks/Shape.antt =====
-- What a candidate must be to become an object, apart from the code of complete in
-- airs/src/AFindPV.h, and that complete finds exactly such candidates.
use airs.Base.{
  ℕ, suc, ◌≡◌, ◌≢◌, ◌≤◌, ◌⊎◌, inl, inr, refl, ◌∙◌, ap, sym, subst, List, [], ◌∷◌, Bool, true, false,
  ◌&&◌, ◌||◌, not, leb→le, some, map, arith, Bool-cases, length,
}
use airs.Base.Int.{ℤ, pos, eqb_ℤ, eqb_ℤ→eq}
use airs.Doubles.{Doubles}
use airs.Tracks.Points.{Point, Store}
use airs.Tracks.Candidate.{last_point, move_speed, sign_rate, steady, is_track, is_valid}

and_split : (a b : Bool) → (a && b) ≡ true → (a ≡ true) × (b ≡ true)
and_split true b h = (refl, h)
and_split false b h = cc

abbrev pub last_or : {A : Type 0} → A → List A → A
last_or a [] = a
last_or a (b ∷ xs) = last_or b xs

last_point-last_or : {A : Type 0} (a : A) (xs : List A) → last_point (a ∷ xs) ≡ some (last_or a xs)
unfolding last_point
last_point-last_or a [] = refl
last_point-last_or a (b ∷ xs) = rw (last_point, last_point-last_or b xs) refl

-- Without the counters and marks that change.
abbrev pub still : {D : Type 0} → Point D → Point D
still v = record v { related = pos 0; matched = pos 0 }

module _ (m : Doubles) where
  abbrev D : Type 0
  D = m.real.Double

  -- The directions of the motion in right ascension and declination: 0, 1 or -1.
  abbrev pub direction : Point D → Point D → ℤ × ℤ
  direction v w = (sign_rate m (move_speed m v w).0, sign_rate m (move_speed m v w).1)

  -- From one point to the next the directions stay.
  abbrev pub Onward : {A : Type 0} → (A → Point D) → ℤ × ℤ → A → List A → Type 0
  Onward f d a [] = Unit
  Onward f d a (b ∷ xs) =
      ((direction (f a) (f b)).0 ≡ d.0) × ((direction (f a) (f b)).1 ≡ d.1) × Onward f d b xs

  abbrev pub Moves : ℤ × ℤ → Type 0
  Moves d = (d.0 ≢ pos 0) ⊎ (d.1 ≢ pos 0)

  -- Five points at least that move, and from the second on in the direction of the whole.
  abbrev pub IsTrackBy : {A : Type 0} → (A → Point D) → List A → Type 0
  IsTrackBy f [] = ⊥
  IsTrackBy f (a ∷ []) = ⊥
  IsTrackBy f (a ∷ b ∷ xs) =
      (5 ≤ length (a ∷ b ∷ xs))
      × Moves (direction (f a) (f (last_or b xs)))
      × Onward f (direction (f a) (f (last_or b xs))) b xs

  abbrev pub IsTrack : List (Point D) → Type 0
  IsTrack values = IsTrackBy (λ v. v) values

  steady-Onward :
      (st : Store D) (r d : ℤ) (before : ℕ) (ps : List ℕ)
      → steady m st r d before ps ≡ true
      → Onward st.cell (r, d) before ps
  unfolding steady
  steady-Onward st r d before [] h = tt
  steady-Onward st r d before (p ∷ ps) h =
      let (step, later) = and_split _ _ h in
      let (ra, rest) = and_split _ _ step in
      let (dc, one) = and_split _ _ rest in
      (eqb_ℤ→eq _ r ra, eqb_ℤ→eq _ d dc, steady-Onward st r d p ps later)

  moves : (r d : ℤ) → (not (eqb_ℤ r (pos 0)) || not (eqb_ℤ d (pos 0))) ≡ true → Moves (r, d)
  moves r d h = elim (Bool-cases (eqb_ℤ r (pos 0))) [
    | inl still ↦ elim (Bool-cases (eqb_ℤ d (pos 0))) [
      | inl both ↦ absurd (ground (arith))
      | inr moving ↦ inr (λ e. ground (arith))
    ]
    | inr moving ↦ inl (λ e. ground (arith))
  ]

  -- complete says yes only to tracks.
  pub is_valid-IsTrackBy :
      (st : Store D) (pts : List ℕ) → is_valid m st pts ≡ true → IsTrackBy st.cell pts
  unfolding is_valid is_track
  is_valid-IsTrackBy st [] h = cc
  is_valid-IsTrackBy st (a ∷ []) h = cc
  is_valid-IsTrackBy st (a ∷ b ∷ xs) h =
      let (long, track) = and_split _ _ (rw (last_point-last_or b xs, is_valid) at h) in
      let (move, onward) = and_split _ _ track in
      (leb→le 5 _ long, moves _ _ move, steady-Onward st _ _ b xs onward)

  direction-still : (v w : Point D) → direction v w ≡ direction (still v) (still w)
  unfolding move_speed
  direction-still v w = refl

  direction-moved :
      (v w x y : Point D) → still v ≡ still x → still w ≡ still y → direction v w ≡ direction x y
  direction-moved v w x y e f =
      direction-still v w
      ∙ ap (λ z. direction z (still w)) e
      ∙ ap (λ z. direction (still x) z) f
      ∙ sym (direction-still x y)

  Onward-still :
      {A : Type 0} (f g : A → Point D) (d : ℤ × ℤ) (a : A) (xs : List A)
      → ((x : A) → still (f x) ≡ still (g x))
      → Onward f d a xs
      → Onward g d a xs
  Onward-still f g d a [] h o = tt
  Onward-still f g d a (b ∷ xs) h (r, s, o) =
      let e = direction-moved (g a) (g b) (f a) (f b) (sym (h a)) (sym (h b)) in
      (ap (λ z. z.0) e ∙ r, ap (λ z. z.1) e ∙ s, Onward-still f g d b xs h o)

  -- A track stays one while counters and marks change.
  pub IsTrackBy-still :
      {A : Type 0} (f g : A → Point D) (xs : List A)
      → ((x : A) → still (f x) ≡ still (g x))
      → IsTrackBy f xs
      → IsTrackBy g xs
  IsTrackBy-still f g [] h t = t
  IsTrackBy-still f g (a ∷ []) h t = t
  IsTrackBy-still f g (a ∷ b ∷ xs) h (long, move, onward) =
      let e =
        direction-moved (f a) (f (last_or b xs)) (g a) (g (last_or b xs)) (h a)
          (h (last_or b xs)) in
      (long, subst Moves e move, subst (λ d. Onward g d b xs) e (Onward-still f g _ b xs h onward))

  last_or-map :
      {A : Type 0} (f : A → Point D) (a : A) (xs : List A)
      → last_or (f a) (map f xs) ≡ f (last_or a xs)
  last_or-map f a [] = refl
  last_or-map f a (b ∷ xs) = last_or-map f b xs

  length-map : {A : Type 0} (f : A → Point D) (xs : List A) → length (map f xs) ≡ length xs
  length-map f [] = refl
  length-map f (a ∷ xs) = ap suc (length-map f xs)

  Onward-map :
      {A : Type 0} (f : A → Point D) (d : ℤ × ℤ) (a : A) (xs : List A)
      → Onward f d a xs
      → Onward (λ v. v) d (f a) (map f xs)
  Onward-map f d a [] o = tt
  Onward-map f d a (b ∷ xs) (r, s, o) = (r, s, Onward-map f d b xs o)

  pub IsTrack-map :
      {A : Type 0} (f : A → Point D) (xs : List A) → IsTrackBy f xs → IsTrack (map f xs)
  IsTrack-map f [] t = t
  IsTrack-map f (a ∷ []) t = t
  IsTrack-map f (a ∷ b ∷ xs) (long, move, onward) =
      rw (last_or-map f b xs) (omega (arith, length-map f xs), move, Onward-map f _ b xs onward)
