-- ===== src/Badmark/Ids.antt =====
-- A camera of the bad marks is known by its three ids: is_matched, and the lookups by it, of
-- airs/src/Parameter.h.
use airs.Base.{
  ◌≡◌, refl, ◌∙◌, sym, List, [], ◌∷◌, Bool, true, false, ◌&&◌, Bool-cases, inl, inr, Option, none,
  some,
}
use mathlib.Core.Option
use airs.Base.Text.{Text}
use airs.Daemon.Delivery.{same_text-eq, same_text_refl}
use airs.Badmark.Marks.{Camera, get_bad, write_bad, new_camera, is_camera}

pub both_true : (a b : Bool) → (a && b) ≡ true → (a ≡ true) × (b ≡ true)
both_true true b h = (refl, h)
both_true false b h = cc

-- The ids of a camera.
is_camera_ids :
    {A : Type 0} (g u c : Text) (x : Camera A)
    → is_camera g u c x ≡ true
    → (x.gid ≡ g) × ((x.uid ≡ u) × (x.cid ≡ c))
unfolding is_camera
is_camera_ids g u c x h =
    let e = both_true _ _ h in
    let k = both_true _ _ e.1 in
    (same_text-eq _ _ e.0, (same_text-eq _ _ k.0, same_text-eq _ _ k.1))

ids_agree :
    {A : Type 0} (g u c g' u' c' : Text) (x : Camera A)
    → is_camera g u c x ≡ true
    → is_camera g' u' c' x ≡ true
    → (g ≡ g') × ((u ≡ u') × (c ≡ c'))
ids_agree g u c g' u' c' x h k =
    let a = is_camera_ids g u c x h in
    let b = is_camera_ids g' u' c' x k in (sym a.0 ∙ b.0, (sym a.1.0 ∙ b.1.0, sym a.1.1 ∙ b.1.1))

same_camera_refl : {A : Type 0} (x : Camera A) → is_camera x.gid x.uid x.cid x ≡ true
unfolding is_camera
same_camera_refl x = rw (same_text_refl x.gid, same_text_refl x.uid, same_text_refl x.cid) refl

module _ {A : Type 0} where
  pub get_bad-write_bad :
      (g u c : Text) (f : Camera A → Camera A) (xs : List (Camera A))
      → ((y : Camera A) → is_camera g u c (f y) ≡ is_camera g u c y)
      → get_bad g u c (write_bad g u c f xs) ≡ Option.map f (get_bad g u c xs)
  unfolding get_bad write_bad
  get_bad-write_bad g u c f [] k = refl
  get_bad-write_bad g u c f (y ∷ xs) k = elim (Bool-cases (is_camera g u c y)) [
    | inl here ↦ rw (here, k y, here) refl
    | inr there ↦ rw (there, there) (get_bad-write_bad g u c f xs k)
  ]

  pub get_bad-write_bad_others :
      (g u c g' u' c' : Text) (f : Camera A → Camera A) (xs : List (Camera A))
      → ((y : Camera A) → is_camera g' u' c' (f y) ≡ is_camera g' u' c' y)
      → ¬ ((g ≡ g') × ((u ≡ u') × (c ≡ c')))
      → get_bad g' u' c' (write_bad g u c f xs) ≡ get_bad g' u' c' xs
  unfolding get_bad write_bad
  get_bad-write_bad_others g u c g' u' c' f [] k n = refl
  get_bad-write_bad_others g u c g' u' c' f (y ∷ xs) k n = elim (Bool-cases (is_camera g u c y)) [
    | inl here ↦ elim (Bool-cases (is_camera g' u' c' y)) [
      | inl both ↦ absurd (n (ids_agree g u c g' u' c' y here both))
      | inr other ↦ rw (here, k y, other) refl
    ]
    | inr there ↦ elim (Bool-cases (is_camera g' u' c' y)) [
      | inl now ↦ rw (there, now) refl
      | inr later ↦ rw (there, later) (get_bad-write_bad_others g u c g' u' c' f xs k n)
    ]
  ]

pub none-some : {A : Type 0} (a : A) (o : Option A) → o ≡ none → o ≡ some a → ⊥
none-some a o h k = cc

pub new_camera-is_camera :
    (A : Type 0) (g u c : Text) → is_camera g u c (new_camera {A = A} g u c) ≡ true
unfolding new_camera
new_camera-is_camera A g u c = same_camera_refl (new_camera {A = A} g u c)

pub new_camera_others :
    (A : Type 0) (g u c g' u' c' : Text)
    → ¬ ((g ≡ g') × ((u ≡ u') × (c ≡ c')))
    → is_camera {A = A} g' u' c' (new_camera {A = A} g u c) ≡ false
unfolding new_camera
new_camera_others A g u c g' u' c' n =
    elim (Bool-cases (is_camera {A = A} g' u' c' (new_camera {A = A} g u c))) [
      | inl same ↦ absurd (n (is_camera_ids g' u' c' (new_camera {A = A} g u c) same))
      | inr other ↦ other
    ]
