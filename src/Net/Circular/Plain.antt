-- ===== src/Net/Circular/Plain.antt =====
-- A concrete circular buffer for tests and witnesses: a list within its capacity.
use airs.Base.{
  ℕ, zero, suc, ◌<◌, ◌≤◌, ◌≡◌, refl, List, [], ◌∷◌, ◌++◌, length, length-append, length-take,
  length-drop, take, drop, ltb, lt→ltb, ltb→lt, if◌then◌else◌, arith, Bool-cases, inl, inr,
}
use airs.Net.Circular.{Circular, CircularLaws}

pub record Plain : Type 0 where
  pub capacity : ℕ
  pub items : List ℕ

-- The items are cut at the capacity wherever they are read, so every value is a good one.
abbrev pub shown : Plain → List ℕ
shown b = take b.capacity b.items

unfoldable pub push : ℕ → Plain → Plain
push c b =
    if ltb (length (shown b)) b.capacity
    then record b { items = shown b ++ c ∷ [] }
    else record b { items = drop 1 (shown b ++ c ∷ []) }

abbrev pub plain : Circular
plain = record {
  Buffer = Plain;
  contents = shown;
  capacity = λ b. b.capacity;
  make = record { capacity = 0; items = [] };
  set_capacity = λ n b. record { capacity = n; items = shown b };
  clear = λ b. record b { items = [] };
  push_back = push;
  erase_begin = λ n b. record b { items = drop n (shown b) };
}

take-all : (n : ℕ) (xs : List ℕ) → length xs ≤ n → take n xs ≡ xs
take-all zero [] h = refl
take-all zero (x ∷ xs) h = elim h [ ]
take-all (suc n) [] h = refl
take-all (suc n) (x ∷ xs) h = rw (take-all n xs (omega arith))

take-nil : (n : ℕ) → ◌≡◌ {A = List ℕ} (take n []) []
take-nil zero = refl
take-nil (suc n) = refl

fits_lem : (b : Plain) → length (shown b) ≤ b.capacity
fits_lem b = omega (arith, length-take b.capacity b.items)

push_room :
    (c : ℕ) (b : Plain) → length (shown b) < b.capacity → shown (push c b) ≡ shown b ++ c ∷ []
unfolding push
push_room c b h =
    rw (lt→ltb _ _ h)
      (take-all b.capacity (shown b ++ c ∷ []) (omega (arith, length-append (shown b) (c ∷ []))))

push_full :
    (c : ℕ) (b : Plain)
    → length (shown b) ≡ b.capacity
    → shown (push c b) ≡ drop 1 (shown b ++ c ∷ [])
unfolding push
push_full c b h = elim (Bool-cases (ltb (length (shown b)) b.capacity)) [
  | inl e ↦ absurd (omega (arith, ltb→lt _ _ e))
  | inr e ↦ rw e (
      take-all b.capacity (drop 1 (shown b ++ c ∷ []))
        (omega (arith, length-append (shown b) (c ∷ []), length-drop 1 (shown b ++ c ∷ []))))
]

push_capacity : (c : ℕ) (b : Plain) → (push c b).capacity ≡ b.capacity
unfolding push
push_capacity c b = ground arith

erase_lem : (n : ℕ) (b : Plain) → take b.capacity (drop n (shown b)) ≡ drop n (shown b)
erase_lem n b =
    take-all b.capacity (drop n (shown b)) (omega (arith, fits_lem b, length-drop n (shown b)))

pub plain-CircularLaws : CircularLaws plain
plain-CircularLaws = record {
  fits = fits_lem;
  contents-make = refl;
  capacity-set_capacity = λ n b. refl;
  contents-set_capacity = λ n b. refl;
  capacity-clear = λ b. refl;
  contents-clear = λ b. take-nil b.capacity;
  capacity-push_back = push_capacity;
  contents-push_back = push_room;
  contents-push_back_full = push_full;
  capacity-erase_begin = λ n b. refl;
  contents-erase_begin = λ n b h. erase_lem n b;
}
