-- ===== src/Badmark/Doubts.antt =====
-- Pixels that may be hot: doubt_pixel and doubt_pixel_set of airs/src/AFindPV.h.
use airs.Base.{
  ℕ, zero, suc, ◌+◌, ◌≡◌, ◌∙◌, sym, ap, subst, refl, List, [], ◌∷◌, Bool, true, false, ◌&&◌,
  Bool-cases, inl, inr, arith, leb, if◌then◌else◌, All, length, Option, none, some,
}
use airs.Base.Int.{ℤ, pos, ltb_ℤ, ◌-ℤ◌}
use airs.Base.Text.{Text}
use airs.Badmark.Marks.{abs}

pub record Doubt : Type 0 where
  pub col : ℤ
  pub row : ℤ
  pub count : ℕ
  pub fno : ℤ
  pub pathtxt : List Text
  pub pathgtw : List Text

abbrev int_max : ℤ
int_max = pos 2147483647

-- doubt_pixel(c, r).
unfoldable pub new_doubt : ℤ → ℤ → Doubt
new_doubt c r = record { col = c; row = r; count = 0; fno = int_max; pathtxt = []; pathgtw = [] }

unfoldable pub is_same : Doubt → ℤ → ℤ → Bool
unfolding ◌-ℤ◌
is_same d c r = leb (abs (d.col -ℤ c)) 2 && leb (abs (d.row -ℤ r)) 2

unfoldable pub is_bad : Doubt → Bool
is_bad d = leb 3 d.count

unfoldable pub inc : ℤ → ℤ → Doubt → Doubt
inc fnob fnoe d = record d { count = if ltb_ℤ fnob d.fno then suc d.count else d.count; fno = fnoe }

unfoldable pub forget_paths : Doubt → Doubt
forget_paths d = record d { pathtxt = []; pathgtw = [] }

-- doubt_pixel_set::get: the set, and the position of the pixel, for its shared pointer.
unfoldable pub get : ℤ → ℤ → List Doubt → List Doubt × ℕ
unfolding is_same new_doubt
get c r [] = (new_doubt c r ∷ [], 0)
get c r (d ∷ ds) =
    let later = get c r ds in if is_same d c r then (d ∷ ds, 0) else (d ∷ later.0, suc later.1)

-- A call through the pointer.
unfoldable pub write : (Doubt → Doubt) → ℕ → List Doubt → List Doubt
write f at [] = []
write f zero (d ∷ ds) = f d ∷ ds
write f (suc at) (d ∷ ds) = d ∷ write f at ds

-- What candidate2object does with a doubtful pixel and the first and the last frame of its arc.
unfoldable pub doubt : ℤ → ℤ → ℤ → ℤ → List Doubt → List Doubt
unfolding get write inc
doubt c r fnob fnoe ds = let (found, at) = get c r ds in write (inc fnob fnoe) at found

-- No pixel of the set is the same as an earlier one.
abbrev pub Apart : List Doubt → Type 0
Apart [] = Unit
Apart (d ∷ ds) = All (λ e. is_same d e.col e.row ≡ false) ds × Apart ds

get-All :
    (c r : ℤ) (ds : List Doubt) (P : Doubt → Type 0)
    → All P ds
    → P (new_doubt c r)
    → All P (get c r ds).0
unfolding get
get-All c r [] P a n = (n, tt)
get-All c r (d ∷ ds) P (p, a) n = elim (Bool-cases (is_same d c r)) [
  | inl same ↦ rw same (p, a)
  | inr other ↦ rw other (p, get-All c r ds P a n)
]

get-Apart : (c r : ℤ) (ds : List Doubt) → Apart ds → Apart (get c r ds).0
unfolding get new_doubt
get-Apart c r [] a = (tt, tt)
get-Apart c r (d ∷ ds) (far, a) = elim (Bool-cases (is_same d c r)) [
  | inl same ↦ rw same (far, a)
  | inr other ↦ rw other (get-All c r ds _ far other, get-Apart c r ds a)
]

write-All :
    (f : Doubt → Doubt) (at : ℕ) (ds : List Doubt) (P : Doubt → Type 0)
    → ((d : Doubt) → P d → P (f d))
    → All P ds
    → All P (write f at ds)
unfolding write
write-All f at [] P k a = tt
write-All f zero (d ∷ ds) P k (p, a) = (k d p, a)
write-All f (suc at) (d ∷ ds) P k (p, a) = (p, write-All f at ds P k a)

inc-Apart : (b e : ℤ) (at : ℕ) (ds : List Doubt) → Apart ds → Apart (write (inc b e) at ds)
unfolding write inc is_same
inc-Apart b e at [] a = tt
inc-Apart b e zero (d ∷ ds) (far, a) = (far, a)
inc-Apart b e (suc at) (d ∷ ds) (far, a) =
    (write-All (inc b e) at ds _ (λ d p. p) far, inc-Apart b e at ds a)

-- If no pixel of the set of doubtful pixels is the same as an earlier one, this holds after
-- another arc has been counted.
pub doubt-Apart : (c r b e : ℤ) (ds : List Doubt) → Apart ds → Apart (doubt c r b e ds)
unfolding doubt
doubt-Apart c r b e ds a = inc-Apart b e _ (get c r ds).0 (get-Apart c r ds a)

-- The first pixel of the set that is the same as one.
unfoldable pub lookup : ℤ → ℤ → List Doubt → Option Doubt
unfolding is_same
lookup c r [] = none
lookup c r (d ∷ ds) = let later = lookup c r ds in if is_same d c r then some d else later

is_same-inc : (b e : ℤ) (d : Doubt) (c r : ℤ) → is_same (inc b e d) c r ≡ is_same d c r
unfolding is_same inc
is_same-inc b e d c r = refl

is_same_self : (c r : ℤ) → is_same (new_doubt c r) c r ≡ true
unfolding is_same new_doubt ◌-ℤ◌
is_same_self c r = ground arith

-- The pixel that a set has for a position, or a new one.
unfoldable pub pixel_at : ℤ → ℤ → List Doubt → Doubt
unfolding lookup
pixel_at c r ds = elim (lookup c r ds) [ none ↦ new_doubt c r | some d ↦ d ]

pixel_at-nil : (c r : ℤ) → pixel_at c r [] ≡ new_doubt c r
unfolding pixel_at lookup
pixel_at-nil c r = refl

pixel_at-hit :
    (c r : ℤ) (d : Doubt) (ds : List Doubt) → is_same d c r ≡ true → pixel_at c r (d ∷ ds) ≡ d
unfolding pixel_at lookup
pixel_at-hit c r d ds h = rw (pixel_at, h) refl

pixel_at-miss :
    (c r : ℤ) (d : Doubt) (ds : List Doubt)
    → is_same d c r ≡ false
    → pixel_at c r (d ∷ ds) ≡ pixel_at c r ds
unfolding pixel_at lookup
pixel_at-miss c r d ds h = rw (pixel_at, h) refl

pub lookup-doubt :
    (c r b e : ℤ) (ds : List Doubt)
    → lookup c r (doubt c r b e ds) ≡ some (inc b e (pixel_at c r ds))
unfolding lookup doubt get write
lookup-doubt c r b e [] =
    rw (pixel_at-nil c r, is_same-inc b e (new_doubt c r) c r, is_same_self c r) refl
lookup-doubt c r b e (d ∷ ds) = elim (Bool-cases (is_same d c r)) [
  | inl same ↦ rw (pixel_at-hit c r d ds same, same, is_same-inc b e d c r, same) refl
  | inr other ↦ rw (pixel_at-miss c r d ds other, other, other) (lookup-doubt c r b e ds)
]

-- The pixel for a position after a list of arcs, each with its first and its last frame.
unfoldable pub doubts : ℤ → ℤ → List (ℤ × ℤ) → List Doubt → List Doubt
unfolding doubt
doubts c r [] ds = ds
doubts c r ((b, e) ∷ arcs) ds = doubts c r arcs (doubt c r b e ds)

pixel_at-doubt :
    (c r b e : ℤ) (ds : List Doubt) → pixel_at c r (doubt c r b e ds) ≡ inc b e (pixel_at c r ds)
unfolding pixel_at inc
pixel_at-doubt c r b e ds = rw (pixel_at, lookup-doubt c r b e ds) refl

inc-count :
    (b e : ℤ) (d : Doubt)
    → ltb_ℤ b d.fno ≡ true
    → ((inc b e d).count ≡ suc d.count) × ((inc b e d).fno ≡ e)
unfolding inc
inc-count b e d h = rw h (refl, refl)

-- Each arc begins before the one before it has ended.
abbrev pub Overlap : ℤ → List (ℤ × ℤ) → Type 0
Overlap last [] = Unit
Overlap last ((b, e) ∷ arcs) = (ltb_ℤ b last ≡ true) × Overlap e arcs

-- If arcs of one doubtful position follow each other, each beginning before the frame at which
-- the one before has ended, then the count of its pixel grows by their number.
pub count-doubts :
    (c r : ℤ) (arcs : List (ℤ × ℤ)) (ds : List Doubt)
    → Overlap (pixel_at c r ds).fno arcs
    → (pixel_at c r (doubts c r arcs ds)).count ≡ (pixel_at c r ds).count + length arcs
unfolding doubts
count-doubts c r [] ds h = omega arith
count-doubts c r ((b, e) ∷ arcs) ds (h, hs) =
    let (n, f) = inc-count b e (pixel_at c r ds) h in
    let at = pixel_at-doubt c r b e ds in
    count-doubts c r arcs (doubt c r b e ds)
      (subst (λ z. Overlap z arcs) (sym (ap (λ d. d.fno) at ∙ f)) hs)
    ∙ ap (λ k. k + length arcs) (ap (λ d. d.count) at ∙ n)
    ∙ (omega arith)
