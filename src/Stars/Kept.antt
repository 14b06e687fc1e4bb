-- ===== src/Stars/Kept.antt =====
-- What FindStar of airs/src/ACatUCAC4.cpp keeps of the stars that it finds, for GetResult.
use airs.Base.{
  ℕ, zero, suc, ◌≤◌, ◌<◌, ◌≡◌, ◌⊎◌, inl, inr, refl, ◌∙◌, ap, sym, List, [], ◌∷◌, true, false,
  Option, none, some, length, leb, ltb, arith, Bool-cases,
}
use airs.Base.Int.{pos}
use airs.Base.Faults.{Returns, Returns-some}
use airs.Doubles.{Doubles}
use airs.Stars.Border.{new_seek, is_refused, millias180}
use airs.Stars.Item.{Ucac4Item}
use airs.Stars.Search.{
  Ucac4Asc, Files, ACatUcac4, Target, nasc, sixteens, new_stars, alloc_buff, load_asc, keep_stars,
  find_in, find_star, target,
}
use airs.Stars.Zones.{In, AllSized}
use airs.Stars.Rows.{Keeps}
use airs.Stars.Found.{Wanted, search-Returns}

-- m_stars has the memory that m_max says.
abbrev pub HasRoom : ACatUcac4 → Type 0
HasRoom c = (k : ℕ) → c.stars ≡ some k → k ≡ c.max

-- The index is loaded, or can be.
abbrev pub HasIndex : Files → List Ucac4Asc → ACatUcac4 → Type 0
HasIndex fs asc c = (c.asc ≡ some asc) ⊎ ((c.asc ≡ none) × (fs.index ≡ some asc))

none≢some : {A : Type 0} (a : A) → Path (Option A) none (some a) → ⊥
none≢some a e = cc e

some-injective : {A : Type 0} (a b : A) → some a ≡ some b → a ≡ b
some-injective a b e = cc e

abbrev Kept : List Ucac4Item → Option (List Ucac4Asc) → ℕ × ACatUcac4 → Type 0
Kept found asc (n, c) =
    (n ≡ length found)
    × (c.nstars ≡ length found)
    × HasRoom c
    × (c.asc ≡ asc)
    × ((x : Ucac4Item) → In x found → In x c.result)

-- The memory for `n` stars, or no star.
abbrev Holds : ℕ → ℕ → Option ℕ → Type 0
Holds n max s = ((s ≡ some max) × (n ≤ max)) ⊎ ((s ≡ none) × (n ≡ 0))

sixteens-above : (n : ℕ) → n ≤ sixteens n
sixteens-above n = omega arith

pos_test : (n : ℕ) → ltb 0 (suc n) ≡ true
pos_test n = ground arith

new_stars-Holds :
    (n max : ℕ) (s : Option ℕ)
    → n ≤ max
    → ((k : ℕ) → s ≡ some k → k ≡ max)
    → Holds n max (new_stars n max s)
new_stars-Holds zero max none h r = inr (refl, refl)
new_stars-Holds (suc n) max none h r = inl (rw (pos_test n) refl, h)
new_stars-Holds n max (some k) h r = inl (ap (λ z. some z) (r k refl), h)

alloc_buff-Holds :
    (n : ℕ) (c : ACatUcac4) → HasRoom c → Holds n (alloc_buff n c).max (alloc_buff n c).stars
unfolding alloc_buff
alloc_buff-Holds n c r = elim (Bool-cases (ltb c.max n)) [
  | inl more ↦
      rw more
        (new_stars-Holds n (sixteens n) none (sixteens-above n) (λ k e. absurd (none≢some _ e)))
  | inr enough ↦ rw enough (new_stars-Holds n c.max c.stars (ground arith) r)
]

Holds-room : (n max k : ℕ) (s : Option ℕ) → Holds n max s → s ≡ some k → k ≡ max
Holds-room n max k s (inl (e, h)) same = some-injective _ _ (sym same ∙ e)
Holds-room n max k s (inr (e, h)) same = absurd (none≢some _ (sym e ∙ same))

none-In : (x : Ucac4Item) (found : List Ucac4Item) → length found ≡ 0 → In x found → ⊥
none-In x [] e i = i
none-In x (y ∷ found) e i = absurd (omega (arith, e))

le→leb : (a b : ℕ) → a ≤ b → leb a b ≡ true
le→leb a b h = ground arith

module _ (m : Doubles) where
  keep_stars-Returns :
      (found : List Ucac4Item) (c : ACatUcac4)
      → HasRoom c
      → Returns (Kept found c.asc) (keep_stars m found c)
  unfolding keep_stars alloc_buff
  keep_stars-Returns found c r =
      let next = alloc_buff (length found) c in
      elim (alloc_buff-Holds (length found) c r) [
        | inl (e, h) ↦
            rw (e, le→leb (length found) next.max h, keep_stars)
              (refl, refl, λ k same. some-injective _ _ (sym same ∙ e), refl, λ x i. i)
        | inr (e, h) ↦
            rw (e, keep_stars)
              (
                refl,
                refl,
                λ k same. absurd (none≢some _ (sym e ∙ same)),
                refl,
                λ x i. absurd (none-In x found h i),
              )
      ]

  load_asc-some :
      (fs : Files) (asc : List Ucac4Asc) (c : ACatUcac4)
      → length asc ≡ nasc
      → HasIndex fs asc c
      → load_asc fs c ≡ some (true, record c { asc = some asc })
  unfolding load_asc
  load_asc-some fs asc c n (inl e) = rw e refl
  load_asc-some fs asc c n (inr (e, i)) = rw (e, i, le→leb (length asc) nasc (omega arith)) refl

  -- What find_in promises: the number of stars, the members for the next search, and that each star
  -- wanted is in the result.
  abbrev pub Complete :
      (fs : Files) (asc : List Ucac4Asc) (t : Target m) (file : ℕ → List ℕ) (a b e h : ℕ)
      → ℕ × ACatUcac4
      → Type 0
  Complete fs asc t file a b e h (n, c) =
      (n ≡ c.nstars)
      × HasRoom c
      × HasIndex fs asc c
      × ((x : Ucac4Item) → Wanted m fs asc t file a b e h x → In x c.result)

  pub find_in-Complete :
      (fs : Files) (asc : List Ucac4Asc) (t : Target m) (file : ℕ → List ℕ) (a b e h : ℕ)
      (c : ACatUcac4)
      → length asc ≡ nasc
      → AllSized asc
      → ((z : ℕ) → z < 900 → fs.zone (pos z) ≡ some (file z))
      → e ≤ h
      → h < millias180
      → HasIndex fs asc c
      → HasRoom c
      → Returns (Complete fs asc t file a b e h) (
          find_in m fs
            (record { ramin = pos a; ramax = pos b; spdmin = pos e; spdmax = pos h })
            t
            c)
  unfolding find_in
  find_in-Complete fs asc t file a b e h c n sized files eh top index room =
      let (st, found, seen) =
        Returns-some (Keeps (Wanted m fs asc t file a b e h)) _
          (search-Returns m fs asc t file a b e h n sized files eh top) in
      let (r, kept, k) =
        Returns-some (Kept st.1 (some asc)) _
          (keep_stars-Returns st.1 (record c { asc = some asc }) room) in
      rw (load_asc-some fs asc c n index, found, kept, find_in)
        (k.0 ∙ sym k.1, k.2, inl k.3, λ x w. k.4 x (seen.1 x w))

  -- If FindStar takes its arguments, the index has one line for each zone, whose bytes and whose
  -- place in its file are ints, every zone of declination has its file, the numbers of the border
  -- are ints and not below 0, its lower declination is not above the upper one and this is below
  -- the north pole, and m_stars has the memory that m_max says, then FindStar reads and writes
  -- inside of its memory and finds every star in the border and within the radius that stands in
  -- the zone of its place, across the right ascension 0 too; it gives the number that it keeps,
  -- and its members are ready for the next search.
  pub find_star-Complete :
      (fs : Files) (asc : List Ucac4Asc) (file : ℕ → List ℕ) (a b e h : ℕ)
      (ra0 dec0 radius : m.real.Double) (c : ACatUcac4)
      → is_refused m ra0 dec0 radius ≡ false
      → new_seek m ra0 dec0 (m.real.div radius (m.real.lit "60.0"))
        ≡ some (record { ramin = pos a; ramax = pos b; spdmin = pos e; spdmax = pos h })
      → length asc ≡ nasc
      → AllSized asc
      → ((z : ℕ) → z < 900 → fs.zone (pos z) ≡ some (file z))
      → e ≤ h
      → h < millias180
      → HasIndex fs asc c
      → HasRoom c
      → Returns
          (Complete fs asc (target m ra0 dec0 radius) file a b e h)
          (find_star m fs ra0 dec0 radius c)
  unfolding find_star
  find_star-Complete fs asc file a b e h ra0 dec0 radius c taken border n sized files eh top index
        room =
      rw (taken, border, find_star)
        (find_in-Complete fs asc (target m ra0 dec0 radius) file a b e h c n sized files eh top
          index room)
