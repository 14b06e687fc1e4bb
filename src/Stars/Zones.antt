-- ===== src/Stars/Zones.antt =====
-- What one zone of the catalogue gives to a search of ACatUCAC4 in airs/src/ACatUCAC4.cpp.
use airs.Base.{
  ℕ, zero, suc, ◌*◌, ◌≤◌, ◌<◌, ◌≡◌, ◌⊎◌, inl, inr, refl, ◌∙◌, ap, subst, List, [], ◌∷◌, ◌++◌, Bool,
  true, false, Option, none, some, take, drop, length, get_elem?, replicate, length-replicate,
  length-append, length-drop, length-take, ltb, leb, ◌==◌, if◌then◌else◌, arith, Bool-cases,
}
use airs.Base.Int.{pos}
use airs.Base.Faults.{Returns}
use airs.Doubles.{Doubles}
use airs.Stars.Item.{Ucac4Item, unit, resolve_item}
use airs.Stars.Search.{
  Ucac4Asc, Files, Buffer, Target, sixteens, is_sized, held, room, read_stars, fread, is_within,
  scan_stars, search_zone,
}

abbrev pub In : {A : Type 0} → A → List A → Type 0
In a [] = ⊥
In a (b ∷ xs) = (b ≡ a) ⊎ In a xs

pub In-left : {A : Type 0} (a : A) (xs ys : List A) → In a xs → In a (xs ++ ys)
In-left a [] ys i = absurd i
In-left a (b ∷ xs) ys (inl e) = inl e
In-left a (b ∷ xs) ys (inr i) = inr (In-left a xs ys i)

pub In-right : {A : Type 0} (a : A) (xs ys : List A) → In a ys → In a (xs ++ ys)
In-right a [] ys i = i
In-right a (b ∷ xs) ys i = inr (In-right a xs ys i)

-- The memory of a buffer has the length that nelem says.
abbrev pub Fits : ℕ → Option (List ℕ) → Type 0
Fits n none = Unit
Fits n (some bytes) = length bytes ≡ n * unit

abbrev pub IsBuffer : Buffer → Type 0
IsBuffer bf = Fits bf.nelem bf.memory

sixteens-le : (n : ℕ) → n ≤ sixteens n
sixteens-le n = omega arith

abbrev Room : ℕ → Buffer → Type 0
Room number bf =
    (bytes : List ℕ) × (bf.memory ≡ some bytes)
    × (length bytes ≡ bf.nelem * unit)
    × (number ≤ bf.nelem)

length-held :
    (fresh n : ℕ) (memory : Option (List ℕ))
    → Fits n memory
    → length (held fresh n memory) ≡ n * unit
length-held fresh n none h = length-replicate (n * unit) fresh
length-held fresh n (some bytes) h = h

not_less : (a b : ℕ) → ltb a b ≡ false → b ≤ a
not_less a b e = ground arith

le→leb : (a b : ℕ) → a ≤ b → leb a b ≡ true
le→leb a b e = ground arith

room-Room : (fresh number : ℕ) (bf : Buffer) → IsBuffer bf → Room number (room fresh number bf)
unfolding room
room-Room fresh number bf h = elim (Bool-cases (ltb bf.nelem (sixteens number))) [
  | inl small ↦ rw small (
    replicate (sixteens number * unit) fresh,
    refl,
    length-replicate (sixteens number * unit) fresh,
    sixteens-le number,
  )
  | inr large ↦ rw large (
    held fresh bf.nelem bf.memory,
    refl,
    length-held fresh bf.nelem bf.memory h,
    omega (arith, sixteens-le number, not_less bf.nelem (sixteens number) large),
  )
]

-- What is read fits into the memory, in front of the rest.
fread-some :
    (bytes memory : List ℕ)
    → length bytes ≤ length memory
    → (fread bytes memory ≡ some (bytes ++ drop (length bytes) memory))
      × (length (bytes ++ drop (length bytes) memory) ≡ length memory)
unfolding fread
fread-some bytes memory h = (
  rw (le→leb (length bytes) (length memory) h) refl,
  omega
      (arith, length-append bytes (drop (length bytes) memory), length-drop (length bytes) memory),
)

read_stars-le :
    (start number : ℕ) (file : List ℕ) → length (read_stars start number file) ≤ number * unit
read_stars-le start number file =
    ground (arith, length-take (number * unit) (drop (unit * start) file))

-- The star `k` of the bytes read.
abbrev pub record_of : ℕ → List ℕ → List ℕ
record_of zero bytes = take unit bytes
record_of (suc k) bytes = record_of k (drop unit bytes)

take-append : (n : ℕ) (xs ys : List ℕ) → n ≤ length xs → take n (xs ++ ys) ≡ take n xs
take-append zero xs ys h = refl
take-append (suc n) [] ys h = absurd (omega arith)
take-append (suc n) (x ∷ xs) ys h = ap (λ z. x ∷ z) (take-append n xs ys (omega arith))

drop-append : (n : ℕ) (xs ys : List ℕ) → n ≤ length xs → drop n (xs ++ ys) ≡ drop n xs ++ ys
drop-append zero xs ys h = refl
drop-append (suc n) [] ys h = absurd (omega arith)
drop-append (suc n) (x ∷ xs) ys h = drop-append n xs ys (omega arith)

get_elem?-some :
    {A : Type 0} (xs : List A) (i : ℕ) → i < length xs → (a : A) × (get_elem? xs i ≡ some a)
get_elem?-some [] i h = absurd (omega arith)
get_elem?-some (x ∷ xs) zero h = (x, refl)
get_elem?-some (x ∷ xs) (suc i) h = get_elem?-some xs i (omega arith)

-- Every line of the index has sizes that are ints.
abbrev pub AllSized : List Ucac4Asc → Type 0
AllSized asc = (i : ℕ) (entry : Ucac4Asc) → get_elem? asc i ≡ some entry → is_sized entry ≡ true

module _ (m : Doubles) where
  -- A star of a zone that is within the radius, and what it resolves to.
  pub record StarAt (asc : List Ucac4Asc) (t : Target m) (file : List ℕ) (zone : ℕ) (x : Ucac4Item)
      : Type 0 where
    pub entry : Ucac4Asc
    pub indexed : get_elem? asc zone ≡ some entry
    pub k : ℕ
    pub counted : k < entry.number
    pub whole : length (read_stars entry.start entry.number file) ≡ entry.number * unit
    pub within : is_within m t (record_of k (read_stars entry.start entry.number file)) ≡ true
    pub same : resolve_item (record_of k (read_stars entry.start entry.number file)) ≡ x

  if-In :
      (hit : Bool) (x y : Ucac4Item) (rest : List Ucac4Item)
      → In x rest
      → In x (if hit then y ∷ rest else rest)
  if-In true x y rest i = inr i
  if-In false x y rest i = i

  scan_stars-In :
      (number k : ℕ) (t : Target m) (bytes back : List ℕ)
      → k < number
      → length bytes ≡ number * unit
      → is_within m t (record_of k bytes) ≡ true
      → In (resolve_item (record_of k bytes)) (scan_stars m t number (bytes ++ back))
  unfolding scan_stars
  scan_stars-In zero k t bytes back h l w = elim h [ ]
  scan_stars-In (suc number) zero t bytes back h l w =
      rw (take-append unit bytes back (omega arith), w) (inl refl)
  scan_stars-In (suc number) (suc k) t bytes back h l w =
      rw (drop-append unit bytes back (omega arith)) (
        if-In _ _ _ _ (
          scan_stars-In number k t (drop unit bytes) back (omega arith)
            (omega (arith, length-drop unit bytes)) w))

  -- Found before, or a star of the zone.
  abbrev pub Seen : List Ucac4Asc → Target m → List ℕ → ℕ → List Ucac4Item → Ucac4Item → Type 0
  Seen asc t file zone found x = In x found ⊎ StarAt asc t file zone x

  none_in_empty :
      (asc : List Ucac4Asc) (t : Target m) (file : List ℕ) (zone : ℕ) (entry : Ucac4Asc)
      (x : Ucac4Item)
      → get_elem? asc zone ≡ some entry
      → (entry.number == 0) ≡ true
      → StarAt asc t file zone x
      → ⊥
  none_in_empty asc t file zone entry x e z s =
      let same : entry ≡ s.entry = cc (e, s.indexed) in
      let number : entry.number ≡ 0 = ground arith in
      absurd (omega (arith, s.counted, number, ap (λ (a : Ucac4Asc). a.number) same))

  found_there :
      (asc : List Ucac4Asc) (t : Target m) (file : List ℕ) (zone : ℕ) (entry : Ucac4Asc)
      (x : Ucac4Item) (back : List ℕ)
      → get_elem? asc zone ≡ some entry
      → StarAt asc t file zone x
      → In x (scan_stars m t entry.number (read_stars entry.start entry.number file ++ back))
  found_there asc t file zone entry x back e s =
      let same : s.entry ≡ entry = cc (e, s.indexed) in
      subst (λ a. In x (scan_stars m t a.number (read_stars a.start a.number file ++ back))) same
        (subst
          (λ y.
            In y (
              scan_stars m t s.entry.number (read_stars s.entry.start s.entry.number file ++ back)))
          s.same
          (scan_stars-In s.entry.number s.k t (read_stars s.entry.start s.entry.number file) back
            s.counted s.whole s.within))

  pub search_zone-Returns :
      (fs : Files) (asc : List Ucac4Asc) (t : Target m) (file : List ℕ) (zone : ℕ) (bf : Buffer)
      (found : List Ucac4Item)
      → zone < length asc
      → AllSized asc
      → IsBuffer bf
      → Returns
          (λ st. IsBuffer st.0 × ((x : Ucac4Item) → Seen asc t file zone found x → In x st.1))
          (search_zone m fs asc t file (pos zone) (bf, found))
  unfolding search_zone
  search_zone-Returns fs asc t file zone bf found h sized f =
      let (entry, e) = get_elem?-some asc zone h in
      let (bytes, eb, len, le) = room-Room fs.fresh entry.number bf f in
      let stars = read_stars entry.start entry.number file in
      let (ef, el) =
        fread-some stars bytes
          (omega (arith, read_stars-le entry.start entry.number file, len, le)) in
      elim (Bool-cases (entry.number == 0)) [
        | inl empty ↦
            rw (e, empty, search_zone)
              (
                f,
                λ x seen. elim seen [
                  | inl old ↦ old
                  | inr s ↦ absurd (none_in_empty asc t file zone entry x e empty s)
                ],
              )
        | inr full ↦
            rw (e, full, sized zone entry e, eb, ef, search_zone)
              (
                el ∙ len,
                λ x seen. elim seen [
                  | inl old ↦ In-left x found _ old
                  | inr s ↦ In-right x found _ (found_there asc t file zone entry x _ e s)
                ],
              )
      ]
