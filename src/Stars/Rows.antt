-- ===== src/Stars/Rows.antt =====
-- What the loops over the zones in FindStar of airs/src/ACatUCAC4.cpp find.
use airs.Base.{
  ℕ, zero, suc, ◌+◌, ◌-◌, ◌*◌, ◌%◌, ◌≤◌, ◌<◌, ◌≡◌, ◌⊎◌, inl, inr, sym, subst, List, Option, none,
  some, length, arith, Bool-cases, ◌==◌,
}
use airs.Base.Int.{pos, pos_part, ◌+ℤ◌, ◌-ℤ◌}
use airs.Base.Faults.{Returns, >>=-Returns}
use airs.TimeSpace.Calendar.{◌*ℤ◌}
use airs.Doubles.{Doubles}
use airs.Stars.Item.{Ucac4Item}
use airs.Stars.Search.{Ucac4Asc, Files, Buffer, Target, search_zone, search_row, nasc}
use airs.Stars.Zones.{In, IsBuffer, AllSized, StarAt, Seen, search_zone-Returns}

pub next_pos : (i : ℕ) → pos i +ℤ pos 1 ≡ pos (suc i)
unfolding ◌+ℤ◌
next_pos i = ground arith

add_pos : (a b : ℕ) → pos a +ℤ pos b ≡ pos (a + b)
unfolding ◌+ℤ◌
add_pos a b = ground arith

pub rounds : (a b : ℕ) → pos_part (pos b +ℤ pos 1 -ℤ pos a) ≡ suc b - a
unfolding ◌+ℤ◌ ◌-ℤ◌
rounds a b = ground arith

pub le_cases : (a b : ℕ) → a ≤ b → (a ≡ b) ⊎ (suc a ≤ b)
le_cases a b h = elim (Bool-cases (a == b)) [
  | inl same ↦ inl (ground arith)
  | inr other ↦ inr (ground arith)
]

abbrev pub Keeps : (Ucac4Item → Type 0) → Buffer × List Ucac4Item → Type 0
Keeps P st = IsBuffer st.0 × ((x : Ucac4Item) → P x → In x st.1)

-- What is found later includes what is found before.
pub Keeps-map :
    (P Q : Ucac4Item → Type 0) (r : Option (Buffer × List Ucac4Item))
    → ((x : Ucac4Item) → Q x → P x)
    → Returns (Keeps P) r
    → Returns (Keeps Q) r
Keeps-map P Q none h k = absurd k
Keeps-map P Q (some st) h k = (k.0, λ x q. k.1 x (h x q))

-- The number of a zone in the index.
abbrev pub zone_of : ℕ → ℕ → ℕ
zone_of zd zr = 1440 * zd + zr % 1440

module _ (m : Doubles) (fs : Files) (asc : List Ucac4Asc) (t : Target m) where
  -- A star of the zones `zr` to below `zr + left`.
  pub record InRow (file : List ℕ) (zd zr left : ℕ) (x : Ucac4Item) : Type 0 where
    pub column : ℕ
    pub from : zr ≤ column
    pub below : column < zr + left
    pub star : StarAt m asc t file (zone_of zd column) x

  abbrev RowSeen : List ℕ → ℕ → ℕ → ℕ → List Ucac4Item → Ucac4Item → Type 0
  RowSeen file zd zr left found x = In x found ⊎ InRow file zd zr left x

  no_row : (file : List ℕ) (zd zr : ℕ) (x : Ucac4Item) → InRow file zd zr 0 x → ⊥
  no_row file zd zr x r = absurd (omega (arith, r.from, r.below))

  -- The first zone of a row, or one of the others.
  row_cases :
      (file : List ℕ) (zd zr left : ℕ) (x : Ucac4Item)
      → InRow file zd zr (suc left) x
      → StarAt m asc t file (zone_of zd zr) x ⊎ InRow file zd (suc zr) left x
  row_cases file zd zr left x r = elim (le_cases zr r.column r.from) [
    | inl e ↦ inl (subst (λ c. StarAt m asc t file (zone_of zd c) x) (sym e) r.star)
    | inr l ↦
        inr (record { column = r.column; from = l; below = omega (arith, r.below); star = r.star })
  ]

  row_seen :
      (file : List ℕ) (zd zr left : ℕ) (found : List Ucac4Item) (st : Buffer × List Ucac4Item)
      (x : Ucac4Item)
      → Keeps (Seen m asc t file (zone_of zd zr) found) st
      → RowSeen file zd zr (suc left) found x
      → RowSeen file zd (suc zr) left st.1 x
  row_seen file zd zr left found st x k (inl old) = inl (k.1 x (inl old))
  row_seen file zd zr left found st x k (inr r) = elim (row_cases file zd zr left x r) [
    | inl star ↦ inl (k.1 x (inr star))
    | inr later ↦ inr later
  ]

  pub search_row-Returns :
      (left zd zr : ℕ) (file : List ℕ) (bf : Buffer) (found : List Ucac4Item)
      → length asc ≡ nasc
      → AllSized asc
      → zd < 900
      → IsBuffer bf
      → Returns
          (Keeps (RowSeen file zd zr left found))
          (search_row m fs asc t file (1440 *ℤ pos zd) left (pos zr) (bf, found))
  unfolding search_row
  search_row-Returns zero zd zr file bf found n sized h f =
      (f, λ x seen. elim seen [ inl old ↦ old | inr r ↦ absurd (no_row file zd zr x r) ])
  search_row-Returns (suc left) zd zr file bf found n sized h f =
      rw (add_pos (1440 * zd) (zr % 1440), next_pos zr)
        (>>=-Returns (Keeps (Seen m asc t file (zone_of zd zr) found))
          (Keeps (RowSeen file zd zr (suc left) found))
          (search_zone m fs asc t file (pos (zone_of zd zr)) (bf, found)) _
          (search_zone-Returns m fs asc t file (zone_of zd zr) bf found (omega arith) sized f)
          (λ st k.
            Keeps-map (RowSeen file zd (suc zr) left st.1) (RowSeen file zd zr (suc left) found)
              (search_row m fs asc t file (1440 *ℤ pos zd) left (pos (suc zr)) st)
              (λ x seen. row_seen file zd zr left found st x k seen)
              (search_row-Returns left zd (suc zr) file st.0 st.1 n sized h k.0)))
