-- ===== src/Stars/Found.antt =====
-- What FindStar of airs/src/ACatUCAC4.cpp finds in the zones of a border.
use airs.Base.{
  ℕ, zero, suc, ◌+◌, ◌-◌, ◌*◌, ◌/◌, ◌≤◌, ◌<◌, ◌≡◌, ◌⊎◌, inl, inr, sym, subst, List, [], some,
  length, arith,
}
use airs.Base.Int.{pos}
use airs.Base.Faults.{Returns, >>=-Returns}
use airs.TimeSpace.Calendar.{◌*ℤ◌}
use airs.Doubles.{Doubles}
use airs.Stars.Border.{zone_seek, millias180, millias360}
use airs.Stars.Item.{Ucac4Item}
use airs.Stars.Search.{
  Ucac4Asc, Files, Buffer, Target, search_row, search_rows, search, nasc, no_buffer, ucac4_rstep,
  ucac4_dstep,
}
use airs.Stars.Zones.{In, IsBuffer, AllSized, StarAt}
use airs.Stars.Rows.{
  next_pos, rounds, le_cases, Keeps, Keeps-map, zone_of, InRow, search_row-Returns,
}

module _ (m : Doubles) (fs : Files) (asc : List Ucac4Asc) (t : Target m) (file : ℕ → List ℕ) where
  -- A star of the rows `zd` to below `zd + left`.
  record InRows (columns zr zd left : ℕ) (x : Ucac4Item) : Type 0 where
    pub row : ℕ
    pub from : zd ≤ row
    pub below : row < zd + left
    pub star : InRow m fs asc t (file row) row zr columns x

  abbrev RowsSeen : ℕ → ℕ → ℕ → ℕ → List Ucac4Item → Ucac4Item → Type 0
  RowsSeen columns zr zd left found x = In x found ⊎ InRows columns zr zd left x

  rows_cases :
      (columns zr zd left : ℕ) (x : Ucac4Item)
      → InRows columns zr zd (suc left) x
      → InRow m fs asc t (file zd) zd zr columns x ⊎ InRows columns zr (suc zd) left x
  rows_cases columns zr zd left x r = elim (le_cases zd r.row r.from) [
    | inl e ↦ inl (subst (λ d. InRow m fs asc t (file d) d zr columns x) (sym e) r.star)
    | inr l ↦ inr (record { row = r.row; from = l; below = omega (arith, r.below); star = r.star })
  ]

  rows_seen :
      (columns zr zd left : ℕ) (found : List Ucac4Item) (st : Buffer × List Ucac4Item)
      (x : Ucac4Item)
      → Keeps (λ y. In y found ⊎ InRow m fs asc t (file zd) zd zr columns y) st
      → RowsSeen columns zr zd (suc left) found x
      → RowsSeen columns zr (suc zd) left st.1 x
  rows_seen columns zr zd left found st x k (inl old) = inl (k.1 x (inl old))
  rows_seen columns zr zd left found st x k (inr r) = elim (rows_cases columns zr zd left x r) [
    | inl star ↦ inl (k.1 x (inr star))
    | inr later ↦ inr later
  ]

  no_rows : (columns zr zd : ℕ) (x : Ucac4Item) → InRows columns zr zd 0 x → ⊥
  no_rows columns zr zd x r = absurd (omega (arith, r.from, r.below))

  search_rows-Returns :
      (left columns zr zd : ℕ) (bf : Buffer) (found : List Ucac4Item)
      → length asc ≡ nasc
      → AllSized asc
      → ((z : ℕ) → z < 900 → fs.zone (pos z) ≡ some (file z))
      → zd + left ≤ 900
      → IsBuffer bf
      → Returns
          (Keeps (RowsSeen columns zr zd left found))
          (search_rows m fs asc t columns (pos zr) (pos zd) left (bf, found))
  unfolding search_rows
  search_rows-Returns zero columns zr zd bf found n sized files h f =
      (f, λ x seen. elim seen [ inl old ↦ old | inr r ↦ absurd (no_rows columns zr zd x r) ])
  search_rows-Returns (suc left) columns zr zd bf found n sized files h f =
      rw (files zd (omega arith), next_pos zd, search_rows)
        (>>=-Returns (Keeps (λ y. In y found ⊎ InRow m fs asc t (file zd) zd zr columns y))
          (Keeps (RowsSeen columns zr zd (suc left) found))
          (search_row m fs asc t (file zd) (1440 *ℤ pos zd) columns (pos zr) (bf, found)) _
          (search_row-Returns m fs asc t columns zd zr (file zd) bf found n sized (omega arith) f)
          (λ st k.
            Keeps-map (RowsSeen columns zr (suc zd) left st.1)
              (RowsSeen columns zr zd (suc left) found)
              (search_rows m fs asc t columns (pos zr) (pos (suc zd)) left st)
              (λ x seen. rows_seen columns zr zd left found st x k seen)
              (search_rows-Returns left columns zr (suc zd) st.0 st.1 n sized files (omega arith)
                k.0)))

  -- A star within the radius, listed in the zone of its place, which is in the border; the right
  -- ascensions of a border beyond a turn are those from 0 on.
  pub record Wanted (a b e h : ℕ) (x : Ucac4Item) : Type 0 where
    pub ra : ℕ
    pub spd : ℕ
    pub ra_of : x.ra ≡ pos ra
    pub spd_of : x.spd ≡ pos spd
    pub on_circle : ra < millias360
    pub along : ((a ≤ ra) × (ra ≤ b)) ⊎ ((a ≤ ra + millias360) × (ra + millias360 ≤ b))
    pub low : e ≤ spd
    pub high : spd ≤ h
    pub star :
        StarAt m asc t (file (spd / ucac4_dstep)) (1440 * (spd / ucac4_dstep) + ra / ucac4_rstep) x

  zone_once : (zd ra : ℕ) → ra < millias360 → zone_of zd (ra / 900000) ≡ 1440 * zd + ra / 900000
  zone_once zd ra h = omega arith

  zone_turn :
      (zd ra : ℕ)
      → ra < millias360
      → zone_of zd ((ra + millias360) / 900000) ≡ 1440 * zd + ra / 900000
  zone_turn zd ra h = omega arith

  abbrev Row : ℕ → ℕ → ℕ → ℕ → Ucac4Item → Type 0
  Row a b d spd x =
      InRow m fs asc t (file d) d (a / ucac4_rstep) (suc (b / ucac4_rstep) - a / ucac4_rstep) x

  Wanted-Row :
      (a b e h : ℕ) (x : Ucac4Item) (w : Wanted a b e h x) → Row a b (w.spd / 720000) w.spd x
  Wanted-Row a b e h x w = elim w.along [
    | inl (l, r) ↦ record {
      column = w.ra / 900000;
      from = omega arith;
      below = omega arith;
      star = rw (zone_once (w.spd / 720000) w.ra w.on_circle) w.star;
    }
    | inr (l, r) ↦ record {
      column = (w.ra + millias360) / 900000;
      from = omega arith;
      below = omega arith;
      star = rw (zone_turn (w.spd / 720000) w.ra w.on_circle) w.star;
    }
  ]

  Wanted-InRows :
      (a b e h : ℕ) (x : Ucac4Item)
      → Wanted a b e h x
      → InRows
          (suc (b / 900000) - a / 900000)
          (a / 900000)
          (e / 720000)
          (suc (h / 720000) - e / 720000)
          x
  Wanted-InRows a b e h x w = record {
    row = w.spd / 720000;
    from = omega (arith, w.low);
    below = omega (arith, w.low, w.high);
    star = Wanted-Row a b e h x w;
  }

  pub search-Returns :
      (a b e h : ℕ)
      → length asc ≡ nasc
      → AllSized asc
      → ((z : ℕ) → z < 900 → fs.zone (pos z) ≡ some (file z))
      → e ≤ h
      → h < millias180
      → Returns (Keeps (Wanted a b e h)) (
          search m fs asc t (
            zone_seek ucac4_rstep ucac4_dstep
              (record { ramin = pos a; ramax = pos b; spdmin = pos e; spdmax = pos h })))
  unfolding search zone_seek
  search-Returns a b e h n sized files eh top =
      rw (zone_seek, rounds (a / 900000) (b / 900000), rounds (e / 720000) (h / 720000))
        (Keeps-map _ (Wanted a b e h) _ (λ x w. inr (Wanted-InRows a b e h x w))
          (search_rows-Returns (suc (h / 720000) - e / 720000) (suc (b / 900000) - a / 900000)
            (a / 900000) (e / 720000) (no_buffer m) [] n sized files (omega arith) _))
