-- ===== src/Stars/Search.antt =====
-- ACatUCAC4 of airs/src/ACatUCAC4.h and ACatUCAC4.cpp, with SphereRange of airs/src/AMath.cpp.
-- `none` is a read or write outside of the memory that is there, or a number beyond an int.
use airs.Base.{
  ℕ, zero, suc, ◌+◌, ◌*◌, ◌/◌, List, [], ◌∷◌, ◌++◌, Bool, true, false, Option, none, some, take,
  drop, length, replicate, ltb, leb, ◌&&◌, ◌==◌, if◌then◌else◌,
}
use airs.Base.Int.{ℤ, pos, pos_part, ◌+ℤ◌, ◌-ℤ◌}
use airs.Base.Faults.{◌>>=◌}
use airs.TimeSpace.Calendar.{◌*ℤ◌}
use airs.Doubles.{Doubles}
use airs.Mathematics.Lagrange.{at}
use airs.Stars.Border.{
  CatseekBorder, Zones, remainder, zone_seek, new_seek, is_refused, millias, millias180, millias360,
}
use airs.Stars.Item.{Ucac4Item, unit, int_at, resolve_item}

pub record Ucac4Asc : Type 0 where
  pub start : ℕ
  pub number : ℕ

-- The files of the catalogue, by the number of the zone in declination, and what new memory holds.
pub record Files : Type 0 where
  pub index : Option (List Ucac4Asc)
  pub zone : ℤ → Option (List ℕ)
  pub fresh : ℕ

-- The members; of m_stars the capacity and the stars in it.
pub record ACatUcac4 : Type 0 where
  pub nstars : ℕ
  pub max : ℕ
  pub stars : Option ℕ
  pub result : List Ucac4Item
  pub asc : Option (List Ucac4Asc)

-- The buffer of a search: nelem, and the memory if there is some.
pub record Buffer : Type 0 where
  pub nelem : ℕ
  pub memory : Option (List ℕ)

abbrev pub ucac4_rstep : ℕ
ucac4_rstep = millias / 4

abbrev pub ucac4_dstep : ℕ
ucac4_dstep = millias / 5

abbrev pub ucac4_zrn : ℕ
ucac4_zrn = millias360 / ucac4_rstep

abbrev pub nasc : ℕ
nasc = millias180 / ucac4_dstep * ucac4_zrn

-- (n + 15) & ~15.
abbrev pub sixteens : ℕ → ℕ
sixteens n = (n + 15) / 16 * 16

-- load_asc: an index with more lines than zones is written behind the end of m_asc.
unfoldable pub load_asc : Files → ACatUcac4 → Option (Bool × ACatUcac4)
load_asc fs c = elim c.asc [
  | some asc ↦ some (true, c)
  | none ↦ elim fs.index [
    | none ↦ some (false, c)
    | some lines ↦
        if leb (length lines) nasc then some (true, record c { asc = some lines }) else none
  ]
]

abbrev pub new_stars : ℕ → ℕ → Option ℕ → Option ℕ
new_stars n max none = if ltb 0 n then some max else none
new_stars n max (some k) = some k

-- Its result is whether m_stars has memory then.
unfoldable pub alloc_buff : ℕ → ACatUcac4 → ACatUcac4
alloc_buff n c =
    let more = ltb c.max n in
    let max = if more then sixteens n else c.max in
    record c { max = max; nstars = n; stars = new_stars n max (if more then none else c.stars) }

abbrev pub held : ℕ → ℕ → Option (List ℕ) → List ℕ
held fresh n none = replicate (n * unit) fresh
held fresh n (some bytes) = bytes

-- The sizes of a zone are ints: those of its bytes in the memory and of its place in the file. Beyond
-- them the products overflow, and a number beyond them is negative, for which fread is asked for
-- more than there is memory.
abbrev pub is_sized : Ucac4Asc → Bool
is_sized e = leb (sixteens e.number * unit) 2147483647 && leb (unit * e.start) 2147483647

-- The memory for the stars of a zone.
unfoldable pub room : ℕ → ℕ → Buffer → Buffer
room fresh number bf =
    let need = sixteens number in
    if ltb bf.nelem need
    then record { nelem = need; memory = some (replicate (need * unit) fresh) }
    else record { nelem = bf.nelem; memory = some (held fresh bf.nelem bf.memory) }

-- fseek and fread: at most `number` stars from the star `start` on.
abbrev pub read_stars : ℕ → ℕ → List ℕ → List ℕ
read_stars start number file = take (number * unit) (drop (unit * start) file)

-- The bytes read stand in front of what the memory held before.
unfoldable pub fread : List ℕ → List ℕ → Option (List ℕ)
fread bytes memory =
    if leb (length bytes) (length memory) then some (bytes ++ drop (length bytes) memory) else none

module _ (m : Doubles) where
  abbrev D : Type 0
  D = m.real.Double

  unfoldable pub sphere_range : D → D → D → D → D
  sphere_range alpha1 beta1 alpha2 beta2 =
      let v =
        m.real.add
          (m.real.mul (m.real.mul (m.real.cos beta1) (m.real.cos beta2))
            (m.real.cos (m.real.sub alpha1 alpha2)))
          (m.real.mul (m.real.sin beta1) (m.real.sin beta2)) in
      m.acos v

  abbrev d2r : D
  d2r = m.real.lit "1.745329251994329576923691E-2"

  -- Where a search looks, in radians.
  pub record Target : Type 0 where
    pub ra0 : D
    pub dec0 : D
    pub radius : D

  unfoldable pub is_within : Target → List ℕ → Bool
  unfolding sphere_range int_at
  is_within t ptr =
      let mas = m.real.of_int (pos millias) in
      let ra = m.real.div (m.real.mul (m.real.of_int (int_at 0 ptr)) d2r) mas in
      let de =
        m.real.sub (m.real.div (m.real.mul (m.real.of_int (int_at 4 ptr)) d2r) mas)
          (m.real.mul (m.real.lit "90.0") d2r) in
      m.le (sphere_range t.ra0 t.dec0 ra de) t.radius

  -- The loop over the stars in the memory.
  unfoldable pub scan_stars : Target → ℕ → List ℕ → List Ucac4Item
  unfolding is_within resolve_item
  scan_stars t zero ptr = []
  scan_stars t (suc left) ptr =
      let rest = scan_stars t left (drop unit ptr) in
      if is_within t (take unit ptr) then resolve_item (take unit ptr) ∷ rest else rest

  -- One zone: its index, the memory, the stars read, and those found behind the ones before.
  unfoldable pub search_zone :
      Files
      → List Ucac4Asc
      → Target
      → List ℕ
      → ℤ
      → Buffer × List Ucac4Item
      → Option (Buffer × List Ucac4Item)
  unfolding room fread scan_stars
  search_zone fs asc t file zone (bf, found) = do
    entry ← at asc zone
    if entry.number == 0
        then some (bf, found)
        else (if is_sized entry
            then (do
              let left = room fs.fresh entry.number bf
              memory ← left.memory
              bytes ← fread (read_stars entry.start entry.number file) memory
              some (record left { memory = some bytes }, found ++ scan_stars t entry.number bytes))
            else none)

  -- The zones along the right ascension, from `zr` on.
  unfoldable pub search_row :
      Files
      → List Ucac4Asc
      → Target
      → List ℕ
      → ℤ
      → ℕ
      → ℤ
      → Buffer × List Ucac4Item
      → Option (Buffer × List Ucac4Item)
  unfolding search_zone ◌+ℤ◌
  search_row fs asc t file zc0 zero zr st = some st
  search_row fs asc t file zc0 (suc left) zr st = do
    next ← search_zone fs asc t file (zc0 +ℤ remainder zr ucac4_zrn) st
    search_row fs asc t file zc0 left (zr +ℤ pos 1) next

  -- The zones along the declination, each with its file; without one the search ends.
  unfoldable pub search_rows :
      Files
      → List Ucac4Asc
      → Target
      → ℕ
      → ℤ
      → ℤ
      → ℕ
      → Buffer × List Ucac4Item
      → Option (Buffer × List Ucac4Item)
  unfolding search_row ◌+ℤ◌
  search_rows fs asc t columns zrmin zd zero st = some st
  search_rows fs asc t columns zrmin zd (suc left) st = elim (fs.zone zd) [
    | none ↦ some st
    | some file ↦ do
      next ← search_row fs asc t file (ucac4_zrn *ℤ zd) columns zrmin st
      search_rows fs asc t columns zrmin (zd +ℤ pos 1) left next
  ]

  abbrev pub no_buffer : Buffer
  no_buffer = record { nelem = 0; memory = none }

  -- The loops of FindStar in the zones of a border.
  unfoldable pub search : Files → List Ucac4Asc → Target → Zones → Option (Buffer × List Ucac4Item)
  unfolding search_rows ◌+ℤ◌ ◌-ℤ◌
  search fs asc t z =
      search_rows fs asc t (pos_part (z.zrmax +ℤ pos 1 -ℤ z.zrmin)) z.zrmin z.zdmin
        (pos_part (z.zdmax +ℤ pos 1 -ℤ z.zdmin)) (no_buffer, [])

  -- The stars found go into m_stars, if there is memory for them.
  unfoldable pub keep_stars : List Ucac4Item → ACatUcac4 → Option (ℕ × ACatUcac4)
  unfolding alloc_buff
  keep_stars found c =
      let next = alloc_buff (length found) c in
      elim next.stars [
        | none ↦ some (next.nstars, next)
        | some capacity ↦
            if leb (length found) capacity
            then some (next.nstars, record next { result = found })
            else none
      ]

  -- The loops in the zones of a border, and the stars kept.
  unfoldable pub find_in : Files → CatseekBorder → Target → ACatUcac4 → Option (ℕ × ACatUcac4)
  unfolding zone_seek search keep_stars load_asc
  find_in fs border t c = do
    loaded ← load_asc fs c
    elim loaded.1.asc [
      | none ↦ some (0, loaded.1)
      | some asc ↦ do
        st ← search fs asc t (zone_seek ucac4_rstep ucac4_dstep border)
        keep_stars st.1 loaded.1
    ]

  -- The target of FindStar in radians; the radius is in minutes of arc.
  abbrev pub target : D → D → D → Target
  target ra0 dec0 radius = record {
    ra0 = m.real.mul ra0 d2r;
    dec0 = m.real.mul dec0 d2r;
    radius = m.real.div (m.real.mul radius d2r) (m.real.lit "60.0");
  }

  unfoldable pub find_star : Files → D → D → D → ACatUcac4 → Option (ℕ × ACatUcac4)
  unfolding is_refused new_seek find_in
  find_star fs ra0 dec0 radius c = if is_refused m ra0 dec0 radius then some (0, c) else (do
    border ← new_seek m ra0 dec0 (m.real.div radius (m.real.lit "60.0"))
    find_in fs border (target ra0 dec0 radius) c)
