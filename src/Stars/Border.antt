-- ===== src/Stars/Border.antt =====
-- catseek_border and ACatalog::FindStar of airs/src/ACatalog.h and ACatalog.cpp.
use airs.Base.{ℕ, suc, ◌-◌, ◌/◌, ◌%◌, Bool, ◌||◌, if◌then◌else◌, Option, some, none}
use airs.Base.Int.{ℤ, pos, negsuc, ◌+ℤ◌, ◌-ℤ◌, ltb_ℤ, leb_ℤ, is_int}
use airs.Base.Faults.{◌>>=◌}
use airs.Doubles.{Doubles}

-- The steps of MILLIAS, MILLIAS180 and MILLIAS360 thousandths of a second of arc.
abbrev pub millias : ℕ
millias = 3600000

abbrev pub millias180 : ℕ
millias180 = 648000000

abbrev pub millias360 : ℕ
millias360 = 1296000000

-- Division of int, towards 0.
abbrev pub quotient : ℤ → ℕ → ℤ
quotient (pos a) n = pos (a / n)
quotient (negsuc a) n = pos 0 -ℤ pos (suc a / n)

abbrev pub remainder : ℤ → ℕ → ℤ
remainder (pos a) n = pos (a % n)
remainder (negsuc a) n = pos 0 -ℤ pos (suc a % n)

pub record CatseekBorder : Type 0 where
  pub ramin : ℤ
  pub ramax : ℤ
  pub spdmin : ℤ
  pub spdmax : ℤ

pub record Zones : Type 0 where
  pub zrmin : ℤ
  pub zrmax : ℤ
  pub zdmin : ℤ
  pub zdmax : ℤ

unfoldable pub zone_seek : ℕ → ℕ → CatseekBorder → Zones
zone_seek rstep dstep b = record {
  zrmin = quotient b.ramin rstep;
  zrmax = quotient b.ramax rstep;
  zdmin = quotient b.spdmin dstep;
  zdmax = quotient b.spdmax dstep;
}

-- `if (ramin > ramax) ramax += MILLIAS360`.
unfoldable pub unwrap : CatseekBorder → CatseekBorder
unwrap b = if ltb_ℤ b.ramax b.ramin then record b { ramax = b.ramax +ℤ pos millias360 } else b

-- A number, if it is one of an int.
abbrev pub in_int : ℤ → Option ℤ
in_int z = if is_int z then some z else none

module _ (m : Doubles) where
  abbrev D : Type 0
  D = m.real.Double

  abbrev d2r : D
  d2r = m.real.lit "1.745329251994329576923691E-2"

  abbrev r2d : D
  r2d = m.real.lit "5.729577951308232087679815E1"

  -- (int) (x * MILLIAS).
  abbrev mas : D → Option ℤ
  mas x = in_int (m.trunc (m.real.mul x (m.real.of_int (pos millias))))

  -- ramin and ramax, if the circle does not reach a pole.
  unfoldable pub sides : D → D → D → Option (ℤ × ℤ)
  unfolding ◌+ℤ◌ ◌-ℤ◌
  sides ra sf cd = do
    let d = m.real.mul (m.real.asin (m.real.div sf cd)) r2d
    west ← mas (m.real.sub ra d)
    east ← mas (m.real.add ra d)
    some (
      if ltb_ℤ west (pos 0) then west +ℤ pos millias360 else west,
      if leb_ℤ (pos millias360) east then east -ℤ pos millias360 else east,
    )

  -- `none` if a number is beyond an int.
  unfoldable pub new_seek : D → D → D → Option CatseekBorder
  unfolding unwrap sides
  new_seek ra dec radius = do
    let sf = m.real.sin (m.real.mul radius d2r)
    let cd = m.real.cos (m.real.mul dec d2r)
    low ← mas (m.real.add (m.real.sub dec radius) (m.real.lit "90."))
    high ← mas (m.real.add (m.real.add dec radius) (m.real.lit "90."))
    (ramin, ramax) ←
        (if m.real.less sf cd then sides ra sf cd else some (pos 0, pos (millias360 - 1)))
    let border = unwrap (record {
      ramin = ramin;
      ramax = ramax;
      spdmin = if ltb_ℤ low (pos 0) then pos 0 else low;
      spdmax = if ltb_ℤ (pos millias180) high then pos (millias180 - 1) else high;
    })
    end ← in_int border.ramax
    some border

  -- The conditions of ACatalog::FindStar on its arguments.
  unfoldable pub is_refused : D → D → D → Bool
  is_refused ra0 dec0 radius =
      m.real.less ra0 (m.real.of_int (pos 0))
      || (m.real.less (m.real.of_int (pos 360)) ra0
          || (m.real.less dec0 (m.real.of_int (negsuc 89))
              || (m.real.less (m.real.of_int (pos 90)) dec0
                  || m.real.less radius (m.real.lit "0.001"))))
