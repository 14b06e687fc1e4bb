-- ===== src/Stars/Item.antt =====
-- ucac4_item of airs/src/ACatUCAC4.h, and resolve_item of airs/src/ACatUCAC4.cpp: the 78 bytes of a
-- star, with the numbers in the order of bytes of the machine, the lowest first.
use airs.Base.{
  ℕ, ◌+◌, ◌-◌, ◌*◌, ◌^◌, List, [], ◌∷◌, none, some, get_elem?, take, drop, ltb, if◌then◌else◌,
}
use airs.Base.Int.{ℤ, pos, negsuc}

pub record Ucac4Item : Type 0 where
  pub ra : ℤ
  pub spd : ℤ
  pub magm : ℤ
  pub maga : ℤ
  pub sigmag : ℤ
  pub objt : ℤ
  pub cdf : ℤ
  pub sigra : ℤ
  pub sigdc : ℤ
  pub na1 : ℤ
  pub nu1 : ℤ
  pub cu1 : ℤ
  pub cepra : ℤ
  pub cepdc : ℤ
  pub pmrac : ℤ
  pub pmdc : ℤ
  pub sigpmr : ℤ
  pub sigpmd : ℤ
  pub pts_key : ℤ
  pub j_m : ℤ
  pub h_m : ℤ
  pub k_m : ℤ
  pub icqflg : List ℕ
  pub e2mpho : List ℕ
  pub apasm : List ℤ
  pub apase : List ℕ
  pub gcflg : ℤ
  pub icf : ℤ
  pub leda : ℤ
  pub x2m : ℤ
  pub rnm : ℤ
  pub zn2 : ℤ
  pub rn2 : ℤ

-- UCAC4_UNIT.
abbrev pub unit : ℕ
unit = 78

unfoldable pub byte : ℕ → List ℕ → ℕ
byte i buff = elim (get_elem? buff i) [ none ↦ 0 | some b ↦ b ]

-- A number of `w` bits as the signed one.
unfoldable pub signed_of : ℕ → ℕ → ℤ
signed_of w n = if ltb n (2 ^ (w - 1)) then pos n else negsuc (2 ^ w - n - 1)

unfoldable pub char_at : ℕ → List ℕ → ℤ
unfolding byte signed_of
char_at i buff = signed_of 8 (byte i buff)

unfoldable pub short_at : ℕ → List ℕ → ℤ
unfolding byte signed_of
short_at i buff = signed_of 16 (byte i buff + 256 * byte (i + 1) buff)

unfoldable pub int_at : ℕ → List ℕ → ℤ
unfolding byte signed_of
int_at i buff = signed_of 32 (
    byte i buff
    + 256 * byte (i + 1) buff
    + 65536 * byte (i + 2) buff
    + 16777216 * byte (i + 3) buff)

unfoldable pub resolve_item : List ℕ → Ucac4Item
unfolding char_at short_at int_at
resolve_item buff = record {
  ra = int_at 0 buff;
  spd = int_at 4 buff;
  magm = short_at 8 buff;
  maga = short_at 10 buff;
  sigmag = char_at 12 buff;
  objt = char_at 13 buff;
  cdf = char_at 14 buff;
  sigra = char_at 15 buff;
  sigdc = char_at 16 buff;
  na1 = char_at 17 buff;
  nu1 = char_at 18 buff;
  cu1 = char_at 19 buff;
  cepra = short_at 20 buff;
  cepdc = short_at 22 buff;
  pmrac = short_at 24 buff;
  pmdc = short_at 26 buff;
  sigpmr = char_at 28 buff;
  sigpmd = char_at 29 buff;
  pts_key = int_at 30 buff;
  j_m = short_at 34 buff;
  k_m = short_at 36 buff;
  h_m = short_at 38 buff;
  icqflg = take 3 (drop 40 buff);
  e2mpho = take 3 (drop 43 buff);
  apasm =
      short_at 46 buff
      ∷ short_at 48 buff
      ∷ short_at 50 buff
      ∷ short_at 52 buff
      ∷ short_at 54 buff
      ∷ [];
  apase = take 5 (drop 56 buff);
  gcflg = char_at 61 buff;
  icf = int_at 62 buff;
  leda = char_at 66 buff;
  x2m = char_at 67 buff;
  rnm = int_at 68 buff;
  zn2 = short_at 72 buff;
  rn2 = int_at 74 buff;
}
