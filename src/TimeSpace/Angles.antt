-- ===== src/TimeSpace/Angles.antt =====
-- HourStr2Dbl and DegStr2Dbl of airs/src/ATimeSpace.cpp, which repeat each other but for the sign and
-- the number of digits of the first part. The texts are without their final 0.
use airs.Base.{ℕ, suc, [], ◌∷◌, ◌++◌, Bool, ◌&&◌, ◌||◌, ◌==◌, leb, ltb, length, if◌then◌else◌}
use airs.Base.Int.{ℤ, negsuc}
use airs.Base.Text.{Text, is_digit}
use airs.TimeSpace.Formulas.{Real}

-- An error code, a write behind the end of the buffer, or a result.
pub data Scanned (A : Type 0) : Type 0 where
  failed : ℤ → Scanned A
  overrun : Scanned A
  parsed : A → Scanned A

abbrev pub and_then : {A B : Type 0} → Scanned A → (A → Scanned B) → Scanned B
and_then (Scanned.failed z) f = Scanned.failed z
and_then Scanned.overrun f = Scanned.overrun
and_then (Scanned.parsed a) f = f a

abbrev pub buff_size : ℕ
buff_size = 20

-- The numbers of the first two parts, the `j` characters in the buffer, the part and the dots.
pub record Scan (D : Type 0) : Type 0 where
  pub first : D
  pub second : D
  pub buff : Text
  pub part : ℕ
  pub dot : ℕ

-- How many digits the parts before the last one have at most.
abbrev pub hour_digits : ℕ → ℕ
hour_digits part = 2

abbrev pub degree_digits : ℕ → ℕ
degree_digits part = if part == 0 then 3 else 2

module _ (r : Real) (atof : Text → r.Double) (digits : ℕ → ℕ) where
  -- buff[j++] = ch, and buff[j] = 0.
  unfoldable pub put_char : ℕ → Scan r.Double → Scanned (Scan r.Double)
  put_char c s =
      if ltb (length s.buff) buff_size
      then Scanned.parsed (record s { buff = s.buff ++ c ∷ [] })
      else Scanned.overrun

  unfoldable pub end_text : Scan r.Double → Scanned (Scan r.Double)
  end_text s = if ltb (length s.buff) buff_size then Scanned.parsed s else Scanned.overrun

  -- The number in the buffer is that of the part, and the next part begins.
  unfoldable pub next_part : Scan r.Double → Scan r.Double
  next_part s = record s {
    first = if s.part == 0 then atof s.buff else s.first;
    second = if s.part == 1 then atof s.buff else s.second;
    buff = [];
    part = suc s.part;
  }

  unfoldable pub end_part : Scan r.Double → Scanned (Scan r.Double)
  end_part s = and_then (end_text s) (λ t. Scanned.parsed (next_part t))

  -- The branches of the loop: a digit, a space or colon, and a point.
  unfoldable pub is_full : Scan r.Double → Bool
  is_full s = s.dot == 0 && (leb s.part 1 && length s.buff == digits s.part)

  unfoldable pub scan_digit : ℕ → Scan r.Double → Scanned (Scan r.Double)
  scan_digit c s = if is_full s then and_then (end_part s) (put_char c) else put_char c s

  unfoldable pub at_last : Scan r.Double → Bool
  at_last s = ltb 0 s.dot || leb 2 s.part

  unfoldable pub scan_separator : Scan r.Double → Scanned (Scan r.Double)
  scan_separator s =
      if at_last s
      then Scanned.failed (negsuc 1)
      else if ltb 0 (length s.buff)
      then end_part s
      else Scanned.parsed s

  unfoldable pub scan_point : ℕ → Scan r.Double → Scanned (Scan r.Double)
  scan_point c s =
      if ltb 0 s.dot then Scanned.failed (negsuc 2) else put_char c (record s { dot = suc s.dot })

  unfoldable pub scan_char : ℕ → Scan r.Double → Scanned (Scan r.Double)
  scan_char c s =
      if is_digit c
      then scan_digit c s
      else if c == b' ' || c == b':'
      then scan_separator s
      else if c == b'.'
      then scan_point c s
      else Scanned.failed (negsuc 3)

  unfoldable pub scan_text : Text → Scan r.Double → Scanned (Scan r.Double)
  scan_text [] s = Scanned.parsed s
  scan_text (c ∷ cs) s = and_then (scan_char c s) (λ t. scan_text cs t)

  abbrev pub new_scan : Scan r.Double
  new_scan = record { first = r.lit "0.0"; second = r.lit "0.0"; buff = []; part = 0; dot = 0 }

  unfoldable pub total : Scan r.Double → r.Double
  total s =
      let last = atof s.buff in
      if s.part == 0
      then last
      else if s.part == 1
      then r.add s.first (r.div last (r.lit "60.0"))
      else r.add s.first (r.div (r.add s.second (r.div last (r.lit "60.0"))) (r.lit "60.0"))

  -- From the first character behind the sign on.
  unfoldable pub scan_all : Text → Scanned r.Double
  scan_all cs =
      and_then (scan_text cs new_scan) (λ s. and_then (end_text s) (λ t. Scanned.parsed (total t)))

module _ (r : Real) (atof : Text → r.Double) where
  unfoldable pub hour_str2_dbl : Text → Scanned r.Double
  hour_str2_dbl [] = Scanned.failed (negsuc 0)
  hour_str2_dbl (c ∷ cs) = scan_all r atof hour_digits (c ∷ cs)

  abbrev pub signed : r.Double → Scanned r.Double → Scanned r.Double
  signed sign x = and_then x (λ d. Scanned.parsed (r.mul d sign))

  unfoldable pub deg_str2_dbl : Text → Scanned r.Double
  deg_str2_dbl [] = Scanned.failed (negsuc 0)
  deg_str2_dbl (c ∷ cs) =
      if c == b'+' || c == b'-'
      then signed (if c == b'-' then r.lit "-1.0" else r.lit "1.0")
          (scan_all r atof degree_digits cs)
      else signed (r.lit "1.0") (scan_all r atof degree_digits (c ∷ cs))
