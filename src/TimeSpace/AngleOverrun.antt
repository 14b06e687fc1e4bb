-- ===== src/TimeSpace/AngleOverrun.antt =====
-- HourStr2Dbl of airs/src/ATimeSpace.cpp on a long fraction.
use airs.Base.{
  ℕ, ◌+◌, ◌≡◌, ◌≤◌, refl, [], ◌∷◌, ◌++◌, Bool, true, false, ltb, length, arith, All, Bool-cases,
  inl, inr, length-append, ◌==◌, ◌&&◌, leb, subst, sym,
}
use airs.Base.Text.{Text, is_digit}
use airs.TimeSpace.Formulas.{Real}
use airs.TimeSpace.Angles.{
  Scanned, and_then, buff_size, Scan, hour_digits, put_char, end_text, is_full, scan_digit,
  scan_char, scan_point, scan_text, new_scan, total, scan_all, hour_str2_dbl,
}

module _ (r : Real) (atof : Text → r.Double) where
  -- What stands behind the loop.
  abbrev finished : Scanned (Scan r.Double) → Scanned r.Double
  finished x = and_then x (λ s.
      and_then (end_text r atof hour_digits s) (λ t. Scanned.parsed (total r atof hour_digits t)))

  no_room : (n : ℕ) → buff_size ≤ n → ltb n buff_size ≡ false
  no_room n h = ground arith

  put_char-room :
      (d : ℕ) (s : Scan r.Double)
      → ltb (length s.buff) buff_size ≡ true
      → put_char r atof hour_digits d s ≡ Scanned.parsed (record s { buff = s.buff ++ d ∷ [] })
  unfolding put_char
  put_char-room d s h = rw h refl

  put_char-full :
      (d : ℕ) (s : Scan r.Double)
      → ltb (length s.buff) buff_size ≡ false
      → put_char r atof hour_digits d s ≡ Scanned.overrun
  unfolding put_char
  put_char-full d s h = rw h refl

  behind_point : (n : ℕ) (b : Bool) → n ≡ 1 → (n == 0 && b) ≡ false
  behind_point n b h = ground arith

  scan_char-digit :
      (d : ℕ) (s : Scan r.Double)
      → is_digit d ≡ true
      → s.dot ≡ 1
      → scan_char r atof hour_digits d s ≡ put_char r atof hour_digits d s
  unfolding scan_char scan_digit is_full
  scan_char-digit d s h p = rw (h, behind_point s.dot (leb s.part 1 && length s.buff == 2) p) refl

  -- Behind a point, digits are put into the buffer until it is full.
  scan_text-digits :
      (ds : Text) (s : Scan r.Double)
      → All (λ d. is_digit d ≡ true) ds
      → s.dot ≡ 1
      → buff_size ≤ length s.buff + length ds
      → finished (scan_text r atof hour_digits ds s) ≡ Scanned.overrun
  unfolding scan_text end_text
  scan_text-digits [] s a p h = rw (no_room (length s.buff) (omega (arith, h))) refl
  scan_text-digits (d ∷ ds) s (digit, a) p h = elim (Bool-cases (ltb (length s.buff) buff_size)) [
    | inl room ↦
        rw (scan_char-digit d s digit p, put_char-room d s room)
          (scan_text-digits ds (record s { buff = s.buff ++ d ∷ [] }) a p
            (subst (λ k. buff_size ≤ k + length ds) (sym (length-append s.buff (d ∷ [])))
              (omega (arith, h))))
    | inr full ↦ rw (scan_char-digit d s digit p, put_char-full d s full) refl
  ]

  -- If a text is a point followed by at least 19 digits, HourStr2Dbl writes behind the end of its
  -- buffer.
  pub hour_str2_dbl-overrun :
      (ds : Text)
      → All (λ d. is_digit d ≡ true) ds
      → 19 ≤ length ds
      → hour_str2_dbl r atof (b'.' ∷ ds) ≡ Scanned.overrun
  unfolding hour_str2_dbl scan_all scan_text scan_char scan_point put_char
  hour_str2_dbl-overrun ds a h =
      scan_text-digits ds (record (new_scan r atof hour_digits) { buff = b'.' ∷ []; dot = 1 }) a
        refl (omega (arith, h))
