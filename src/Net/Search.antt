-- ===== src/Net/Search.antt =====
-- What TCPClient::Lookup of airs/src/tcpasio.cpp finds.
use airs.Base.{
  ℕ, zero, suc, ◌+◌, ◌-◌, ◌≤◌, ◌<◌, ◌≡◌, refl, ◌⊎◌, inl, inr, List, [], ◌∷◌, false, Option, none,
  some, length, sym, ◌∙◌, ltb, if◌then◌else◌, take, drop, ◌==◌, arith, Bool-cases, Option-cases,
}
use airs.Base.Int.{pos, negsuc}
use airs.Net.Circular.{Circular}
use airs.Net.Client.{Client, received_bytes, received_size}
use airs.Net.Transfer.{agree, scan, lookup}

-- The flag stands in the bytes at a position.
abbrev pub Occurs : List ℕ → List ℕ → ℕ → Type 0
Occurs flag bytes at = take (length flag) (drop at bytes) ≡ flag

agree_sound :
    (flag bytes : List ℕ)
    → agree (length flag) flag bytes ≡ length flag
    → take (length flag) bytes ≡ flag
unfolding agree
agree_sound [] bytes h = refl
agree_sound (f ∷ flag) [] h = cc
agree_sound (f ∷ flag) (b ∷ bytes) h = ground (arith, agree_sound flag bytes)

agree_complete :
    (flag bytes : List ℕ)
    → take (length flag) bytes ≡ flag
    → agree (length flag) flag bytes ≡ length flag
unfolding agree
agree_complete [] bytes h = refl
agree_complete (f ∷ flag) [] h = cc
agree_complete (f ∷ flag) (b ∷ bytes) h = ground (arith, agree_complete flag bytes)

-- A hit is an occurrence at or behind the first position, within the range.
scan_sound :
    (flag bytes : List ℕ) (left at k : ℕ)
    → scan flag (length flag) bytes left at ≡ some k
    → (at ≤ k) × (k < at + left) × Occurs flag bytes k
unfolding scan
scan_sound flag bytes zero at k h = cc
scan_sound flag bytes (suc left) at k h =
    ground (arith, agree_sound flag (drop at bytes), scan_sound flag bytes left (at + 1) k)

-- Where the flag occurs in the range, there is a hit at or before that place.
scan_complete :
    (flag bytes : List ℕ) (left at j : ℕ)
    → at ≤ j
    → j < at + left
    → Occurs flag bytes j
    → (k : ℕ) × (scan flag (length flag) bytes left at ≡ some k) × (k ≤ j)
unfolding scan
scan_complete flag bytes zero at j h k o = absurd (omega arith)
scan_complete flag bytes (suc left) at j h k o =
    elim (Bool-cases (agree (length flag) flag (drop at bytes) == length flag)) [
      | inl hit ↦ (at, rw hit, h)
      | inr miss ↦
          let (k', e, le) = scan_complete flag bytes left (at + 1) j (later miss) (omega arith) o in
          (k', rw miss e, le)
    ]
  where
    later : (agree (length flag) flag (drop at bytes) == length flag) ≡ false → at + 1 ≤ j
    later miss = ground (arith, agree_complete flag (drop j bytes))

found_none : (k : ℕ) → Path (Option ℕ) none (some k) → ⊥
found_none k e = cc e

module _ (C : Circular) (f : ℕ) (flag : List ℕ) (from : ℕ) (c : Client C) where
  abbrev whole : List ℕ
  whole = f ∷ flag

  pub lookup-occurrence :
      (j : ℕ)
      → from ≤ j
      → j + length whole ≤ received_size C c
      → Occurs whole (received_bytes C c) j
      → (k : ℕ) × (lookup C (some whole) (pos (length whole)) (pos from) c ≡ pos k)
        × (from ≤ k)
        × (k ≤ j)
        × Occurs whole (received_bytes C c) k
  unfolding lookup
  lookup-occurrence j h b o =
      let (k, e, le) =
        scan_complete whole (received_bytes C c) (received_size C c + 1 - (length whole + from))
          from j h (omega arith) o in
      let (ge, lt, occ) = scan_sound whole (received_bytes C c) _ from k e in (k, rw e, ge, le, occ)

  -- No occurrence from `from` to below `before`.
  abbrev pub NoneBelow : ℕ → Type 0
  NoneBelow before =
      (j : ℕ)
      → from ≤ j
      → j < before
      → j + length whole ≤ received_size C c
      → Occurs whole (received_bytes C c) j
      → ⊥

  range_end :
      (j : ℕ)
      → from ≤ j
      → j + length whole ≤ received_size C c
      → j < from + (received_size C c + 1 - (length whole + from))
  range_end j h b = omega arith

  none_before :
      (k : ℕ)
      → scan whole
          (length whole)
          (received_bytes C c)
          (received_size C c + 1 - (length whole + from))
          from
        ≡ some k
      → NoneBelow k
  none_before k e j h lt b o =
      let (k', e', le) =
        scan_complete whole (received_bytes C c) (received_size C c + 1 - (length whole + from))
          from j h (range_end j h b) o in
      let same : k' ≡ k = cc (e, e') in absurd (omega arith)

  none_at_all :
      scan whole
          (length whole)
          (received_bytes C c)
          (received_size C c + 1 - (length whole + from))
          from
        ≡ none
      → NoneBelow (received_size C c)
  none_at_all e j h lt b o =
      let (k', e', le) =
        scan_complete whole (received_bytes C c) (received_size C c + 1 - (length whole + from))
          from j h (range_end j h b) o in
      absurd (found_none k' (sym e ∙ e'))

  -- Lookup of a flag that is not empty returns the position of the first occurrence within the
  -- bytes received, from the start position on; if there is none, it returns -1 while fewer bytes
  -- wait than a packet and the flag together have, and else the number of bytes less the flag's
  -- length, which is not -1.
  pub lookup-cases :
      (NoneBelow (received_size C c)
        × (lookup C (some whole) (pos (length whole)) (pos from) c ≡ (
            if ltb (received_size C c) (1500 + length whole)
            then negsuc 0
            else pos (received_size C c - length whole))))
      ⊎ ((k : ℕ) × (lookup C (some whole) (pos (length whole)) (pos from) c ≡ pos k)
          × (from ≤ k)
          × (k + length whole ≤ received_size C c)
          × Occurs whole (received_bytes C c) k
          × NoneBelow k)
  unfolding lookup
  lookup-cases =
      elim (Option-cases (
        scan whole (length whole) (received_bytes C c)
          (received_size C c + 1 - (length whole + from)) from)) [
            | inl e ↦ inl (none_at_all e, rw e)
            | inr (k, e) ↦
                let (ge, lt, occ) = scan_sound whole (received_bytes C c) _ from k e in
                inr (k, rw e, ge, omega arith, occ, none_before k e)
          ]
