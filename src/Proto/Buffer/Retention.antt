-- ===== src/Proto/Buffer/Retention.antt =====
-- A text that `output_compacted` of airs/src/AsciiProtocol.cpp returns stays in its slot while the
-- next nine lines are put out. A line of more than 1022 characters would run into the next slot.
use airs.Base.{
  ℕ, suc, zero, ◌+◌, ◌*◌, ◌≤◌, ◌<◌, ◌≡◌, refl, ap, sym, ◌∙◌, ◌-◌, take, ◌⊎◌, inl, inr, List, [],
  ◌∷◌, ◌++◌, get_elem?, set, length, length-set, length-append, get_elem?-set_self,
  get_elem?-set_ne, All, arith,
}
use native.Mathlib.Nat.{add-zero}
use airs.Base.Text.{Text}
use airs.Proto.Buffer.{AsciiProtocol, slot_size, slots, poke, output_line}

-- The constructor's block, and an index into it.
pub record IsRing (p : AsciiProtocol) : Type 0 where
  pub index : p.ibuf < slots
  pub size : length p.buff ≡ slot_size * slots

-- A line that fits a slot with its line end and the final 0.
abbrev pub IsShort : Text → Type 0
IsShort s = length s + 2 ≤ slot_size

-- One line after another.
pub outputs : List Text → AsciiProtocol → AsciiProtocol
outputs [] p = p
outputs (s ∷ ss) p = outputs ss (output_line p s).0

length-poke : (mem : List ℕ) (i : ℕ) (s : Text) → length (poke mem i s) ≡ length mem
unfolding poke
length-poke mem i [] = refl
length-poke mem i (c ∷ s) = length-poke (set mem i c) (i + 1) s ∙ length-set mem i c

-- Outside of the written range nothing changes.
poke_outside :
    (mem : List ℕ) (i : ℕ) (s : Text) (j : ℕ)
    → (j < i) ⊎ (i + length s ≤ j)
    → get_elem? (poke mem i s) j ≡ get_elem? mem j
unfolding poke
poke_outside mem i [] j o = refl
poke_outside mem i (c ∷ s) j o =
    poke_outside (set mem i c) (i + 1) s j (omega arith) ∙ get_elem?-set_ne mem i j c (omega arith)

-- Inside of it the text stands.
poke_inside :
    (mem : List ℕ) (i : ℕ) (s : Text) (k : ℕ)
    → i + length s ≤ length mem
    → k < length s
    → get_elem? (poke mem i s) (i + k) ≡ get_elem? s k
unfolding poke
poke_inside mem i [] k h b = elim b [ ]
poke_inside mem i (c ∷ s) zero h b = rw (add-zero i) (
    poke_outside (set mem i c) (i + 1) s i (omega arith) ∙ get_elem?-set_self mem i c (omega arith))
poke_inside mem i (c ∷ s) (suc k) h b =
    let shift : i + suc k ≡ i + 1 + k = omega arith in
    rw shift
      (poke_inside (set mem i c) (i + 1) s k (omega (arith, length-set mem i c)) (omega arith))

line_length : (s : Text) → length ((s ++ 10 ∷ []) ++ 0 ∷ []) ≡ length s + 2
line_length s = omega (arith, length-append s (10 ∷ []), length-append (s ++ 10 ∷ []) (0 ∷ []))

output_line-IsRing : (p : AsciiProtocol) (s : Text) → IsRing p → IsRing (output_line p s).0
unfolding output_line
output_line-IsRing p s r = record {
  index = ground arith;
  size = length-poke p.buff (p.ibuf * slot_size) ((s ++ 10 ∷ []) ++ 0 ∷ []) ∙ r.size;
}

-- The next call is `d` slots before the slot, going round.
abbrev Ahead : AsciiProtocol → ℕ → ℕ → Type 0
Ahead p d slot = (p.ibuf + d ≡ slot) ⊎ (p.ibuf + d ≡ slot + slots)

-- A line goes to its own slot, and the next one follows it.
output_line-keeps :
    (p : AsciiProtocol) (s : Text) (d slot i : ℕ)
    → IsRing p
    → IsShort s
    → Ahead p (suc d) slot
    → suc d < slots
    → i < slot_size
    → get_elem? (output_line p s).0.buff (slot * slot_size + i)
      ≡ get_elem? p.buff (slot * slot_size + i)
unfolding output_line
output_line-keeps p s d slot i r h a hd hi =
    poke_outside p.buff (p.ibuf * slot_size) ((s ++ 10 ∷ []) ++ 0 ∷ []) (slot * slot_size + i)
      (apart a)
  where
    apart :
        Ahead p (suc d) slot
        → (slot * slot_size + i < p.ibuf * slot_size)
          ⊎ (p.ibuf * slot_size + length ((s ++ 10 ∷ []) ++ 0 ∷ []) ≤ slot * slot_size + i)
    apart (inl e) = inr (omega (arith, line_length s))
    apart (inr e) = inl (omega arith)

output_line-Ahead :
    (p : AsciiProtocol) (s : Text) (d slot : ℕ)
    → IsRing p
    → Ahead p (suc d) slot
    → slot < slots
    → suc d < slots
    → Ahead (output_line p s).0 d slot
unfolding output_line
output_line-Ahead p s d slot r a hs hd = ground arith

outputs-keep :
    (ss : List Text) (p : AsciiProtocol) (d slot i : ℕ)
    → IsRing p
    → All IsShort ss
    → length ss ≤ d
    → d < slots
    → slot < slots
    → Ahead p d slot
    → i < slot_size
    → get_elem? (outputs ss p).buff (slot * slot_size + i) ≡ get_elem? p.buff (slot * slot_size + i)
unfolding outputs
outputs-keep [] p d slot i r h n hd hs a hi = refl
outputs-keep (s ∷ ss) p zero slot i r h n hd hs a hi = elim n [ ]
outputs-keep (s ∷ ss) p (suc d) slot i r h n hd hs a hi =
    outputs-keep ss (output_line p s).0 d slot i (output_line-IsRing p s r) h.1 (omega arith)
      (omega arith) hs (output_line-Ahead p s d slot r a hs hd) hi
    ∙ output_line-keeps p s d slot i r h.0 a hd hi

get_elem?-append_left : (s t : Text) (i : ℕ) → i < length s → get_elem? (s ++ t) i ≡ get_elem? s i
get_elem?-append_left [] t i h = elim h [ ]
get_elem?-append_left (c ∷ s) t zero h = refl
get_elem?-append_left (c ∷ s) t (suc i) h = get_elem?-append_left s t i (omega arith)

-- Just after the call the text is in its slot.
output_line-writes :
    (p : AsciiProtocol) (s : Text) (i : ℕ)
    → IsRing p
    → IsShort s
    → i < length s + 1
    → get_elem? (output_line p s).0.buff (p.ibuf * slot_size + i) ≡ get_elem? (s ++ 10 ∷ []) i
unfolding output_line
output_line-writes p s i r h hi =
    poke_inside p.buff (p.ibuf * slot_size) ((s ++ 10 ∷ []) ++ 0 ∷ []) i
      (omega (arith, line_length s, r.index, r.size)) (omega (arith, line_length s))
    ∙ get_elem?-append_left (s ++ 10 ∷ []) (0 ∷ []) i (omega (arith, length-append s (10 ∷ [])))

output_line-comes_round :
    (p : AsciiProtocol) (s : Text) → IsRing p → Ahead (output_line p s).0 9 p.ibuf
unfolding output_line
output_line-comes_round p s r = ground arith

take_all : (n : ℕ) (s : Text) → length s ≤ n → take n s ≡ s
take_all zero [] h = refl
take_all zero (c ∷ s) h = absurd (omega arith)
take_all (suc n) [] h = refl
take_all (suc n) (c ∷ s) h = ap (λ t. c ∷ t) (take_all n s (omega arith))

-- The text of a short line is the line.
pub output_line-text :
    (p : AsciiProtocol) (s : Text) → IsRing p → IsShort s → (output_line p s).1.text ≡ s ++ 10 ∷ []
unfolding output_line
output_line-text p s r h =
    take_all (length p.buff - p.ibuf * slot_size) (s ++ 10 ∷ [])
      (omega (arith, r.index, r.size, length-append s (10 ∷ [])))

-- With the index below ten and the block of ten slots, and lines of at most 1022 characters, a
-- text that output_compacted puts out can be read at its address after up to nine more lines.
pub output_line-outputs :
    (p : AsciiProtocol) (s : Text) (ss : List Text) (i : ℕ)
    → IsRing p
    → IsShort s
    → All IsShort ss
    → length ss ≤ 9
    → i < length s + 1
    → get_elem? (outputs ss (output_line p s).0).buff ((output_line p s).1.at + i)
      ≡ get_elem? (output_line p s).1.text i
unfolding output_line
output_line-outputs p s ss i r h hs n hi =
    outputs-keep ss (output_line p s).0 9 p.ibuf i (output_line-IsRing p s r) hs n (omega arith)
      r.index (output_line-comes_round p s r) (omega arith)
    ∙ output_line-writes p s i r h hi
    ∙ ap (λ t. get_elem? t i) (sym (output_line-text p s r h))
