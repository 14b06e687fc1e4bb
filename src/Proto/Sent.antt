-- ===== src/Proto/Sent.antt =====
-- One call of a `Compact*` method that takes a message, up to the line that `Resolve` of
-- airs/src/AsciiProtocol.cpp is given: what has to hold of the class so that the message arrives.
use airs.Base.{
  ℕ, suc, ◌≤◌, ◌≡◌, refl, ap, ◌∙◌, ◌⊎◌, inl, inr, List, [], ◌∷◌, ◌++◌, Bool, true, false, not, ◌&&◌,
  map, All, All-append, Option, none, some, length, arith,
}
use airs.Base.Text.{
  Text, codes, is_empty, is_space, is_separator, is_closing, is_nul, same_letters, lacks, starts,
  ends, IsWord,
}
use airs.Base.Decimal.{ok}
use airs.Host.{Host, HostLaws}
use airs.Proto.Data.{ProtoBase, Msg, Body, set_timetag}
use airs.Proto.Buffer.{AsciiProtocol, Packet, slot_size, output_line, output_compacted}
use airs.Proto.Buffer.Retention.{IsRing, output_line-text}
use airs.Proto.Compact.{Field, field_if, base_fields, join_all, compact_with}
use airs.Proto.Resolve.{resolve_body, resolve}
use airs.Proto.Wire.{spell, IsWords, pair, join_all-append}
use airs.Proto.Line.{IsType, IsOwn, output_compacted-spell, resolve-spell, sort-base_fields}

-- A keyword of a class: a word, and none of the common keywords.
abbrev pub is_word : Text → Bool
is_word t =
    not (is_empty t)
    && lacks is_separator t
    && lacks is_nul t
    && not (starts is_space t)
    && not (ends is_closing t)

abbrev pub is_own : Text → Bool
is_own t =
    not (same_letters t (codes "utc"))
    && not (same_letters t (codes "gid"))
    && not (same_letters t (codes "uid"))
    && not (same_letters t (codes "cid"))

-- A field whose keyword belongs to a class and whose value is a word.
abbrev pub IsGood : Field → Type 0
IsGood f = ((is_word f.0 && is_own f.0) ≡ true) × IsWord f.1

pub is_word-IsWord : (t : Text) → is_word t ≡ true → IsWord t
is_word-IsWord t h = ground arith

is_own-IsOwn : (f : Field) → is_own f.0 ≡ true → IsOwn f
is_own-IsOwn f h = ground arith

All-IsWords : (fs : List Field) → All IsGood fs → All IsWords fs
All-IsWords [] g = tt
All-IsWords (f ∷ fs) g = ((is_word-IsWord f.0 (ground arith), g.0.1), All-IsWords fs g.1)

All-IsOwn : (fs : List Field) → All IsGood fs → All IsOwn fs
All-IsOwn [] g = tt
All-IsOwn (f ∷ fs) g = (is_own-IsOwn f (ground arith), All-IsOwn fs g.1)

pub All-field_if {ℓ} :
    (P : Field → Type ℓ) (b : Bool) (f : Field) (fs : List Field)
    → P f
    → All P fs
    → All P (field_if b f fs)
unfolding field_if
All-field_if P true f fs hf h = (hf, h)
All-field_if P false f fs hf h = h

-- An id is a word, or is not set.
abbrev pub IsId : Text → Type 0
IsId t = (t ≡ []) ⊎ IsWord t

pub record IsAddressed (b : ProtoBase) : Type 0 where
  pub gid : IsId b.gid
  pub uid : IsId b.uid
  pub cid : IsId b.cid

id_field :
    (k t : Text) (fs : List Field)
    → is_word k ≡ true
    → IsId t
    → All IsWords fs
    → All IsWords (field_if (not (is_empty t)) (k, t) fs)
unfolding field_if
id_field k t fs hk (inl e) h = rw e h
id_field k t fs hk (inr w) h = All-field_if IsWords _ (k, t) fs (is_word-IsWord k hk, w) h

base_fields-IsWords :
    (now : Text) (b : ProtoBase)
    → IsWord now
    → IsAddressed b
    → All IsWords (base_fields (set_timetag now b))
base_fields-IsWords now b w a = (
  (is_word-IsWord (codes "utc") refl, w),
  id_field (codes "gid") b.gid _ refl a.gid
      (id_field (codes "uid") b.uid _ refl a.uid (id_field (codes "cid") b.cid [] refl a.cid tt)),
)

-- The line that went out holds the message `m`: without its line end, `Resolve` reads `m` from it.
abbrev pub Arrives : (h : Host) → Option Packet → Msg (Body h.Double) → Type 0
Arrives h none m = ⊥
Arrives h (some k) m =
    (s : Text) × (k.text ≡ s ++ 10 ∷ []) × (k.n ≡ suc (length s)) × (resolve h s ≡ ok (some m))

-- What the method puts out fits a slot with its line end and the final 0.
abbrev pub FitsSlot : Option Packet → Type 0
FitsSlot none = Unit
FitsSlot (some k) = suc k.n ≤ slot_size

length-snoc : (s : Text) (c : ℕ) → length (s ++ c ∷ []) ≡ suc (length s)
length-snoc [] c = refl
length-snoc (a ∷ s) c = ap suc (length-snoc s c)

module _ (h : Host) (l : HostLaws h) where
  -- A line of fields, read back.
  line-resolve :
      (p : AsciiProtocol) (b : ProtoBase) (fs : List Field) (y : Body h.Double)
      → IsRing p
      → IsType b.type
      → All IsWords (base_fields b)
      → All IsGood fs
      → resolve_body h b.type (map pair fs) ≡ ok (some y)
      → let out =
          some
            (output_compacted h p
              (join_all h (join_all h (b.type ++ codes " ") (base_fields b)) fs)).1 in
        FitsSlot out → Arrives h out (record { base = b; body = y })
  unfolding output_line
  line-resolve p b fs y ring t w g e =
      let words = All-append (base_fields b) fs IsWords (All-IsWords fs g) w in
      let line = (b.type ++ codes " ") ++ spell (base_fields b ++ fs) in
      rw
        (
          join_all-append h l (b.type ++ codes " ") (base_fields b) fs,
          output_compacted-spell h l p b.type _ _ t.no_nul words,
        )
        (λ fits. (
          line,
          output_line-text p line ring (omega (arith, fits, length-snoc line 10)),
          length-snoc _ 10,
          resolve-spell h l b.type _ _ _ _ t words (sort-base_fields h l b fs (All-IsOwn fs g))
              ∙ rw e,
        ))

  -- A method that takes a message: what it sends arrives, with the time tag.
  pub compact_with-Arrives :
      {X : Type 0} (valid : X → Bool) (fields : X → List Field) (p : AsciiProtocol) (now : Text)
      (b : ProtoBase) (x : X) (y : Body h.Double)
      → valid x ≡ true
      → IsRing p
      → IsType b.type
      → IsWord now
      → IsAddressed b
      → All IsGood (fields x)
      → resolve_body h b.type (map pair (fields x)) ≡ ok (some y)
      → let out = (compact_with h valid fields p now (some (record { base = b; body = x }))).out in
        FitsSlot out → Arrives h out (record { base = set_timetag now b; body = y })
  unfolding compact_with
  compact_with-Arrives valid fields p now b x y v ring t w a g e =
      rw v
        (line-resolve p (set_timetag now b) (fields x) y ring t (base_fields-IsWords now b w a) g e)
