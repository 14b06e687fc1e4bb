-- ===== src/Proto/Line.antt =====
-- Whole lines: the text that a `Compact*` method puts out, and what `Resolve` of
-- airs/src/AsciiProtocol.cpp does with it before it looks at the fields of a class.
use airs.Base.{
  ◌≡◌, refl, ap, ◌∙◌, List, [], ◌∷◌, ◌++◌, true, false, ◌==◌, map, append_assoc, append-nil, All,
  arith,
}
use airs.Base.Text.{
  Text, codes, is_empty, is_space, same_letters, is_closing, is_nul, c_str, c_str_fixed, lacks,
  lacks-append, starts, ends, ends-append,
}
use airs.Base.Decimal.{◌>>=◌}
use airs.Host.{Host, HostLaws}
use airs.Proto.Data.{ProtoBase}
use airs.Proto.Init.{blank}
use airs.Proto.Pairs.{KeyVal}
use airs.Proto.Buffer.{AsciiProtocol, output_line, output_compacted}
use airs.Proto.Compact.{field_if, Field, base_fields, join_all}
use airs.Proto.Resolve.{
  type_part, skip_blanks, after_type, sort_pair, resolve_body, with_base, pairs_of, resolve,
}
use airs.Proto.Wire.{
  spell, IsWords, pair, spell-ends, spell-lacks_nul, spell-starts, spell-filled, join_all-spell,
  split-spell, sort_fields, resolve_kv_array-spell,
}

-- A type word, with no space in it.
pub record IsType (t : Text) : Type 0 where
  pub filled : is_empty t ≡ false
  pub one_piece : lacks (λ c. c == b' ') t ≡ true
  pub no_nul : lacks is_nul t ≡ true

type_part-type : (t s : Text) → lacks (λ c. c == b' ') t ≡ true → type_part (t ++ b' ' ∷ s) ≡ t
unfolding type_part
type_part-type [] s h = refl
type_part-type (c ∷ t) s h = ground (arith, type_part-type t s)

skip_blanks_fixed : (s : Text) → starts (λ c. c == b' ') s ≡ false → skip_blanks s ≡ s
unfolding skip_blanks
skip_blanks_fixed [] h = refl
skip_blanks_fixed (c ∷ s) h = ground arith

after_type-type :
    (t s : Text)
    → lacks (λ c. c == b' ') t ≡ true
    → starts (λ c. c == b' ') s ≡ false
    → after_type (t ++ b' ' ∷ s) ≡ s
unfolding after_type skip_blanks
after_type-type [] s h k = skip_blanks_fixed s k
after_type-type (c ∷ t) s h k = ground (arith, after_type-type t s)

starts_blank : (s : Text) → starts is_space s ≡ false → starts (λ c. c == b' ') s ≡ false
starts_blank [] h = refl
starts_blank (c ∷ s) h = ground arith

-- The keyword is none of the common ones.
pub record IsOwn (f : Field) : Type 0 where
  pub no_utc : same_letters f.0 (codes "utc") ≡ false
  pub no_gid : same_letters f.0 (codes "gid") ≡ false
  pub no_uid : same_letters f.0 (codes "uid") ≡ false
  pub no_cid : same_letters f.0 (codes "cid") ≡ false

module _ (h : Host) (l : HostLaws h) where
  -- The text that goes out when the fields are words: no comma at the end, and a line end.
  pub output_compacted-spell :
      (p : AsciiProtocol) (head : Text) (f : Field) (fs : List Field)
      → lacks is_nul head ≡ true
      → All IsWords (f ∷ fs)
      → output_compacted h p (join_all h (head ++ codes " ") (f ∷ fs))
        ≡ output_line p ((head ++ codes " ") ++ spell (f ∷ fs))
  unfolding output_compacted
  output_compacted-spell p head f fs z w = ap (output_line p) (
      rw (join_all-spell h l (head ++ codes " ") f fs) (
        ap c_str (
          l.trim_right_if_cut is_closing _ b',' refl
            (ends_lem (head ++ codes " ") _ (spell-filled f fs w.0) (spell-ends f fs w)))
        ∙ c_str_fixed _ (
            lacks-append is_nul (head ++ codes " ") _ (lacks-append is_nul head _ z refl)
              (spell-lacks_nul (f ∷ fs) w))))
    where
      ends_lem :
          (s t : Text)
          → is_empty t ≡ false
          → ends is_closing t ≡ false
          → ends is_closing (s ++ t) ≡ false
      ends_lem s [] e k = cc
      ends_lem s (c ∷ t) e k = ends-append is_closing s c t ∙ k

  -- The part of `Resolve` before the class: type word, tokens, pairs.
  pub resolve-spell :
      (t : Text) (f : Field) (fs : List Field) (kvs : List KeyVal) (basis : ProtoBase)
      → IsType t
      → All IsWords (f ∷ fs)
      → sort_fields h l (f ∷ fs) ([], blank) ≡ (kvs, basis)
      → resolve h ((t ++ codes " ") ++ spell (f ∷ fs))
        ≡ (resolve_body h t kvs >>= with_base (record basis { type = t }))
  unfolding resolve pairs_of
  resolve-spell t f fs kvs basis ht w e = rw (
    append_assoc t (codes " ") (spell (f ∷ fs)),
    type_part-type t (spell (f ∷ fs)) ht.one_piece,
    after_type-type t (spell (f ∷ fs)) ht.one_piece
        (spell-starts _ f fs w.0.0 ∙ starts_blank f.0 w.0.0.no_space_first),
    ht.filled,
    spell-filled f fs w.0,
    split-spell h l f fs w,
    resolve_kv_array-spell h l (f ∷ fs) ([], blank) w,
    e,
  )

  -- Fields of a class go to the pairs, in their order.
  sort_own :
      (fs : List Field) (kvs : List KeyVal) (basis : ProtoBase)
      → All IsOwn fs
      → sort_fields h l fs (kvs, basis) ≡ (kvs ++ map pair fs, basis)
  unfolding sort_pair
  sort_own [] kvs basis o = rw (append-nil kvs)
  sort_own ((k, v) ∷ fs) kvs basis o =
      rw
        (
          l.iequals_letters k (codes "utc"),
          l.iequals_letters k (codes "gid"),
          l.iequals_letters k (codes "uid"),
          l.iequals_letters k (codes "cid"),
          o.0.no_utc,
          o.0.no_gid,
          o.0.no_uid,
          o.0.no_cid,
        )
        (sort_own fs (kvs ++ pair (k, v) ∷ []) basis o.1
          ∙ ap (λ (ps : List KeyVal). (ps, basis))
              (append_assoc kvs (pair (k, v) ∷ []) (map pair fs)))

  -- The common fields come back as they were, an empty one too, which is not sent.
  pub sort-base_fields :
      (b : ProtoBase) (fs : List Field)
      → All IsOwn fs
      → sort_fields h l (base_fields b ++ fs) ([], blank) ≡ (map pair fs, record b { type = [] })
  unfolding sort_pair field_if
  sort-base_fields b fs o = sort_ids b.gid b.uid b.cid
    where
      sort_ids :
          (g u c : Text)
          → sort_fields h l
              (base_fields (record { type = []; utc = b.utc; gid = g; uid = u; cid = c }) ++ fs)
              ([], blank)
            ≡ (map pair fs, record { type = []; utc = b.utc; gid = g; uid = u; cid = c })
      sort_ids [] [] [] = simp l.iequals_letters (sort_own fs [] _ o)
      sort_ids [] [] (_ ∷ _) = simp l.iequals_letters (sort_own fs [] _ o)
      sort_ids [] (_ ∷ _) [] = simp l.iequals_letters (sort_own fs [] _ o)
      sort_ids [] (_ ∷ _) (_ ∷ _) = simp l.iequals_letters (sort_own fs [] _ o)
      sort_ids (_ ∷ _) [] [] = simp l.iequals_letters (sort_own fs [] _ o)
      sort_ids (_ ∷ _) [] (_ ∷ _) = simp l.iequals_letters (sort_own fs [] _ o)
      sort_ids (_ ∷ _) (_ ∷ _) [] = simp l.iequals_letters (sort_own fs [] _ o)
      sort_ids (_ ∷ _) (_ ∷ _) (_ ∷ _) = simp l.iequals_letters (sort_own fs [] _ o)
