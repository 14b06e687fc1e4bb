-- ===== src/Proto/Wire.antt =====
-- The text of a line, apart from the two directions: how `Compact*` of airs/src/AsciiProtocol.cpp
-- spells fields, and what `resolve_kv` and `boost::split` make of that text.
use airs.Base.{
  ℕ, ◌≡◌, refl, ap, ◌∙◌, sym, List, [], ◌∷◌, ◌++◌, Bool, true, false, ◌==◌, map, append_assoc, All,
  arith,
}
use airs.Base.Text.{
  Text, is_empty, is_space, is_separator, is_closing, is_nul, lacks, lacks-append, starts, ends,
  ends-append, IsWord,
}
use airs.Host.{Host, HostLaws}
use airs.Proto.Data.{ProtoBase}
use airs.Proto.Pairs.{KeyVal}
use airs.Proto.Compact.{Field, join_kv, join_all}
use airs.Proto.Resolve.{resolve_kv, sort_pair, resolve_kv_array}

abbrev pub spell_field : Field → Text
spell_field (k, v) = k ++ b'=' ∷ v

-- The fields of a line, with a comma between two.
abbrev pub spell : List Field → Text
spell [] = []
spell (f ∷ []) = spell_field f
spell (f ∷ g ∷ fs) = spell_field f ++ b',' ∷ spell (g ∷ fs)

abbrev pub IsWords : Field → Type 0
IsWords f = IsWord f.0 × IsWord f.1

abbrev pub pair : Field → KeyVal
pair (k, v) = record { keyword = k; value = v }

is_comma : ℕ → Bool
is_comma c = c == b','

is_equals : ℕ → Bool
is_equals c = c == b'='

lacks-separator :
    (s : Text)
    → lacks is_separator s ≡ true
    → (lacks (λ c. c == b',') s ≡ true) × (lacks (λ c. c == b'=') s ≡ true)
lacks-separator [] h = (refl, refl)
lacks-separator (c ∷ s) h = ground (arith, lacks-separator s)

starts-separator :
    (s : Text)
    → lacks is_separator s ≡ true
    → (starts (λ c. c == b',') s ≡ false) × (starts (λ c. c == b'=') s ≡ false)
starts-separator [] h = (refl, refl)
starts-separator (c ∷ s) h = ground arith

ends-space : (s : Text) → ends is_closing s ≡ false → ends is_space s ≡ false
ends-space [] h = refl
ends-space (c ∷ []) h = ground arith
ends-space (c ∷ d ∷ s) h = ends-space (d ∷ s) h

lacks_comma-append :
    (s t : Text)
    → lacks (λ c. c == b',') s ≡ true
    → lacks (λ c. c == b',') t ≡ true
    → lacks (λ c. c == b',') (s ++ t) ≡ true
lacks_comma-append [] t h k = k
lacks_comma-append (c ∷ s) t h k = ground (arith, lacks_comma-append s t)

spell_field-lacks :
    (k v : Text) → IsWord k → IsWord v → lacks (λ c. c == b',') (k ++ b'=' ∷ v) ≡ true
spell_field-lacks k v hk hv =
    lacks_comma-append k (b'=' ∷ v) (lacks-separator k hk.one_piece).0
      (lacks-separator v hv.one_piece).0

starts-append : (p : ℕ → Bool) (s t : Text) → is_empty s ≡ false → starts p (s ++ t) ≡ starts p s
starts-append p [] t h = cc
starts-append p (c ∷ s) t h = refl

pub spell-starts :
    (p : ℕ → Bool) (f : Field) (fs : List Field)
    → IsWord f.0
    → starts p (spell (f ∷ fs)) ≡ starts p f.0
spell-starts p (k, v) [] w = starts-append p k (b'=' ∷ v) w.filled
spell-starts p (k, v) (g ∷ fs) w =
    rw (append_assoc k (b'=' ∷ v) (b',' ∷ spell (g ∷ fs))) (starts-append p k _ w.filled)

ends-cons : (p : ℕ → Bool) (c : ℕ) (s : Text) → is_empty s ≡ false → ends p (c ∷ s) ≡ ends p s
ends-cons p c [] h = cc
ends-cons p c (d ∷ s) h = refl

pub spell-filled : (f : Field) (fs : List Field) → IsWords f → is_empty (spell (f ∷ fs)) ≡ false
spell-filled (k, v) [] w = ground-filled k (b'=' ∷ v) w.0.filled
  where
    ground-filled : (s t : Text) → is_empty s ≡ false → is_empty (s ++ t) ≡ false
    ground-filled [] t h = cc
    ground-filled (c ∷ s) t h = refl
spell-filled (k, v) (g ∷ fs) w = append-filled k (b'=' ∷ v) (b',' ∷ spell (g ∷ fs)) w.0.filled
  where
    append-filled : (s t u : Text) → is_empty s ≡ false → is_empty (s ++ t ++ u) ≡ false
    append-filled [] t u h = cc
    append-filled (c ∷ s) t u h = refl

-- A line ends as its last value does.
pub spell-ends :
    (f : Field) (fs : List Field) → All IsWords (f ∷ fs) → ends is_closing (spell (f ∷ fs)) ≡ false
spell-ends (k, v) [] w =
    ends-append is_closing k b'=' v
    ∙ ends-cons is_closing b'=' v w.0.1.filled
    ∙ w.0.1.no_closing_last
spell-ends (k, v) (g ∷ fs) w =
    ends-append is_closing (k ++ b'=' ∷ v) b',' (spell (g ∷ fs))
    ∙ ends-cons is_closing b',' (spell (g ∷ fs)) (spell-filled g fs w.1.0)
    ∙ spell-ends g fs w.1

spell_field-lacks_nul : (f : Field) → IsWords f → lacks is_nul (spell_field f) ≡ true
spell_field-lacks_nul (k, v) w = lacks-append is_nul k (b'=' ∷ v) w.0.no_nul w.1.no_nul

pub spell-lacks_nul : (fs : List Field) → All IsWords fs → lacks is_nul (spell fs) ≡ true
spell-lacks_nul [] w = refl
spell-lacks_nul (f ∷ []) w = spell_field-lacks_nul f w.0
spell-lacks_nul (f ∷ g ∷ fs) w =
    lacks-append is_nul (spell_field f) (b',' ∷ spell (g ∷ fs)) (spell_field-lacks_nul f w.0)
      (spell-lacks_nul (g ∷ fs) w.1)

module _ (h : Host) (l : HostLaws h) where
  pub join_all-append :
      (out : Text) (fs gs : List Field)
      → join_all h (join_all h out fs) gs ≡ join_all h out (fs ++ gs)
  unfolding join_all
  join_all-append out [] gs = refl
  join_all-append out (f ∷ fs) gs = join_all-append (join_kv h out f) fs gs

  -- The fields joined one by one are spelled with a comma after each.
  pub join_all-spell :
      (out : Text) (f : Field) (fs : List Field)
      → join_all h out (f ∷ fs) ≡ (out ++ spell (f ∷ fs)) ++ b',' ∷ []
  unfolding join_all
  join_all-spell out (k, v) [] =
      rw (l.format_kv_lem k v) (sym (append_assoc out (k ++ b'=' ∷ v) (b',' ∷ [])))
  join_all-spell out (k, v) (g ∷ fs) =
      rw (join_all-spell (join_kv h out (k, v)) g fs, join_kv, l.format_kv_lem k v)
        (simp append_assoc)

  -- The text between two commas is one token.
  pub split-spell :
      (f : Field) (fs : List Field)
      → All IsWords (f ∷ fs)
      → h.split (λ c. c == b',') (spell (f ∷ fs)) ≡ map spell_field (f ∷ fs)
  split-spell (k, v) [] w = l.split_one _ _ (spell_field-lacks k v w.0.0 w.0.1)
  split-spell (k, v) (g ∷ fs) w =
      l.split_at (λ c. c == b',') (k ++ b'=' ∷ v) b',' (spell (g ∷ fs))
        (spell_field-lacks k v w.0.0 w.0.1) refl
        (spell-starts _ g fs w.1.0.0 ∙ (starts-separator g.0 w.1.0.0.one_piece).0)
      ∙ ap (◌∷◌ (k ++ b'=' ∷ v)) (split-spell g fs w.1)

  trim_word : (s : Text) → IsWord s → h.trim s ≡ s
  trim_word s w = l.trim_fixed s w.no_space_first (ends-space s w.no_closing_last)

  -- A spelled field is read back as the keyword and the value that it was made of.
  pub resolve_kv-spell_field :
      (k v : Text) → IsWord k → IsWord v → resolve_kv h (spell_field (k, v)) ≡ (pair (k, v), true)
  unfolding resolve_kv
  resolve_kv-spell_field k v hk hv = rw (
    l.split_at (λ c. c == b'=') k b'=' v (lacks-separator k hk.one_piece).1 refl
        (starts-separator v hv.one_piece).1,
    l.split_one (λ c. c == b'=') v (lacks-separator v hv.one_piece).1,
    trim_word k hk,
    trim_word v hv,
    hk.filled,
    hv.filled,
  )

  -- The common fields and the others of a list of fields, in the order of the list.
  abbrev pub sort_fields : List Field → List KeyVal × ProtoBase → List KeyVal × ProtoBase
  sort_fields [] acc = acc
  sort_fields (f ∷ fs) acc = sort_fields fs (sort_pair h (pair f) acc)

  pub resolve_kv_array-spell :
      (fs : List Field) (acc : List KeyVal × ProtoBase)
      → All IsWords fs
      → resolve_kv_array h (map spell_field fs) acc ≡ sort_fields fs acc
  unfolding resolve_kv_array
  resolve_kv_array-spell [] acc w = refl
  resolve_kv_array-spell ((k, v) ∷ fs) acc w =
      rw (resolve_kv-spell_field k v w.0.0 w.0.1, resolve_kv_array)
        (resolve_kv_array-spell fs (sort_pair h (pair (k, v)) acc) w.1)
