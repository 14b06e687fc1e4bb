-- ===== src/Proto/Pairs.antt =====
-- The keyword-value pairs of a line, and the loop over them in the `resolve_*` methods of
-- airs/src/AsciiProtocol.cpp.
use airs.Base.{ℕ, List, [], ◌∷◌}
use airs.Base.Text.{Text}
use airs.Base.Decimal.{Result, ok, ◌>>=◌}

-- struct pair_key_val.
pub record KeyVal : Type 0 where
  pub keyword : Text
  pub value : Text

-- The loop over the pairs; an exception ends it.
unfoldable pub over_pairs : {X : Type 0} → (X → Text → Text → Result X) → List KeyVal → X → Result X
over_pairs step [] x = ok x
over_pairs step (kv ∷ kvs) x = step x kv.keyword kv.value >>= over_pairs step kvs

abbrev pub first_char : Text → ℕ
first_char [] = 0
first_char (c ∷ s) = c
