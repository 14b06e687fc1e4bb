-- ===== src/Proto/Compact.antt =====
-- The `Compact*` methods of airs/src/AsciiProtocol.cpp: a message becomes one line of text,
-- `type keyword=value,keyword=value`. A null pointer is `none`; the clock's time is an argument.
use airs.Base.{List, [], ◌∷◌, ◌++◌, Bool, true, not, ◌&&◌, Option, none, some, if◌then◌else◌}
use airs.Base.Int.{pos, negsuc}
use airs.Base.Text.{Text, codes, is_empty}
use airs.Host.{Host}
use airs.Proto.Data.{ProtoBase, Msg, set_timetag}
use airs.Proto.Buffer.{AsciiProtocol, Packet, output_compacted}

-- A keyword and the text of its value.
abbrev pub Field : Type 0
Field = Text × Text

-- The state after a call, the message with its new time tag, and the line, if one was made.
pub record Sent (X : Type 0) : Type 0 where
  pub self : AsciiProtocol
  pub proto : Option (Msg X)
  pub out : Option Packet

-- A field that is sent under a condition.
unfoldable pub field_if : Bool → Field → List Field → List Field
field_if b f fs = if b then f ∷ fs else fs

-- The common fields of `compact_base`.
abbrev pub base_fields : ProtoBase → List Field
base_fields b =
    (codes "utc", b.utc)
    ∷ field_if (not (is_empty b.gid)) (codes "gid", b.gid)
        (field_if (not (is_empty b.uid)) (codes "uid", b.uid)
          (field_if (not (is_empty b.cid)) (codes "cid", b.cid) []))

abbrev pub always : {X : Type 0} → X → Bool
always x = true

module _ (h : Host) where
  open h use {Double, of_int, lt, le, print_double, print_int, format_kv}

  unfoldable pub join_kv : Text → Field → Text
  join_kv output (keyword, value) = output ++ format_kv keyword value

  unfoldable pub join_all : Text → List Field → Text
  unfolding join_kv
  join_all output [] = output
  join_all output (f ∷ fs) = join_all (join_kv output f) fs

  -- `valid_ra` and `valid_dec`.
  abbrev pub valid_ra : Double → Bool
  valid_ra ra = le (of_int (pos 0)) ra && lt ra (of_int (pos 360))

  abbrev pub valid_dec : Double → Bool
  valid_dec dec = le (of_int (negsuc 89)) dec && le dec (of_int (pos 90))

  -- The base after `set_timetag`, and the text so far.
  unfoldable pub compact_base : Text → ProtoBase → ProtoBase × Text
  unfolding join_all
  compact_base now b =
      let b' = set_timetag now b in (b', join_all (b.type ++ codes " ") (base_fields b'))

  -- The frame of the methods that take a pointer: no line for a null pointer or a message that the
  -- method refuses, else the common fields, those of the class, and the output.
  unfoldable pub compact_with :
      {X : Type 0} → (X → Bool) → (X → List Field) → AsciiProtocol → Text → Option (Msg X) → Sent X
  unfolding compact_base output_compacted
  compact_with valid fields p now none = record { self = p; proto = none; out = none }
  compact_with valid fields p now (some m) =
      let (b, output) = compact_base now m.base in
      let (p', packet) = output_compacted h p (join_all output (fields m.body)) in
      if valid m.body
      then record {
        self = p';
        proto = some (record { base = b; body = m.body });
        out = some packet;
      }
      else record { self = p; proto = some m; out = none }

  -- The frame of the methods that take the values themselves: no common fields.
  unfoldable pub compact_direct : AsciiProtocol → Text → List Field → AsciiProtocol × Packet
  unfolding join_all output_compacted
  compact_direct p type fields = output_compacted h p (join_all (type ++ codes " ") fields)
