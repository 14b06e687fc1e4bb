-- ===== src/Proto/Buffer.antt =====
-- The output buffer of `AsciiProtocol`: ten slots of 1024 bytes in one block, used in turn, so that
-- a pointer that a call returns stays good while the next calls write to other slots.
pub mod Retention
use airs.Base.{
  ℕ, suc, ◌+◌, ◌-◌, ◌*◌, take, List, [], ◌∷◌, ◌++◌, set, replicate, length, ◌==◌, if◌then◌else◌,
}
use airs.Base.Text.{Text, is_closing, c_str}
use airs.Host.{Host}

abbrev pub slot_size : ℕ
slot_size = 1024

abbrev pub slots : ℕ
slots = 10

-- The members `ibuf_` and `buff_`; the bytes of the block are one list.
pub record AsciiProtocol : Type 0 where
  pub ibuf : ℕ
  pub buff : List ℕ

-- What a caller gets: where the text begins in the block, the text, and `n`.
pub record Packet : Type 0 where
  pub at : ℕ
  pub text : Text
  pub n : ℕ

-- AsciiProtocol::AsciiProtocol.
unfoldable pub init : AsciiProtocol
init = record { ibuf = 0; buff = replicate (slot_size * slots) 0 }

-- Writes from `i` on. Past the end of the block nothing is written: there the source is undefined.
unfoldable pub poke : List ℕ → ℕ → Text → List ℕ
poke mem i [] = mem
poke mem i (c ∷ s) = poke (set mem i c) (i + 1) s

-- output_compacted(const char*, int&), with the line end and the final 0 of sprintf; `s` is the text
-- up to its 0. What a line writes behind its slot goes to the next one, and what it writes behind
-- the block is lost, so the text is what stands in the block after the call.
unfoldable pub output_line : AsciiProtocol → Text → AsciiProtocol × Packet
unfolding poke
output_line p s =
    let line = s ++ 10 ∷ [] in
    (
      record {
        ibuf = if suc p.ibuf == slots then 0 else suc p.ibuf;
        buff = poke p.buff (p.ibuf * slot_size) (line ++ 0 ∷ []);
      },
      record {
        at = p.ibuf * slot_size;
        text = take (length p.buff - p.ibuf * slot_size) line;
        n = length line;
      },
    )

-- output_compacted(string&, int&).
unfoldable pub output_compacted : Host → AsciiProtocol → Text → AsciiProtocol × Packet
unfolding output_line
output_compacted h p s = output_line p (c_str (h.trim_right_if is_closing s))
