-- ===== src/Net/Tests.antt =====
-- A client with two lines received, and the theorems on TCPClient at it.
use airs.Base.{
  ℕ, ◌≤◌, ◌+◌, ◌-◌, ◌≡◌, refl, ◌⊎◌, inl, inr, List, [], ◌∷◌, ◌++◌, some, true, false, arith, length,
  take, min, ltb, if◌then◌else◌, replicate, length-replicate, length-take,
}
use airs.Base.Int.{pos, negsuc}
use airs.Base.Text.{codes}
use airs.Net.Circular.Plain.{Plain, plain, plain-CircularLaws}
use airs.Net.Client.{Client, received_bytes}
use airs.Net.Transfer.{lookup, read, write, handle_read, handle_write}
use airs.Net.Search.{Occurs, NoneBelow, lookup-cases}
use airs.Net.Flow.{
  IsReady, IsSending, handle_read-IsReady, read-append, write-append, handle_write-drop,
  handle_read_twice,
}

abbrev holding : List ℕ → Plain
holding xs = record { capacity = 150000; items = xs }

abbrev client : ℕ → List ℕ → List ℕ → List ℕ → Client plain
client reads in_bytes out_bytes writing = record {
  is_open = true;
  usebuf = true;
  pause_rcv = false;
  bytercv = 0;
  bufrcv = [];
  crcrcv = holding in_bytes;
  crcsnd = holding out_bytes;
  has_conn = false;
  has_rcv = true;
  has_snd = false;
  reads = reads;
  writing = writing;
  calls = [];
}

abbrev two_lines : Client plain
two_lines = client 1 (codes "ab\ncd\n") [] []

two_lines-IsReady : IsReady plain plain-CircularLaws two_lines
two_lines-IsReady = record {
  buffered = refl;
  opened = refl;
  room = refl;
  one_read = omega arith;
  reading = inr (omega arith);
  paused = inl refl;
}

lookup-cases_example :
    (NoneBelow plain b'd' (b'e' ∷ []) 1 two_lines 6
      × (lookup plain (some (codes "de")) (pos 2) (pos 1) two_lines
          ≡ (if ltb 6 1502 then negsuc 0 else pos 4)))
    ⊎ ((k : ℕ) × (lookup plain (some (codes "de")) (pos 2) (pos 1) two_lines ≡ pos k)
        × (1 ≤ k)
        × (k + 2 ≤ 6)
        × Occurs (codes "de") (received_bytes plain two_lines) k
        × NoneBelow plain b'd' (b'e' ∷ []) 1 two_lines k)
lookup-cases_example = lookup-cases plain b'd' (b'e' ∷ []) 1 two_lines

handle_read-IsReady_example :
    (plain.contents (handle_read plain (λ d. d) 0 (codes "ef\n") two_lines).crcrcv
      ≡ codes "ab\ncd\nef\n")
    × IsReady plain plain-CircularLaws (handle_read plain (λ d. d) 0 (codes "ef\n") two_lines)
handle_read-IsReady_example =
    handle_read-IsReady plain plain-CircularLaws two_lines (codes "ef\n") two_lines-IsReady refl
      (omega arith)

read-append_example :
    let out = read plain true (pos 3) (pos 0) two_lines in
    (codes "ab\ncd\n" ≡ out.1 ++ plain.contents out.0.crcrcv)
    × (length out.1 ≡ min 6 3)
    × IsReady plain plain-CircularLaws out.0
read-append_example = read-append plain plain-CircularLaws two_lines 2 two_lines-IsReady

-- Four bytes wait, and the socket has three of them.
abbrev sending : Client plain
sending = client 1 [] (codes "abcd") (codes "abc")

sending-IsSending : IsSending plain plain-CircularLaws sending
sending-IsSending = record { buffered = refl; front = refl; busy = inr (omega arith) }

write-append_example :
    let out = write plain (codes "ef") 0 sending in
    (out.1 ≡ min (150000 - 4) 2)
    × (plain.contents out.0.crcsnd ≡ codes "abcd" ++ take out.1 (codes "ef"))
    × IsSending plain plain-CircularLaws out.0
write-append_example =
    write-append plain plain-CircularLaws sending (codes "ef") 0 sending-IsSending

handle_write-drop_example :
    (codes "abcd" ≡ codes "ab" ++ plain.contents (handle_write plain 0 2 sending).crcsnd)
    × IsSending plain plain-CircularLaws (handle_write plain 0 2 sending)
handle_write-drop_example =
    handle_write-drop plain plain-CircularLaws sending 2 sending-IsSending (omega arith)

-- A buffer in which there is just room for one more packet.
unfoldable many : List ℕ
many = replicate 148500 7

length-many : length many ≡ 148500
unfolding many
length-many = length-replicate {A = ℕ} 148500 7

abbrev nearly_full : Client plain
nearly_full = client 1 many [] []

size-nearly_full : length (take 150000 many) ≡ 148500
size-nearly_full = omega (arith, length-take 150000 many, length-many)

nearly_full-IsReady : IsReady plain plain-CircularLaws nearly_full
nearly_full-IsReady = record {
  buffered = refl;
  opened = refl;
  room = refl;
  one_read = omega arith;
  reading = inr (omega (arith, size-nearly_full));
  paused = inl refl;
}

handle_read_twice_example :
    (handle_read plain (λ d. (read plain true (pos 2) (pos 0) d).0) 0 (codes "x") nearly_full).reads
    ≡ 2
handle_read_twice_example =
    handle_read_twice plain plain-CircularLaws nearly_full (codes "x") 1 nearly_full-IsReady refl
      refl (omega arith) (omega (arith, size-nearly_full)) (omega (arith, size-nearly_full))
      (omega (arith, size-nearly_full))
