-- ===== src/Net/Transfer.antt =====
-- Lookup, Read, Write and the handlers of finished transfers of class TCPClient in
-- airs/src/tcpasio.cpp.
use airs.Base.{
  ℕ, zero, suc, ◌+◌, ◌-◌, List, [], ◌∷◌, ◌++◌, Bool, true, false, not, ◌&&◌, ◌||◌, Option, none,
  some, length, take, drop, min, ltb, ◌==◌, if◌then◌else◌,
}
use airs.Base.Int.{ℤ, pos, negsuc}
use airs.Net.Circular.{Circular}
use airs.Net.Client.{
  Client, received, sent, tcp_pack_size, size, received_bytes, received_size, start_read,
  start_write,
}

-- The inner loop of Lookup: how many of the next `len` characters of the flag agree.
unfoldable pub agree : ℕ → List ℕ → List ℕ → ℕ
agree zero flag bytes = 0
agree (suc len) [] bytes = 0
agree (suc len) (f ∷ flag) [] = 0
agree (suc len) (f ∷ flag) (b ∷ bytes) = if f == b then suc (agree len flag bytes) else 0

-- The outer loop, over the positions that are left: the first one where the whole flag agrees.
unfoldable pub scan : List ℕ → ℕ → List ℕ → ℕ → ℕ → Option ℕ
unfolding agree
scan flag len bytes zero at = none
scan flag len bytes (suc left) at =
    let later = scan flag len bytes left (at + 1) in
    if agree len flag (drop at bytes) == len then some at else later

-- -1, or the number of positions when more than a packet has come without the flag.
abbrev pub missed : ℕ → ℕ → ℤ
missed count len = if ltb count (tcp_pack_size + len) then negsuc 0 else pos (count - len)

abbrev pub found_or : ℤ → Option ℕ → ℤ
found_or e none = e
found_or e (some at) = pos at

-- push_back of one byte after another.
unfoldable pub push_all : (C : Circular) → List ℕ → C.Buffer → C.Buffer
push_all C [] b = b
push_all C (x ∷ xs) b = push_all C xs (C.push_back x b)

module _ (C : Circular) where
  -- Lookup(const char*, int, int). With `n = size - len` there are `n + 1 - from` positions.
  unfoldable pub lookup : Option (List ℕ) → ℤ → ℤ → Client C → ℤ
  lookup none len from c = negsuc 0
  lookup (some flag) (pos zero) from c = negsuc 0
  lookup (some flag) (negsuc len) from c = negsuc 0
  lookup (some flag) (pos (suc len)) (negsuc from) c = negsuc 0
  lookup (some flag) (pos (suc len)) (pos from) c =
      let count = received_size C c in
      found_or (missed count (suc len))
        (scan flag (suc len) (received_bytes C c) (count + 1 - (suc len + from)) from)

  -- Whether less than a packet is free.
  abbrev pub is_tight : C.Buffer → Bool
  is_tight b = ltb (C.capacity b - size C b) tcp_pack_size

  -- After bytes were taken out: a reception that was paused goes on when there is room.
  unfoldable pub resume : Client C → Client C
  unfolding start_read
  resume c =
      let pause = is_tight c.crcrcv in
      let c' = record c { pause_rcv = pause } in
      if c.pause_rcv then (if pause then c' else start_read C c') else c

  -- Read(char*, int, int): the state, the bytes copied, and their number. The bytes come from `from`
  -- on, and as many are erased at the beginning.
  unfoldable pub read : Bool → ℤ → ℤ → Client C → Client C × List ℕ
  unfolding resume
  read false len from c = (c, [])
  read true (pos zero) from c = (c, [])
  read true (negsuc len) from c = (c, [])
  read true (pos (suc len)) (negsuc from) c = (c, [])
  read true (pos (suc len)) (pos from) c =
      let copied =
        take (min (size C c.crcrcv) (from + suc len) - from) (drop from (C.contents c.crcrcv)) in
      let erased = record c { crcrcv = C.erase_begin (length copied) c.crcrcv } in
      let n = (if ltb c.bytercv (from + suc len) then c.bytercv - from else suc len) in
      if c.usebuf
      then (if length copied == 0 then (c, []) else (resume erased, copied))
      else (record c { bytercv = c.bytercv - n }, take n (drop from c.bufrcv))

  -- Write(const char*, int). Without the buffer the socket says how many bytes it took.
  unfoldable pub write : List ℕ → ℕ → Client C → Client C × ℕ
  unfolding push_all start_write
  write bytes taken c =
      let n0 = size C c.crcsnd in
      let n = min (C.capacity c.crcsnd - n0) (length bytes) in
      let filled = record c { crcsnd = push_all C (take n bytes) c.crcsnd } in
      if length bytes == 0
      then (c, 0)
      else if c.usebuf
      then ((if n0 == 0 && not (n == 0) then start_write C filled else filled), n)
      else (c, taken)

  -- handle_read up to the callback: the bytes that the socket put into `bufrcv` go to the buffer.
  unfoldable pub take_in : ℕ → List ℕ → Client C → Client C
  unfolding push_all
  take_in ec bytes c =
      let stored = push_all C bytes c.crcrcv in
      let c' = record c { bufrcv = bytes ++ drop (length bytes) c.bufrcv; reads = c.reads - 1 } in
      if ec == 0
      then (if c.usebuf
          then record c' { crcrcv = stored; pause_rcv = is_tight stored }
          else record c' { bytercv = length bytes })
      else c'

  unfoldable pub tell_received : ℕ → Client C → Client C
  tell_received ec c = if c.has_rcv then record c { calls = c.calls ++ received ec ∷ [] } else c

  -- handle_read after the callback.
  unfoldable pub read_again : ℕ → Client C → Client C
  unfolding start_read
  read_again ec c = if not (ec == 0) || c.pause_rcv then c else start_read C c

  -- handle_read. What the callback itself does to the client is an argument.
  unfoldable pub handle_read : (Client C → Client C) → ℕ → List ℕ → Client C → Client C
  unfolding take_in tell_received read_again
  handle_read callback ec bytes c =
      let told = tell_received ec (take_in ec bytes c) in
      read_again ec (if c.has_rcv then callback told else told)

  -- handle_write: `n` bytes are out.
  unfoldable pub handle_write : ℕ → ℕ → Client C → Client C
  unfolding start_write
  handle_write ec n c =
      let rest = record c { crcsnd = C.erase_begin n c.crcsnd; writing = [] } in
      let told = (if c.has_snd then record rest { calls = rest.calls ++ sent n ∷ [] } else rest) in
      if ec == 0 then start_write C told else record c { writing = [] }
