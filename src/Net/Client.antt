-- ===== src/Net/Client.antt =====
-- The members and methods of class TCPClient in airs/src/tcpasio.cpp. The socket is the environment:
-- what it reports comes in as an argument, and what is asked of it is recorded in the state. Locks are
-- not in the model: each function here is one method's run.
use airs.Base.{
  ℕ, suc, ◌*◌, List, [], ◌∷◌, ◌++◌, Bool, true, false, not, ◌&&◌, ◌||◌, Option, none, length,
  get_elem?, ◌==◌, if◌then◌else◌,
}
use airs.Base.Int.{ℤ, pos, negsuc}
use airs.Net.Circular.{Circular}

abbrev pub tcp_pack_size : ℕ
tcp_pack_size = 1500

-- A call of a registered callback, with the error code or the number of bytes.
pub data Call : Type 0 where
  connected received sent : ℕ → Call

-- `reads` counts the reads that wait for the socket, `writing` is what was handed to it to write.
pub record Client (C : Circular) : Type 0 where
  pub is_open : Bool
  pub usebuf : Bool
  pub pause_rcv : Bool
  pub bytercv : ℕ
  pub bufrcv : List ℕ
  pub crcrcv : C.Buffer
  pub crcsnd : C.Buffer
  pub has_conn : Bool
  pub has_rcv : Bool
  pub has_snd : Bool
  pub reads : ℕ
  pub writing : List ℕ
  pub calls : List Call

module _ (C : Circular) where
  abbrev pub size : C.Buffer → ℕ
  size b = length (C.contents b)

  -- TCPClient::TCPClient, with the buffers that are made without a capacity.
  unfoldable pub init : List ℕ → Client C
  init garbage = record {
    is_open = false;
    usebuf = false;
    pause_rcv = false;
    bytercv = 0;
    bufrcv = garbage;
    crcrcv = C.make;
    crcsnd = C.make;
    has_conn = false;
    has_rcv = false;
    has_snd = false;
    reads = 0;
    writing = [];
    calls = [];
  }

  -- IsOpen, Close and the three Register methods.
  unfoldable pub close : Client C → Client C
  close c = if c.is_open then record c { is_open = false } else c

  unfoldable pub register_connect : Client C → Client C
  register_connect c = record c { has_conn = true }

  unfoldable pub register_read : Client C → Client C
  register_read c = record c { has_rcv = true }

  unfoldable pub register_write : Client C → Client C
  register_write c = record c { has_snd = true }

  unfoldable pub use_buffer : Bool → Client C → Client C
  use_buffer b c =
      let cap = tcp_pack_size * 100 in
      let grown = record c {
        usebuf = b;
        crcrcv = C.set_capacity cap c.crcrcv;
        crcsnd = C.set_capacity cap c.crcsnd;
      } in
      let cleared = record c { usebuf = b; crcrcv = C.clear c.crcrcv; crcsnd = C.clear c.crcsnd } in
      if (c.usebuf && b) || (not c.usebuf && not b) then c else if b then grown else cleared

  unfoldable pub start_read : Client C → Client C
  start_read c = if c.is_open then record c { reads = suc c.reads } else c

  -- `linearize` hands over all that waits to be sent.
  unfoldable pub start_write : Client C → Client C
  start_write c = if size c.crcsnd == 0 then c else record c { writing = C.contents c.crcsnd }

  -- Connect with the error code of the socket, 0 for none. A connected socket is open.
  unfoldable pub connect : ℕ → Client C → Client C × Bool
  unfolding start_read
  connect ec c = if ec == 0 then (start_read (record c { is_open = true }), true) else (c, false)

  unfoldable pub handle_connect : ℕ → Client C → Client C
  unfolding start_read
  handle_connect ec c =
      let told = (if c.has_conn then record c { calls = c.calls ++ connected ec ∷ [] } else c) in
      if ec == 0 then start_read told else told

  unfoldable pub start : Client C → Client C
  unfolding start_read
  start c = if c.is_open then start_read c else c

  -- The bytes that have been received, and how many of them there are.
  abbrev pub received_bytes : Client C → List ℕ
  received_bytes c = if c.usebuf then C.contents c.crcrcv else c.bufrcv

  abbrev pub received_size : Client C → ℕ
  received_size c = if c.usebuf then size c.crcrcv else c.bytercv

  -- Lookup(char*): the number of bytes, and the first of them. `wanted` is false for a null pointer.
  unfoldable pub lookup_first : Bool → Client C → Option ℕ × ℤ
  lookup_first wanted c =
      if wanted && not (received_size c == 0)
      then (get_elem? (received_bytes c) 0, pos (received_size c))
      else (none, negsuc 0)
