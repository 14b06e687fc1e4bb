-- ===== src/Net/Flow.antt =====
-- Bytes pass through TCPClient of airs/src/tcpasio.cpp in order and whole, in both directions.
use airs.Base.{
  ℕ, zero, suc, ◌+◌, ◌-◌, ◌*◌, ◌≤◌, ◌<◌, ◌≡◌, refl, sym, ap, ◌∙◌, ◌⊎◌, List, [], ◌∷◌, ◌++◌,
  append_assoc, append-nil, true, false, length, take, drop, length-append, length-take,
  length-drop, take-append-drop, min, arith,
}
use airs.Base.Int.{pos}
use airs.Net.Circular.{Circular, CircularLaws}
use airs.Net.Client.{Client, tcp_pack_size, size}
use airs.Net.Transfer.{push_all, read, write, handle_read, handle_write}

take-append-drop-length : (n : ℕ) (xs : List ℕ) → take n xs ++ drop (length (take n xs)) xs ≡ xs
take-append-drop-length zero xs = refl
take-append-drop-length (suc n) [] = refl
take-append-drop-length (suc n) (x ∷ xs) = ap (◌∷◌ x) (take-append-drop-length n xs)

take-length : (xs : List ℕ) → take (length xs) xs ≡ xs
take-length [] = refl
take-length (x ∷ xs) = ap (◌∷◌ x) (take-length xs)

take-append_left : (n : ℕ) (xs ys : List ℕ) → n ≤ length xs → take n (xs ++ ys) ≡ take n xs
take-append_left zero xs ys h = refl
take-append_left (suc n) [] ys h = elim h [ ]
take-append_left (suc n) (x ∷ xs) ys h = ap (◌∷◌ x) (take-append_left n xs ys (omega arith))

take-take : (n m : ℕ) (xs : List ℕ) → n ≤ m → take n (take m xs) ≡ take n xs
take-take zero m xs h = refl
take-take (suc n) zero xs h = elim h [ ]
take-take (suc n) (suc m) [] h = refl
take-take (suc n) (suc m) (x ∷ xs) h = ap (◌∷◌ x) (take-take n m xs (omega arith))

module _ (C : Circular) (l : CircularLaws C) where
  capacity-push_all : (xs : List ℕ) (b : C.Buffer) → C.capacity (push_all C xs b) ≡ C.capacity b
  unfolding push_all
  capacity-push_all [] b = refl
  capacity-push_all (x ∷ xs) b = capacity-push_all xs (C.push_back x b) ∙ l.capacity-push_back x b

  -- With room for all of them the bytes go to the end.
  contents-push_all :
      (xs : List ℕ) (b : C.Buffer)
      → size C b + length xs ≤ C.capacity b
      → C.contents (push_all C xs b) ≡ C.contents b ++ xs
  unfolding push_all
  contents-push_all [] b h = sym (append-nil (C.contents b))
  contents-push_all (x ∷ xs) b h =
      let one = l.contents-push_back x b (omega arith) in
      contents-push_all xs (C.push_back x b) (
        omega
          (arith, ap length one, length-append (C.contents b) (x ∷ []), l.capacity-push_back x b))
      ∙ ap (λ (ys : List ℕ). ys ++ xs) one
      ∙ append_assoc (C.contents b) (x ∷ []) xs

  -- A client that uses its buffers, and reads only while a packet fits in.
  pub record IsReady (c : Client C) : Type 0 where
    pub buffered : c.usebuf ≡ true
    pub opened : c.is_open ≡ true
    pub room : C.capacity c.crcrcv ≡ tcp_pack_size * 100
    pub one_read : c.reads ≤ 1
    pub reading : (c.reads ≡ 0) ⊎ (size C c.crcrcv + tcp_pack_size ≤ C.capacity c.crcrcv)
    pub paused : (c.pause_rcv ≡ false) ⊎ (c.reads ≡ 0)

  -- In a ready client with one read in flight, a finished read of at most a packet appends its
  -- bytes to the receive buffer, none of them over older bytes, and the client is ready again, if
  -- the callback leaves the client alone.
  pub handle_read-IsReady :
      (c : Client C) (bytes : List ℕ)
      → IsReady c
      → c.reads ≡ 1
      → length bytes ≤ tcp_pack_size
      → (C.contents (handle_read C (λ d. d) 0 bytes c).crcrcv ≡ C.contents c.crcrcv ++ bytes)
        × IsReady (handle_read C (λ d. d) 0 bytes c)
  unfolding handle_read
  handle_read-IsReady c bytes r one fits =
      let stored = contents-push_all bytes c.crcrcv (omega arith) in
      ground (
        arith,
        stored,
        ap length stored,
        length-append (C.contents c.crcrcv) bytes,
        capacity-push_all bytes c.crcrcv,
      )

  -- In a ready client, Read from the beginning returns the first bytes of the receive buffer, as
  -- many as there are up to the length asked for, leaves the bytes after them in the buffer, and
  -- the client is ready again.
  pub read-append :
      (c : Client C) (len : ℕ)
      → IsReady c
      → let out = read C true (pos (suc len)) (pos 0) c in
        (C.contents c.crcrcv ≡ out.1 ++ C.contents out.0.crcrcv)
        × (length out.1 ≡ min (size C c.crcrcv) (suc len))
        × IsReady out.0
  unfolding read
  read-append c len r =
      let xs = C.contents c.crcrcv in
      let m = min (size C c.crcrcv) (0 + suc len) - 0 in
      ground (
        arith,
        take-append-drop-length m xs,
        length-take m xs,
        length-drop (length (take m xs)) xs,
        l.contents-erase_begin (length (take m xs)) c.crcrcv,
        ap length (
            l.contents-erase_begin (length (take m xs)) c.crcrcv (omega (arith, length-take m xs))),
        l.capacity-erase_begin (length (take m xs)) c.crcrcv,
      )

  -- The other direction: while bytes wait, the socket has some of them, and those are the first ones.
  pub record IsSending (c : Client C) : Type 0 where
    pub buffered : c.usebuf ≡ true
    pub front : c.writing ≡ take (length c.writing) (C.contents c.crcsnd)
    pub busy : (size C c.crcsnd ≡ 0) ⊎ (0 < length c.writing)

  front-le : (c : Client C) → IsSending c → length c.writing ≤ size C c.crcsnd
  front-le c v =
      omega (arith, ap length v.front, length-take (length c.writing) (C.contents c.crcsnd))

  -- In a client in sending order, Write takes as many bytes as fit, from the front, appends them
  -- to the send buffer, and the client is in sending order: what the socket has is a front part
  -- of the buffer, and is not empty if bytes wait.
  pub write-append :
      (c : Client C) (bytes : List ℕ) (taken : ℕ)
      → IsSending c
      → let out = write C bytes taken c in
        (out.1 ≡ min (C.capacity c.crcsnd - size C c.crcsnd) (length bytes))
        × (C.contents out.0.crcsnd ≡ C.contents c.crcsnd ++ take out.1 bytes)
        × IsSending out.0
  unfolding write
  write-append c bytes taken v =
      let n = min (C.capacity c.crcsnd - size C c.crcsnd) (length bytes) in
      let filled =
        contents-push_all (take n bytes) c.crcsnd
          (omega (arith, length-take n bytes, l.fits c.crcsnd)) in
      ground (
        arith,
        filled,
        ap length filled,
        length-take n bytes,
        length-append (C.contents c.crcsnd) (take n bytes),
        append-nil (C.contents c.crcsnd),
        take-length (C.contents (push_all C (take n bytes) c.crcsnd)),
        take-append_left (length c.writing) (C.contents c.crcsnd) (take n bytes),
        front-le c v,
      )

  -- In a client in sending order, when the socket has written some of its bytes without an error,
  -- exactly those leave the send buffer, and the client is in sending order again.
  pub handle_write-drop :
      (c : Client C) (n : ℕ)
      → IsSending c
      → n ≤ length c.writing
      → (C.contents c.crcsnd ≡ take n c.writing ++ C.contents (handle_write C 0 n c).crcsnd)
        × IsSending (handle_write C 0 n c)
  unfolding handle_write
  handle_write-drop c n v h =
      let erased = l.contents-erase_begin n c.crcsnd (omega (arith, front-le c v)) in
      let written : take n c.writing ≡ take n (C.contents c.crcsnd) =
        ap (take n) v.front ∙ take-take n (length c.writing) (C.contents c.crcsnd) h in
      ground (
        arith,
        v.buffered,
        written,
        erased,
        take-append-drop n (C.contents c.crcsnd),
        take-length (C.contents (C.erase_begin n c.crcsnd)),
      )

  -- In a ready client with one read in flight and a read callback, if a finished read of at most
  -- a packet leaves less than a packet of room, and the callback calls Read from the beginning
  -- and so makes room for a packet again, then two reads are in flight after handle_read.
  pub handle_read_twice :
      (c : Client C) (bytes : List ℕ) (len : ℕ)
      → IsReady c
      → c.reads ≡ 1
      → c.has_rcv ≡ true
      → length bytes ≤ tcp_pack_size
      → C.capacity c.crcrcv < size C c.crcrcv + length bytes + tcp_pack_size
      → size C c.crcrcv + length bytes + tcp_pack_size ≤ C.capacity c.crcrcv + suc len
      → suc len ≤ size C c.crcrcv
      → (handle_read C (λ d. (read C true (pos (suc len)) (pos 0) d).0) 0 bytes c).reads ≡ 2
  unfolding handle_read read
  handle_read_twice c bytes len r one reg fits tight enough some_left =
      let b = push_all C bytes c.crcrcv in
      let stored = contents-push_all bytes c.crcrcv (omega arith) in
      let m = min (size C b) (0 + suc len) - 0 in
      let k = length (take m (C.contents b)) in
      let erased = l.contents-erase_begin k b (omega (arith, length-take m (C.contents b))) in
      ground (
        arith,
        ap length stored,
        length-append (C.contents c.crcrcv) bytes,
        capacity-push_all bytes c.crcrcv,
        length-take m (C.contents b),
        ap length erased,
        length-drop k (C.contents b),
        l.capacity-erase_begin k b,
      )
