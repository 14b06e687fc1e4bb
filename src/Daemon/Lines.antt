-- ===== src/Daemon/Lines.antt =====
-- What DoProcess::on_receive_fileserver of airs/src/DoProcess.cpp does with the lines of the file
-- server: each is resolved, and the file reports among them become frames, in order.
use airs.Base.{
  ℕ, zero, suc, ◌≤◌, ◌<◌, ◌≡◌, refl, sym, subst, ap, ◌∙◌, inl, inr, List, [], ◌∷◌, ◌++◌, Bool, true,
  ◌||◌, some, length, length-append, drop, set, ◌==◌, arith, All, append_assoc, append-nil,
}
use airs.Base.Int.{pos, negsuc}
use airs.Base.Text.{Text, lacks}
use airs.Base.Decimal.{Result, ok}
use airs.Host.{Host}
use airs.Proto.Data.{Msg, Body}
use airs.Proto.Resolve.{resolve}
use airs.Net.Circular.{Circular, CircularLaws}
use airs.Net.Client.{Client, size, received_bytes, received_size, tcp_pack_size}
use airs.Net.Transfer.{lookup, read, missed}
use airs.Net.Search.{Occurs, lookup-occurrence, lookup-cases}
use airs.Net.Flow.{IsReady, read-append}
use airs.Daemon.Frame.{OneFrame}
use airs.Daemon.Receive.{
  Receiver, announced, accept, c_string, read_line, take_line, receive, on_receive_fileserver,
}
use airs.Daemon.Loop.{receive-some, receive_once-body, body_short, body_miss, receive-continue}

-- The characters that no line holds: its end, and 0.
abbrev pub is_end : ℕ → Bool
is_end c = c == 10 || c == 0

-- Lines with the messages that they hold.
abbrev pub Lines : Type 0 → Type 0
Lines D = List (Text × Msg (Body D))

-- Their bytes on the wire.
unfoldable pub on_wire : {D : Type 0} → Lines D → List ℕ
on_wire [] = []
on_wire ((t, m) ∷ ls) = t ++ 10 ∷ on_wire ls

-- A line ends at its end.
not_before :
    (t rest : List ℕ) (k : ℕ)
    → lacks is_end t ≡ true
    → Occurs (10 ∷ []) (t ++ rest) k
    → length t ≤ k
not_before [] rest k h o = omega arith
not_before (c ∷ t) rest zero h o = ground arith
not_before (c ∷ t) rest (suc k) h o = omega (arith, not_before t rest k (ground arith) o)

Occurs-end : (t rest : List ℕ) → Occurs (10 ∷ []) (t ++ 10 ∷ rest) (length t)
Occurs-end [] rest = refl
Occurs-end (c ∷ t) rest = Occurs-end t rest

split_at_length :
    (xs ys zs ws : List ℕ) → length xs ≡ length ys → xs ++ zs ≡ ys ++ ws → (xs ≡ ys) × (zs ≡ ws)
split_at_length [] [] zs ws l e = (refl, e)
split_at_length [] (y ∷ ys) zs ws l e = absurd (omega (arith, l))
split_at_length (x ∷ xs) [] zs ws l e = absurd (omega (arith, l))
split_at_length (x ∷ xs) (y ∷ ys) zs ws l e = ground (arith, split_at_length xs ys zs ws)

-- The text of a line whose end was made a 0.
c_string-set :
    (t rest : List ℕ)
    → lacks is_end t ≡ true
    → c_string (set ((t ++ 10 ∷ []) ++ rest) (length t) 0) ≡ t
unfolding c_string
c_string-set [] rest h = refl
c_string-set (c ∷ t) rest h = ground (arith, c_string-set t rest)

module _ (h : Host) (C : Circular) (l : CircularLaws C) (join_path : Text → Text → Text) where
  abbrev Reader : Type 0
  Reader = Receiver h C

  lookup-line :
      (c : Client C) (t rest : List ℕ)
      → IsReady C l c
      → lacks is_end t ≡ true
      → C.contents c.crcrcv ≡ t ++ 10 ∷ rest
      → lookup C (some (10 ∷ [])) (pos 1) (pos 0) c ≡ pos (length t)
  lookup-line c t rest r n e =
      let bytes : received_bytes C c ≡ t ++ 10 ∷ rest = rw r.buffered e in
      let count : received_size C c ≡ length (t ++ 10 ∷ rest) = rw r.buffered (ap length e) in
      let (k, found, _, le, o) =
        lookup-occurrence C 10 [] 0 c (length t) (omega arith)
          (omega (arith, count, length-append t (10 ∷ rest)))
          (subst (λ (xs : List ℕ). Occurs (10 ∷ []) xs (length t)) (sym bytes)
            (Occurs-end t rest)) in
      let ge =
        not_before t (10 ∷ rest) k n (subst (λ (xs : List ℕ). Occurs (10 ∷ []) xs k) bytes o) in
      let same : k ≡ length t = omega (arith, le, ge) in found ∙ ap pos same

  missed_few : (n : ℕ) → n ≤ tcp_pack_size → missed n 1 ≡ negsuc 0
  missed_few n b = ground arith

  lookup-no_line :
      (c : Client C)
      → IsReady C l c
      → lacks is_end (C.contents c.crcrcv) ≡ true
      → size C c.crcrcv ≤ tcp_pack_size
      → lookup C (some (10 ∷ [])) (pos 1) (pos 0) c ≡ negsuc 0
  lookup-no_line c r n b =
      let xs = C.contents c.crcrcv in
      let bytes : received_bytes C c ≡ xs ++ [] = rw r.buffered (sym (append-nil xs)) in
      let count : received_size C c ≡ length xs = rw r.buffered refl in
      elim (lookup-cases C 10 [] 0 c) [
        | inl (absent, miss) ↦ miss ∙ missed_few (received_size C c) (omega (arith, count))
        | inr (k, hit, _, fits, o, _) ↦ absurd (
            omega (
              arith,
              count,
              fits,
              not_before xs [] k n (subst (λ (ys : List ℕ). Occurs (10 ∷ []) ys k) bytes o),
            ))
      ]

  -- A reader after a line: ready, with the rest of the bytes, and the frames of the line.
  pub record Took (st next : Reader) (rest : List ℕ) (frames : List (OneFrame h.Double))
      : Type 0 where
    pub ready : IsReady C l next.tcpc_fs
    pub left : C.contents next.tcpc_fs.crcrcv ≡ rest
    pub queued : next.que_reduct ≡ st.que_reduct ++ frames

  read_line-line :
      (st : Reader) (t rest : List ℕ)
      → IsReady C l st.tcpc_fs
      → lacks is_end t ≡ true
      → C.contents st.tcpc_fs.crcrcv ≡ t ++ 10 ∷ rest
      → let next = read_line h C join_path st (length t) in
        Took st next rest [] × (c_string next.bufrcv ≡ t)
  unfolding read_line
  read_line-line st t rest r n e =
      let (split, taken, ready) = read-append C l st.tcpc_fs (length t) r in
      let out = read C true (pos (suc (length t))) (pos 0) st.tcpc_fs in
      let line = t ++ 10 ∷ [] in
      let (copied, left) =
        split_at_length out.1 line (C.contents out.0.crcrcv) rest
          (omega
            (arith, taken, ap length e, length-append t (10 ∷ []), length-append t (10 ∷ rest)))
          (sym split ∙ e ∙ sym (append_assoc t (10 ∷ []) rest)) in
      (
        record { ready = ready; left = left; queued = sym (append-nil st.que_reduct) },
        rw copied (c_string-set t (drop (length line) st.bufrcv) n),
      )

  take_line-Took :
      (st : Reader) (t rest : List ℕ) (m : Msg (Body h.Double))
      → IsReady C l st.tcpc_fs
      → lacks is_end t ≡ true
      → C.contents st.tcpc_fs.crcrcv ≡ t ++ 10 ∷ rest
      → resolve h t ≡ ok (some m)
      → (next : Reader) × (take_line h C join_path st (length t) ≡ ok next)
        × Took st next rest (announced h C join_path m.base m.body)
  unfolding take_line accept
  take_line-Took st t rest m r n e found =
      let (took, text) = read_line-line st t rest r n e in
      (
        accept h C join_path (read_line h C join_path st (length t)) (some m),
        rw (text, found),
        record { ready = took.ready; left = took.left; queued = refl },
      )

  -- A line that comes through: no end in it, not longer than a packet with its end, and a message.
  abbrev pub IsLine : Text × Msg (Body h.Double) → Type 0
  IsLine line =
      (lacks is_end line.0 ≡ true)
      × (length line.0 < tcp_pack_size)
      × (resolve h line.0 ≡ ok (some line.1))

  -- The frames that lines bring.
  unfoldable pub frames : Lines h.Double → List (OneFrame h.Double)
  frames [] = []
  frames ((t, m) ∷ ls) = announced h C join_path m.base m.body ++ frames ls

  round_line :
      (fuel : ℕ) (st next : Reader) (t : Text) (rest : List ℕ)
      → IsReady C l st.tcpc_fs
      → lacks is_end t ≡ true
      → length t < tcp_pack_size
      → C.contents st.tcpc_fs.crcrcv ≡ t ++ 10 ∷ rest
      → take_line h C join_path st (length t) ≡ ok next
      → receive h C join_path (suc fuel) st ≡ receive h C join_path fuel next
  round_line fuel st next t rest r n b e taken = rw (
    receive-continue h C l join_path fuel st,
    receive_once-body h C l join_path st _ r.opened (lookup-line st.tcpc_fs t rest r n e),
    body_short h C l join_path st (length t) b,
    taken,
  )

  round_last :
      (fuel : ℕ) (st : Reader)
      → IsReady C l st.tcpc_fs
      → lacks is_end (C.contents st.tcpc_fs.crcrcv) ≡ true
      → size C st.tcpc_fs.crcrcv ≤ tcp_pack_size
      → receive h C join_path (suc fuel) st ≡ some (ok st)
  round_last fuel st r n b = rw (
    receive-continue h C l join_path fuel st,
    receive_once-body h C l join_path st _ r.opened (lookup-no_line st.tcpc_fs r n b),
    body_miss h C l join_path st 0,
  )

  receive-lines :
      (fuel : ℕ) (ls : Lines h.Double) (st : Reader) (rest : List ℕ)
      → IsReady C l st.tcpc_fs
      → C.contents st.tcpc_fs.crcrcv ≡ on_wire ls ++ rest
      → All IsLine ls
      → lacks is_end rest ≡ true
      → length rest ≤ tcp_pack_size
      → length ls < fuel
      → (next : Reader) × (receive h C join_path fuel st ≡ some (ok next))
        × Took st next rest (frames ls)
  unfolding on_wire frames
  receive-lines zero ls st rest r e a n b f = absurd (omega arith)
  receive-lines (suc fuel) [] st rest r e a n b f = (
    st,
    round_last fuel st r (rw e n) (omega (arith, ap length e)),
    record { ready = r; left = e; queued = sym (append-nil st.que_reduct) },
  )
  receive-lines (suc fuel) ((t, m) ∷ ls) st rest r e ((ends, short, found), a) n b f =
      let whole = e ∙ append_assoc t (10 ∷ on_wire ls) rest in
      let (now, taken, took) = take_line-Took st t (on_wire ls ++ rest) m r ends whole found in
      let (next, out, later) =
        receive-lines fuel ls now rest took.ready took.left a n b (omega arith) in
      (
        next,
        round_line fuel st now t (on_wire ls ++ rest) r ends short whole taken ∙ out,
        record {
          ready = later.ready;
          left = later.left;
          queued =
              later.queued
              ∙ ap (λ (q : List (OneFrame h.Double)). q ++ frames ls) took.queued
              ∙ append_assoc st.que_reduct (announced h C join_path m.base m.body) (frames ls);
        },
      )

  length-on_wire : (ls : Lines h.Double) → length ls ≤ length (on_wire ls)
  unfolding on_wire
  length-on_wire [] = omega arith
  length-on_wire ((t, m) ∷ ls) = omega (arith, length-on_wire ls, length-append t (10 ∷ on_wire ls))

  -- If the client is ready, on_receive_fileserver comes to an end, with a state or an exception,
  -- whatever bytes have been received: fuel of two more than their number is enough.
  pub on_receive_fileserver-some :
      (st : Reader)
      → IsReady C l st.tcpc_fs
      → (r : Result Reader) × (on_receive_fileserver h C join_path st ≡ some r)
  unfolding on_receive_fileserver
  on_receive_fileserver-some st r =
      let count : received_size C st.tcpc_fs ≡ size C st.tcpc_fs.crcrcv = rw r.buffered refl in
      receive-some h C l join_path _ st r (omega (arith, count))

  -- If the client is ready and has received whole lines, each with a message, without 0 and
  -- shorter than a packet, and behind them at most a packet of a line that has not ended, then
  -- on_receive_fileserver ends without an exception, takes out exactly the lines, leaves the
  -- client ready, and puts the frames of the file reports at the end of the queue, in order.
  pub on_receive_fileserver-lines :
      (ls : Lines h.Double) (st : Reader) (rest : List ℕ)
      → IsReady C l st.tcpc_fs
      → C.contents st.tcpc_fs.crcrcv ≡ on_wire ls ++ rest
      → All IsLine ls
      → lacks is_end rest ≡ true
      → length rest ≤ tcp_pack_size
      → (next : Reader) × (on_receive_fileserver h C join_path st ≡ some (ok next))
        × Took st next rest (frames ls)
  unfolding on_receive_fileserver
  on_receive_fileserver-lines ls st rest r e a n b =
      let count : received_size C st.tcpc_fs ≡ size C st.tcpc_fs.crcrcv = rw r.buffered refl in
      receive-lines _ ls st rest r e a n b
        (omega (arith, count, ap length e, length-append (on_wire ls) rest, length-on_wire ls))
