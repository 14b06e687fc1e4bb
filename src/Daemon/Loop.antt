-- ===== src/Daemon/Loop.antt =====
-- The loop of DoProcess::on_receive_fileserver in airs/src/DoProcess.cpp: it ends, and whole lines
-- are taken one after another.
use airs.Base.{
  ℕ, zero, suc, ◌+◌, ◌-◌, ◌≤◌, ◌<◌, ◌≡◌, refl, subst, ap, ◌⊎◌, inl, inr, [], ◌∷◌, true, false,
  Option, none, some, length, length-append, ltb, lt→ltb, ltb→lt, arith, Bool-cases,
}
use airs.Base.Int.{ℤ, pos, negsuc}
use airs.Base.Text.{Text}
use airs.Base.Decimal.{Result, Exception, >>=-eq-ok, ok, throw}
use airs.Host.{Host}
use airs.Proto.Data.{Msg, Body}
use airs.Proto.Resolve.{resolve}
use airs.Net.Circular.{Circular, CircularLaws}
use airs.Net.Client.{Client, size, close, received_size, tcp_pack_size}
use airs.Net.Transfer.{lookup, read, missed}
use airs.Net.Search.{lookup-cases}
use airs.Net.Flow.{IsReady, read-append}
use airs.Daemon.Receive.{
  Receiver, accept, c_string, read_line, take_line, body, receive_once, receive, continue,
}

module _ (h : Host) (C : Circular) (l : CircularLaws C) (join_path : Text → Text → Text) where
  abbrev pub State : Type 0
  State = Receiver h C

  close-is_open : (c : Client C) → (close C c).is_open ≡ false
  unfolding close
  close-is_open c = ground arith

  pub receive-closed :
      (fuel : ℕ) (st : State)
      → st.tcpc_fs.is_open ≡ false
      → receive h C join_path (suc fuel) st ≡ some (ok st)
  unfolding receive receive_once
  receive-closed fuel st e = rw e

  read_size :
      (c : Client C) (at : ℕ)
      → IsReady C l c
      → at < size C c.crcrcv
      → size C (read C true (pos (suc at)) (pos 0) c).0.crcrcv + suc at ≡ size C c.crcrcv
  read_size c at r b =
      let (split, taken, ready) = read-append C l c at r in
      let out = read C true (pos (suc at)) (pos 0) c in
      omega (arith, ap length split, length-append out.1 (C.contents out.0.crcrcv), taken)

  -- The loop goes on with a ready client that holds less, or with a closed one.
  abbrev GoesOn : State → State → Type 0
  GoesOn st next =
      (IsReady C l next.tcpc_fs × (size C next.tcpc_fs.crcrcv < size C st.tcpc_fs.crcrcv))
      ⊎ (next.tcpc_fs.is_open ≡ false)

  read_line-GoesOn :
      (st : State) (at : ℕ)
      → IsReady C l st.tcpc_fs
      → at < size C st.tcpc_fs.crcrcv
      → let next = read_line h C join_path st at in
        IsReady C l next.tcpc_fs × (size C next.tcpc_fs.crcrcv < size C st.tcpc_fs.crcrcv)
  unfolding read_line
  read_line-GoesOn st at r b =
      ((read-append C l st.tcpc_fs at r).2, omega (arith, read_size st.tcpc_fs at r b))

  accept-GoesOn :
      (st now : State) (m : Option (Msg (Body h.Double)))
      → IsReady C l now.tcpc_fs
      → size C now.tcpc_fs.crcrcv < size C st.tcpc_fs.crcrcv
      → GoesOn st (accept h C join_path now m)
  unfolding accept
  accept-GoesOn st now none r b = inr (close-is_open now.tcpc_fs)
  accept-GoesOn st now (some m) r b = inl (r, b)

  ok_injective : {X : Type 0} (x y : X) → ok x ≡ ok y → x ≡ y
  ok_injective x y e = ground arith

  take_line-GoesOn :
      (st next : State) (at : ℕ)
      → IsReady C l st.tcpc_fs
      → at < size C st.tcpc_fs.crcrcv
      → take_line h C join_path st at ≡ ok next
      → GoesOn st next
  unfolding take_line
  take_line-GoesOn st next at r b e =
      let now = read_line h C join_path st at in
      let (ready, less) = read_line-GoesOn st at r b in
      let (m, taken, found) =
        >>=-eq-ok (λ m. ok (accept h C join_path now m)) (resolve h (c_string now.bufrcv)) e in
      subst (GoesOn st) (ok_injective _ next taken) (accept-GoesOn st now m ready less)

  Result-cases :
      {X : Type 0} (r : Result X) → ((e : Exception) × (r ≡ throw e)) ⊎ ((x : X) × (r ≡ ok x))
  Result-cases (throw e) = inl (e, refl)
  Result-cases (ok x) = inr (x, refl)

  -- A round: it is the last one, or the program is left by an exception, or the loop goes on.
  abbrev Round : State → Option (Result State) → Type 0
  Round st o =
      (o ≡ none)
      ⊎ ((e : Exception) × (o ≡ some (throw e)))
      ⊎ ((next : State) × (o ≡ some (ok next)) × GoesOn st next)

  body_long :
      (st : State) (at : ℕ) → tcp_pack_size < suc at → Round st (body h C join_path st (pos at))
  unfolding body
  body_long st at b = rw (lt→ltb _ _ b) (inr (inr (_, refl, inr (close-is_open st.tcpc_fs))))

  pub body_short :
      (st : State) (at : ℕ)
      → suc at ≤ tcp_pack_size
      → body h C join_path st (pos at) ≡ some (take_line h C join_path st at)
  unfolding body
  body_short st at b = ground arith

  body_line :
      (st : State) (at : ℕ)
      → IsReady C l st.tcpc_fs
      → at < size C st.tcpc_fs.crcrcv
      → Round st (body h C join_path st (pos at))
  body_line st at r b = elim (Bool-cases (ltb tcp_pack_size (suc at))) [
    | inl long ↦ body_long st at (ltb→lt _ _ long)
    | inr short ↦
        let e = body_short st at (ground arith) in
        elim (Result-cases (take_line h C join_path st at)) [
          | inl (x, thrown) ↦ inr (inl (x, rw e (ap some thrown)))
          | inr (next, taken) ↦
              inr (inr (next, rw e (ap some taken), take_line-GoesOn st next at r b taken))
        ]
  ]

  pub body_miss : (st : State) (k : ℕ) → body h C join_path st (negsuc k) ≡ none
  unfolding body
  body_miss st k = refl

  missed_body : (st : State) (n : ℕ) → Round st (body h C join_path st (missed n 1))
  missed_body st n = elim (Bool-cases (ltb n (tcp_pack_size + 1))) [
    | inl few ↦ rw few (inl (body_miss st 0))
    | inr many ↦ rw many (body_long st (n - 1) (ground arith))
  ]

  pub receive_once-body :
      (st : State) (z : ℤ)
      → st.tcpc_fs.is_open ≡ true
      → lookup C (some (10 ∷ [])) (pos 1) (pos 0) st.tcpc_fs ≡ z
      → receive_once h C join_path st ≡ body h C join_path st z
  unfolding receive_once
  receive_once-body st z o e = rw (o, e)

  receive_once-Round :
      (st : State) → IsReady C l st.tcpc_fs → Round st (receive_once h C join_path st)
  receive_once-Round st r = elim (lookup-cases C 10 [] 0 st.tcpc_fs) [
    | inl (absent, miss) ↦
        rw (receive_once-body st _ r.opened miss) (missed_body st (received_size C st.tcpc_fs))
    | inr (k, hit, _, fits, _, _) ↦
        rw (receive_once-body st _ r.opened hit)
          (body_line st k r (ground (arith, fits, r.buffered)))
  ]

  pub receive-continue :
      (fuel : ℕ) (st : State)
      → receive h C join_path (suc fuel) st
        ≡ continue (receive_once h C join_path st) (receive h C join_path fuel) st
  unfolding receive
  receive-continue fuel st = refl

  -- With more fuel than bytes the loop comes to its end.
  pub receive-some :
      (fuel : ℕ) (st : State)
      → IsReady C l st.tcpc_fs
      → size C st.tcpc_fs.crcrcv + 2 ≤ fuel
      → (r : Result State) × (receive h C join_path fuel st ≡ some r)
  receive-some zero st r b = absurd (omega arith)
  receive-some (suc zero) st r b = absurd (omega arith)
  receive-some (suc (suc fuel)) st r b = elim (receive_once-Round st r) [
    | inl done ↦ (ok st, rw (receive-continue (suc fuel) st, done))
    | inr (inl (e, thrown)) ↦ (throw e, rw (receive-continue (suc fuel) st, thrown))
    | inr (inr (next, on, inl (ready, less))) ↦
        let (out, e) = receive-some (suc fuel) next ready (omega arith) in
        (out, rw (receive-continue (suc fuel) st, on) e)
    | inr (inr (next, on, inr closed)) ↦
        (ok next, rw (receive-continue (suc fuel) st, on) (receive-closed fuel next closed))
  ]
