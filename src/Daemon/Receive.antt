-- ===== src/Daemon/Receive.antt =====
-- DoProcess::on_receive_fileserver of airs/src/DoProcess.cpp: lines come in from the file server, and
-- a file report puts a frame into the queue of image reduction.
use airs.Base.{
  ℕ, zero, suc, ◌+◌, List, [], ◌∷◌, ◌++◌, Bool, true, false, ◌&&◌, Option, none, some, length, drop,
  set, ltb, ◌==◌, if◌then◌else◌,
}
use airs.Base.Int.{ℤ, pos, negsuc}
use airs.Base.Text.{Text}
use airs.Base.Decimal.{Result, ok, throw, ◌>>=◌}
use airs.Host.{Host}
use airs.Proto.Data.{ProtoBase, Msg, Body, FileInfo, aptype_fileinfo}
use airs.Proto.Resolve.{resolve}
use airs.Net.Circular.{Circular}
use airs.Net.Client.{Client, close, received_size, tcp_pack_size}
use airs.Net.Transfer.{lookup, read}
use airs.Daemon.Frame.{OneFrame, frame_init}

-- std::string equality.
unfoldable pub same_text : Text → Text → Bool
same_text [] [] = true
same_text [] (b ∷ t) = false
same_text (a ∷ s) [] = false
same_text (a ∷ s) (b ∷ t) = a == b && same_text s t

-- The text in a buffer of characters, up to the first 0.
unfoldable pub c_string : List ℕ → Text
c_string [] = []
c_string (c ∷ s) = let rest = c_string s in if c == 0 then [] else c ∷ rest

-- The members that the handler works on.
pub record Receiver (h : Host) (C : Circular) : Type 0 where
  pub tcpc_fs : Client C
  pub bufrcv : List ℕ
  pub que_reduct : List (OneFrame h.Double)

-- What a step of the loop leaves to do.
abbrev pub continue :
    {S : Type 0} → Option (Result S) → (S → Option (Result S)) → S → Option (Result S)
continue none more st = some (ok st)
continue (some (throw e)) more st = some (throw e)
continue (some (ok next)) more st = more next

-- `join_path` is operator/= of boost::filesystem::path.
module _ (h : Host) (C : Circular) (join_path : Text → Text → Text) where
  -- The frame of a file report.
  unfoldable pub frame_of : ProtoBase → FileInfo → OneFrame h.Double
  frame_of b x = record (frame_init h) {
    filepath = join_path x.subpath x.filename;
    gid = b.gid;
    uid = b.uid;
    cid = b.cid;
  }

  -- The frames that a message brings: one, if it is a file report by its type.
  unfoldable pub announced : ProtoBase → Body h.Double → List (OneFrame h.Double)
  unfolding same_text frame_of
  announced b (Body.fileinfo x) = if same_text b.type aptype_fileinfo then frame_of b x ∷ [] else []
  announced b x = []

  -- Without a message the connection is closed.
  unfoldable pub accept : Receiver h C → Option (Msg (Body h.Double)) → Receiver h C
  unfolding announced close
  accept st none = record st { tcpc_fs = close C st.tcpc_fs }
  accept st (some m) = record st { que_reduct = st.que_reduct ++ announced m.base m.body }

  -- The line whose end is at `at` is read, and its end made a 0.
  unfoldable pub read_line : Receiver h C → ℕ → Receiver h C
  unfolding read
  read_line st at =
      let (client, copied) = read C true (pos (suc at)) (pos 0) st.tcpc_fs in
      record st { tcpc_fs = client; bufrcv = set (copied ++ drop (length copied) st.bufrcv) at 0 }

  -- The branch for a line.
  unfoldable pub take_line : Receiver h C → ℕ → Result (Receiver h C)
  unfolding read_line c_string resolve accept
  take_line st at =
      let st' = read_line st at in resolve h (c_string st'.bufrcv) >>= λ m. ok (accept st' m)

  -- The body of the loop, by the result of Lookup: `none` when the loop ends.
  unfoldable pub body : Receiver h C → ℤ → Option (Result (Receiver h C))
  unfolding close take_line
  body st (negsuc k) = none
  body st (pos at) =
      if ltb tcp_pack_size (suc at)
      then some (ok (record st { tcpc_fs = close C st.tcpc_fs }))
      else some (take_line st at)

  unfoldable pub receive_once : Receiver h C → Option (Result (Receiver h C))
  unfolding lookup body
  receive_once st =
      if st.tcpc_fs.is_open
      then body st (lookup C (some (10 ∷ [])) (pos 1) (pos 0) st.tcpc_fs)
      else none

  -- The loop; `none` when the fuel is used up.
  unfoldable pub receive : ℕ → Receiver h C → Option (Result (Receiver h C))
  unfolding receive_once
  receive zero st = none
  receive (suc fuel) st = continue (receive_once st) (receive fuel) st

  unfoldable pub on_receive_fileserver : Receiver h C → Option (Result (Receiver h C))
  unfolding receive
  on_receive_fileserver st = receive (received_size C st.tcpc_fs + 2) st
