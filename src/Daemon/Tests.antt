-- ===== src/Daemon/Tests.antt =====
-- A receiver with one file report, frames on their way, and the theorems on the daemon at them.
use airs.Base.{
  ℕ, zero, suc, ◌≡◌, if◌then◌else◌, refl, inl, inr, List, [], ◌∷◌, ◌++◌, true, false, Option, none,
  some, arith, ltb,
}
use airs.Base.Int.{ℤ, pos}
use airs.Base.Text.{Text, codes}
use airs.Base.Decimal.{Result, ok, stoi}
use airs.Host.Sample.{sample, cut_left, cut_right, pieces}
use airs.Proto.Data.{Msg, Body}
use airs.Proto.Init.{blank, fileinfo_init}
use airs.Proto.Pairs.{over_pairs}
use airs.Proto.Imaging.{set_fileinfo, resolve_fileinfo}
use airs.Proto.Resolve.{
  resolve, pairs_of, resolve_body, type_part, skip_blanks, after_type, resolve_kv, sort_pair,
  resolve_kv_array, file_focus,
}
use airs.Net.Circular.Plain.{plain, plain-CircularLaws}
use airs.Net.Client.{Client}
use airs.Net.Flow.{IsReady}
use airs.Daemon.Frame.{OneFrame, frame_init}
use airs.Daemon.Receive.{Receiver, on_receive_fileserver}
use airs.Daemon.Lines.{
  Lines, Took, frames, on_wire, on_receive_fileserver-some, on_receive_fileserver-lines,
}
use airs.Daemon.Engine.{Engine, thread_reduct}
use airs.Daemon.Rounds.{Outcome, thread_reduct-Outcome}
use airs.Daemon.Finders.{Finder, is_matched, set_ids, finder_is_over}
use airs.Daemon.Delivery.{deliver, frames_for, frames_for-deliver_each}
use airs.Daemon.Process.{DoProcess, process_image, run_reduct, is_over, all_over}
use airs.Daemon.Stages.{run_reduct-is_over}

abbrev join_path : Text → Text → Text
join_path a b = a ++ b'/' ∷ b

abbrev report : Text
report = codes "fileinfo gid=1,subpath=/d,filename=a"

abbrev report_msg : Msg (Body ℤ)
report_msg = record {
  base = record blank { type = codes "fileinfo"; gid = codes "1" };
  body = Body.fileinfo (record fileinfo_init { subpath = codes "/d"; filename = codes "a" });
}

report-resolve : resolve sample report ≡ ok (some report_msg)
unfolding resolve pairs_of resolve_body type_part skip_blanks after_type resolve_kv sort_pair
    resolve_kv_array file_focus set_fileinfo resolve_fileinfo over_pairs stoi cut_left cut_right
    pieces
report-resolve = refl

abbrev client : List ℕ → Client plain
client bytes = record {
  is_open = true;
  usebuf = true;
  pause_rcv = false;
  bytercv = 0;
  bufrcv = [];
  crcrcv = record { capacity = 150000; items = bytes };
  crcsnd = record { capacity = 150000; items = [] };
  has_conn = false;
  has_rcv = true;
  has_snd = false;
  reads = 1;
  writing = [];
  calls = [];
}

abbrev receiver : Receiver sample plain
receiver = record {
  tcpc_fs = client (codes "fileinfo gid=1,subpath=/d,filename=a\nfile");
  bufrcv = [];
  que_reduct = [];
}

receiver-IsReady : IsReady plain plain-CircularLaws receiver.tcpc_fs
receiver-IsReady = record {
  buffered = refl;
  opened = refl;
  room = refl;
  one_read = omega arith;
  reading = inr (omega arith);
  paused = inl refl;
}

on_receive_fileserver-some_example :
    (r : Result (Receiver sample plain)) × (on_receive_fileserver sample plain join_path receiver
      ≡ some r)
on_receive_fileserver-some_example =
    on_receive_fileserver-some sample plain plain-CircularLaws join_path receiver receiver-IsReady

abbrev one_line : Lines ℤ
one_line = (report, report_msg) ∷ []

one_line-on_wire : plain.contents receiver.tcpc_fs.crcrcv ≡ on_wire one_line ++ codes "file"
unfolding on_wire
one_line-on_wire = refl

on_receive_fileserver-lines_example :
    (next : Receiver sample plain) × (on_receive_fileserver sample plain join_path receiver
      ≡ some (ok next))
    × Took sample plain plain-CircularLaws join_path receiver next
        (codes "file")
        (frames sample plain plain-CircularLaws join_path one_line)
on_receive_fileserver-lines_example =
    on_receive_fileserver-lines sample plain plain-CircularLaws join_path one_line receiver
      (codes "file") receiver-IsReady one_line-on_wire ((refl, omega arith, report-resolve), tt)
      refl (omega arith)

-- Numbers for frames: 0 is refused, and no process is started for 1.
abbrev check_number : ℕ → Option ℕ
check_number n = elim n [ zero ↦ none | suc k ↦ some (suc k) ]

abbrev idle : {F : Type 0} → Engine F
idle = record { working = false; frame = none }

thread_reduct-Outcome_example :
    Outcome check_number
      (ltb 1)
      (0 ∷ 1 ∷ 7 ∷ 8 ∷ [])
      (thread_reduct check_number (ltb 1) (0 ∷ 1 ∷ 7 ∷ 8 ∷ []) idle)
thread_reduct-Outcome_example =
    thread_reduct-Outcome check_number (ltb 1) (0 ∷ 1 ∷ 7 ∷ 8 ∷ []) idle refl

abbrev good : OneFrame ℤ
good = record (frame_init sample) {
  filepath = codes "/d/a";
  gid = codes "1";
  uid = codes "2";
  cid = codes "3";
  fwhm = pos 2;
}

abbrev other_finder : Finder ℤ
other_finder = record {
  gid = codes "1";
  uid = codes "2";
  cid = codes "4";
  frmque = [];
  busy = false;
}

abbrev finders : List (Finder ℤ)
finders = other_finder ∷ []

frames_for-deliver_each_example :
    frames_for (codes "1") (codes "2") (codes "3") (deliver good finders) ≡ (
      if is_matched {D = ℤ} (codes "1") (codes "2") (codes "3") (set_ids good.gid good.uid good.cid)
      then frames_for (codes "1") (codes "2") (codes "3") finders ++ good ∷ []
      else frames_for (codes "1") (codes "2") (codes "3") finders)
frames_for-deliver_each_example =
    frames_for-deliver_each good finders (codes "1") (codes "2") (codes "3")

abbrev daemon : Option (Client plain) → DoProcess sample plain
daemon gc = record {
  do_astrometry = true;
  do_photometry = true;
  que_reduct = [];
  que_astro = [];
  que_match = [];
  que_photo = [];
  reduct = idle;
  astro = idle;
  matcher = idle;
  photo = idle;
  logcal = [];
  finders = finders;
  tcpc_gc = gc;
  ascproto = none;
}

abbrev accept_all : OneFrame ℤ → Option (OneFrame ℤ)
accept_all f = some good

finders-all_over : all_over finders ≡ true
unfolding finder_is_over
finders-all_over = refl

run_reduct-is_over_example :
    let next =
      run_reduct sample plain
        (pos 0)
        []
        0
        accept_all
        (λ f. true)
        (process_image sample plain (pos 0) [] 0 (codes "/d/a") (daemon none)) in
    (is_over sample plain (pos 0) [] 0 next ≡ true)
    × (next.reduct ≡ record { working = true; frame = some good })
run_reduct-is_over_example =
    run_reduct-is_over sample plain (pos 0) [] 0 (daemon none) accept_all (λ f. true) (codes "/d/a")
      good
      (record {
        no_reduct = refl;
        no_astro = refl;
        no_match = refl;
        no_photo = refl;
        reduct = refl;
        astro = refl;
        matcher = refl;
        photo = refl;
      })
      finders-all_over refl refl

-- Image reduction finds 30 objects; the other engines leave the frame as it is, but for the FWHM.
abbrev counted : OneFrame ℤ → OneFrame ℤ
counted f = record f { nfobjs = 30 }

abbrev sharpened : OneFrame ℤ → OneFrame ℤ
sharpened f = record f { fwhm = pos 1 }

abbrev done : OneFrame ℤ
done = record good { nfobjs = 30; fwhm = pos 1 }

abbrev first_frame : OneFrame ℤ
first_frame = record good { filepath = codes "/d/b" }

abbrev waiting : DoProcess sample plain
waiting = record (daemon none) {
  que_reduct = frame_init sample ∷ [];
  reduct = record { working = true; frame = some first_frame };
}
