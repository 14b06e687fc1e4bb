-- ===== src/Daemon/Frame.antt =====
-- struct OneFrame of airs/src/airsdata.h, with the fields that DoProcess reads or writes itself.
use airs.Base.{ℕ, [], ◌^◌}
use airs.Base.Int.{pos}
use airs.Base.Text.{Text}
use airs.Host.{Host}

pub record OneFrame (D : Type 0) : Type 0 where
  pub filepath : Text
  pub raobj : D
  pub decobj : D
  pub gid : Text
  pub uid : Text
  pub cid : Text
  pub fwhm : D
  pub rac : D
  pub decc : D
  -- The number of objects found.
  pub nfobjs : ℕ

-- OneFrame::OneFrame.
abbrev pub frame_init : (h : Host) → OneFrame h.Double
frame_init h = record {
  filepath = [];
  raobj = h.of_int (pos (10 ^ 30));
  decobj = h.of_int (pos (10 ^ 30));
  gid = [];
  uid = [];
  cid = [];
  fwhm = h.of_int (pos 0);
  rac = h.of_int (pos 0);
  decc = h.of_int (pos 0);
  nfobjs = 0;
}
