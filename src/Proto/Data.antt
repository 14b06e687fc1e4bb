-- ===== src/Proto/Data.antt =====
-- The message classes of airs/src/AsciiProtocol.h over the base class of AsciiProtocolBase.h.
-- A message is a base part and a body; a body is one record for each class that has fields.
use airs.Base.Int.{ℤ}
use airs.Base.Text.{Text, codes}

-- The macros APTYPE_*.
abbrev pub aptype_reg : Text
aptype_reg = codes "register"

abbrev pub aptype_start : Text
aptype_start = codes "start"

abbrev pub aptype_stop : Text
aptype_stop = codes "stop"

abbrev pub aptype_obsite : Text
aptype_obsite = codes "obsite"

abbrev pub aptype_loadplan : Text
aptype_loadplan = codes "load_plan"

abbrev pub aptype_abtplan : Text
aptype_abtplan = codes "abort_plan"

abbrev pub aptype_homesync : Text
aptype_homesync = codes "home_sync"

abbrev pub aptype_slewto : Text
aptype_slewto = codes "slewto"

abbrev pub aptype_track : Text
aptype_track = codes "track"

abbrev pub aptype_park : Text
aptype_park = codes "park"

abbrev pub aptype_guide : Text
aptype_guide = codes "guide"

abbrev pub aptype_abtslew : Text
aptype_abtslew = codes "abort_slew"

abbrev pub aptype_mount : Text
aptype_mount = codes "mount"

abbrev pub aptype_rain : Text
aptype_rain = codes "rain"

abbrev pub aptype_focus : Text
aptype_focus = codes "focus"

abbrev pub aptype_slit : Text
aptype_slit = codes "slit"

abbrev pub aptype_fwhm : Text
aptype_fwhm = codes "fwhm"

abbrev pub aptype_takimg : Text
aptype_takimg = codes "take_image"

abbrev pub aptype_abtimg : Text
aptype_abtimg = codes "abort_image"

abbrev pub aptype_object : Text
aptype_object = codes "object"

abbrev pub aptype_expose : Text
aptype_expose = codes "expose"

abbrev pub aptype_camera : Text
aptype_camera = codes "camera"

abbrev pub aptype_fileinfo : Text
aptype_fileinfo = codes "fileinfo"

abbrev pub aptype_filestat : Text
aptype_filestat = codes "filestat"

-- struct ascii_proto_base.
pub record ProtoBase : Type 0 where
  pub type : Text
  pub utc : Text
  pub gid : Text
  pub uid : Text
  pub cid : Text

pub record Msg (X : Type 0) : Type 0 where
  pub base : ProtoBase
  pub body : X

-- set_timetag: the clock's time is an argument.
abbrev pub set_timetag : Text → ProtoBase → ProtoBase
set_timetag now b = record b { utc = now }

-- The three overloads of set_id.
unfoldable set_id : Text → ProtoBase → ProtoBase
set_id g b = record b { gid = g }

unfoldable set_id_unit : Text → Text → ProtoBase → ProtoBase
set_id_unit g u b = record b { gid = g; uid = u }

unfoldable set_id_camera : Text → Text → Text → ProtoBase → ProtoBase
set_id_camera g u c b = record b { gid = g; uid = u; cid = c }

pub record Obsite (D : Type 0) : Type 0 where
  pub sitename : Text
  pub lon : D
  pub lat : D
  pub alt : D
  pub timezone : ℤ

pub record AbortPlan : Type 0 where
  pub plan_sn : Text

pub record HomeSync (D : Type 0) : Type 0 where
  pub ra : D
  pub dec : D

pub record Slewto (D : Type 0) : Type 0 where
  pub coorsys : ℤ
  pub coor1 : D
  pub coor2 : D

pub record Track : Type 0 where
  pub objid : Text
  pub line1 : Text
  pub line2 : Text

pub record Guide (D : Type 0) : Type 0 where
  pub ra : D
  pub dec : D
  pub objra : D
  pub objdec : D

pub record Mount (D : Type 0) : Type 0 where
  pub state : ℤ
  pub errcode : ℤ
  pub ra : D
  pub dec : D
  pub azi : D
  pub alt : D

pub record TakeImage (D : Type 0) : Type 0 where
  pub objname : Text
  pub imgtype : Text
  pub expdur : D
  pub frmcnt : ℤ

pub record Object (D : Type 0) : Type 0 where
  pub plan_type : ℤ
  pub plan_sn : Text
  pub objname : Text
  pub btime : Text
  pub etime : Text
  pub raobj : D
  pub decobj : D
  pub imgtype : Text
  pub sabbr : Text
  pub iimgtyp : ℤ
  pub expdur : D
  pub frmcnt : ℤ

pub record Expose : Type 0 where
  pub command : ℤ

pub record Camera (D : Type 0) : Type 0 where
  pub state : ℤ
  pub errcode : ℤ
  pub coolget : D

pub record Fwhm (D : Type 0) : Type 0 where
  pub value : D

pub record Focus : Type 0 where
  pub state : ℤ
  pub value : ℤ

pub record Slit : Type 0 where
  pub state : ℤ
  pub command : ℤ
  pub enable : ℤ

pub record Rain : Type 0 where
  pub value : ℤ

pub record FileInfo : Type 0 where
  pub tmobs : Text
  pub subpath : Text
  pub filename : Text
  pub filesize : ℤ

pub record FileStat : Type 0 where
  pub status : ℤ

-- The class of a message that `Resolve` returns.
pub data Body (D : Type 0) : Type 0 where
  reg start stop loadplan park abortslew abortimg : Body D
  obsite : Obsite D → Body D
  abortplan : AbortPlan → Body D
  homesync : HomeSync D → Body D
  slewto : Slewto D → Body D
  track : Track → Body D
  guide : Guide D → Body D
  mount : Mount D → Body D
  takeimg : TakeImage D → Body D
  object : Object D → Body D
  expose : Expose → Body D
  camera : Camera D → Body D
  fwhm : Fwhm D → Body D
  focus : Focus → Body D
  slit : Slit → Body D
  rain : Rain → Body D
  fileinfo : FileInfo → Body D
  filestat : FileStat → Body D
