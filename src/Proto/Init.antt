-- ===== src/Proto/Init.antt =====
-- What the default constructors of the message classes in airs/src/AsciiProtocol.h leave in the
-- fields of a fresh message.
use airs.Base.{[], ◌^◌}
use airs.Base.Int.{pos, negsuc}
use airs.Host.{Host}
use airs.Proto.Device.{imgtype_error, camctl_error, int_min}
use airs.Proto.Data.{
  ProtoBase, Obsite, AbortPlan, HomeSync, Slewto, Track, Guide, Mount, TakeImage, Object, Expose,
  Camera, Fwhm, Focus, Slit, Rain, FileInfo, FileStat,
}

-- A base with no text set.
abbrev pub blank : ProtoBase
blank = record { type = []; utc = []; gid = []; uid = []; cid = [] }

-- What the default constructors leave in the fields.
module _ (h : Host) where
  open h use {Double, of_int}

  abbrev pub huge : Double
  huge = of_int (pos (10 ^ 30))

  abbrev pub obsite_init : Obsite Double
  obsite_init = record {
    sitename = [];
    lon = of_int (pos 0);
    lat = of_int (pos 0);
    alt = of_int (pos 0);
    timezone = pos 8;
  }

  abbrev pub homesync_init : HomeSync Double
  homesync_init = record { ra = huge; dec = huge }

  abbrev pub slewto_init : Slewto Double
  slewto_init = record { coorsys = pos 1; coor1 = of_int (pos 180); coor2 = of_int (pos 40) }

  abbrev pub guide_init : Guide Double
  guide_init = record { ra = huge; dec = huge; objra = huge; objdec = huge }

  abbrev pub mount_init : Mount Double
  mount_init = record {
    state = pos 0;
    errcode = int_min;
    ra = huge;
    dec = huge;
    azi = huge;
    alt = huge;
  }

  abbrev pub takeimg_init : TakeImage Double
  takeimg_init = record { objname = []; imgtype = []; expdur = of_int (pos 0); frmcnt = pos 0 }

  abbrev pub object_init : Object Double
  object_init = record {
    plan_type = pos 0;
    plan_sn = [];
    objname = [];
    btime = [];
    etime = [];
    raobj = of_int (negsuc 999);
    decobj = of_int (negsuc 999);
    imgtype = [];
    sabbr = [];
    iimgtyp = imgtype_error;
    expdur = of_int (pos 0);
    frmcnt = negsuc 0;
  }

  abbrev pub camera_init : Camera Double
  camera_init = record { state = camctl_error; errcode = int_min; coolget = of_int (pos 0) }

  abbrev pub fwhm_init : Fwhm Double
  fwhm_init = record { value = of_int (pos 0) }

abbrev pub abortplan_init : AbortPlan
abortplan_init = record { plan_sn = [] }

abbrev pub track_init : Track
track_init = record { objid = []; line1 = []; line2 = [] }

abbrev pub expose_init : Expose
expose_init = record { command = pos 0 }

abbrev pub focus_init : Focus
focus_init = record { state = int_min; value = int_min }

abbrev pub slit_init : Slit
slit_init = record { state = int_min; command = int_min; enable = negsuc 0 }

abbrev pub rain_init : Rain
rain_init = record { value = pos 0 }

abbrev pub fileinfo_init : FileInfo
fileinfo_init = record { tmobs = []; subpath = []; filename = []; filesize = int_min }

abbrev pub filestat_init : FileStat
filestat_init = record { status = int_min }
