-- ===== src/Proto/Fields.antt =====
-- The fields that the `Compact*` methods of airs/src/AsciiProtocol.cpp write for each class, after
-- the common ones. `boost::format` puts a text as it is and a number as a stream prints it.
use airs.Base.{Bool, List, [], ◌∷◌, not, ◌&&◌, ◌||◌}
use airs.Base.Int.{pos, eqb_ℤ}
use airs.Base.Text.{codes}
use airs.Host.{Host}
use airs.Proto.Device.{int_min}
use airs.Proto.Data.{
  Obsite, AbortPlan, HomeSync, Slewto, Track, Guide, Mount, TakeImage, Object, Camera, Fwhm, Focus,
  Slit, FileInfo, FileStat,
}
use airs.Proto.Compact.{Field, field_if, valid_ra, valid_dec}

module _ (h : Host) where
  open h use {Double, print_double, print_int}

  unfoldable pub obsite_fields : Obsite Double → List Field
  obsite_fields x =
      (codes "sitename", x.sitename)
      ∷ (codes "longitude", print_double x.lon)
      ∷ (codes "latitude", print_double x.lat)
      ∷ (codes "altitude", print_double x.alt)
      ∷ (codes "timezone", print_int x.timezone)
      ∷ []

  unfoldable pub abortplan_fields : AbortPlan → List Field
  abortplan_fields x = (codes "plan_sn", x.plan_sn) ∷ []

  unfoldable pub homesync_fields : HomeSync Double → List Field
  homesync_fields x = (codes "ra", print_double x.ra) ∷ (codes "dec", print_double x.dec) ∷ []

  unfoldable pub slewto_fields : Slewto Double → List Field
  slewto_fields x =
      (codes "coorsys", print_int x.coorsys)
      ∷ (codes "coor1", print_double x.coor1)
      ∷ (codes "coor2", print_double x.coor2)
      ∷ []

  unfoldable pub track_fields : Track → List Field
  track_fields x =
      (codes "objid", x.objid) ∷ (codes "line1", x.line1) ∷ (codes "line2", x.line2) ∷ []

  unfoldable pub mount_fields : Mount Double → List Field
  mount_fields x =
      (codes "state", print_int x.state)
      ∷ (codes "errcode", print_int x.errcode)
      ∷ (codes "ra", print_double x.ra)
      ∷ (codes "dec", print_double x.dec)
      ∷ (codes "azi", print_double x.azi)
      ∷ (codes "alt", print_double x.alt)
      ∷ []

  unfoldable pub fwhm_fields : Fwhm Double → List Field
  fwhm_fields x = (codes "value", print_double x.value) ∷ []

  unfoldable pub focus_fields : Focus → List Field
  focus_fields x = (codes "value", print_int x.value) ∷ []

  unfoldable pub takeimg_fields : TakeImage Double → List Field
  takeimg_fields x =
      (codes "objname", x.objname)
      ∷ (codes "imgtype", x.imgtype)
      ∷ (codes "expdur", print_double x.expdur)
      ∷ (codes "frmcnt", print_int x.frmcnt)
      ∷ []

  unfoldable pub camera_fields : Camera Double → List Field
  camera_fields x =
      (codes "state", print_int x.state)
      ∷ (codes "errcode", print_int x.errcode)
      ∷ (codes "coolget", print_double x.coolget)
      ∷ []

  unfoldable pub fileinfo_fields : FileInfo → List Field
  fileinfo_fields x =
      (codes "tmobs", x.tmobs)
      ∷ (codes "subpath", x.subpath)
      ∷ (codes "filename", x.filename)
      ∷ (codes "filesize", print_int x.filesize)
      ∷ []

  unfoldable pub filestat_fields : FileStat → List Field
  filestat_fields x = (codes "status", print_int x.status) ∷ []

  -- The target goes along only when both its coordinates are valid.
  unfoldable pub guide_fields : Guide Double → List Field
  guide_fields x =
      let target = valid_ra h x.objra && valid_dec h x.objdec in
      (codes "ra", print_double x.ra)
      ∷ (codes "dec", print_double x.dec)
      ∷ field_if target (codes "objra", print_double x.objra)
          (field_if target (codes "objdec", print_double x.objdec) [])

  -- A state or a command of INT_MIN is not set, and an `enable` other than 0 and 1 neither.
  unfoldable pub slit_fields : Slit → List Field
  slit_fields x =
      field_if (not (eqb_ℤ x.state int_min)) (codes "state", print_int x.state)
        (field_if (not (eqb_ℤ x.command int_min)) (codes "command", print_int x.command)
          (field_if (eqb_ℤ x.enable (pos 0) || eqb_ℤ x.enable (pos 1))
            (codes "enable", print_int x.enable) []))

  -- The two tests are arguments, for the proofs that split on them.
  abbrev pub object_list : Bool → Bool → Object Double → List Field
  object_list has_ra has_dec x =
      (codes "plan_type", print_int x.plan_type)
      ∷ (codes "plan_sn", x.plan_sn)
      ∷ (codes "objname", x.objname)
      ∷ (codes "btime", x.btime)
      ∷ (codes "etime", x.etime)
      ∷ field_if has_ra (codes "objra", print_double x.raobj)
          (field_if has_dec (codes "objdec", print_double x.decobj)
            ((codes "imgtype", x.imgtype)
              ∷ (codes "sabbr", x.sabbr)
              ∷ (codes "iimgtyp", print_int x.iimgtyp)
              ∷ (codes "expdur", print_double x.expdur)
              ∷ (codes "frmcnt", print_int x.frmcnt)
              ∷ []))

  unfoldable pub object_fields : Object Double → List Field
  object_fields x = object_list (valid_ra h x.raobj) (valid_dec h x.decobj) x
