-- ===== src/Proto/Imaging.antt =====
-- The `resolve_*` methods of airs/src/AsciiProtocol.cpp for the camera, the focus, the dome, the rain
-- gauge and the file transfer. `stod` and `stoi` may throw.
use airs.Base.{ℕ, List, ◌==◌, if◌then◌else◌}
use airs.Base.Text.{Text, codes}
use airs.Base.Decimal.{Result, ok, ◌>>=◌, stoi}
use airs.Host.{Host}
use airs.Proto.Data.{Fwhm, Focus, Slit, Rain, TakeImage, Object, Expose, Camera, FileInfo, FileStat}
use airs.Proto.Init.{
  fwhm_init, focus_init, slit_init, rain_init, takeimg_init, object_init, expose_init, camera_init,
  fileinfo_init, filestat_init,
}
use airs.Proto.Pairs.{KeyVal, over_pairs, first_char}

module _ (h : Host) where
  open h use {Double, to_float, stod, iequals}

  unfoldable pub set_fwhm : Fwhm Double → Text → Text → Result (Fwhm Double)
  set_fwhm x keyword value =
      if iequals keyword (codes "value")
      then (stod value >>= λ d. ok (record x { value = d }))
      else ok x

  unfoldable pub resolve_fwhm : List KeyVal → Result (Fwhm Double)
  unfolding over_pairs set_fwhm
  resolve_fwhm kvs = over_pairs set_fwhm kvs (fwhm_init h)

  unfoldable pub set_focus : Focus → Text → Text → Result (Focus)
  set_focus x keyword value =
      if iequals keyword (codes "state")
      then (stoi value >>= λ d. ok (record x { state = d }))
      else if iequals keyword (codes "value")
      then (stoi value >>= λ d. ok (record x { value = d }))
      else ok x

  unfoldable pub resolve_focus : List KeyVal → Result (Focus)
  unfolding over_pairs set_focus
  resolve_focus kvs = over_pairs set_focus kvs focus_init

  unfoldable pub set_slit : Slit → Text → Text → Result (Slit)
  set_slit x keyword value =
      if iequals keyword (codes "state")
      then (stoi value >>= λ d. ok (record x { state = d }))
      else if iequals keyword (codes "command")
      then (stoi value >>= λ d. ok (record x { command = d }))
      else if iequals keyword (codes "enable")
      then (stoi value >>= λ d. ok (record x { enable = d }))
      else ok x

  unfoldable pub resolve_slit : List KeyVal → Result (Slit)
  unfolding over_pairs set_slit
  resolve_slit kvs = over_pairs set_slit kvs slit_init

  unfoldable pub set_rain : Rain → Text → Text → Result (Rain)
  set_rain x keyword value =
      if iequals keyword (codes "value")
      then (stoi value >>= λ d. ok (record x { value = d }))
      else ok x

  unfoldable pub resolve_rain : List KeyVal → Result (Rain)
  unfolding over_pairs set_rain
  resolve_rain kvs = over_pairs set_rain kvs rain_init

  unfoldable pub set_takeimg : TakeImage Double → Text → Text → Result (TakeImage Double)
  set_takeimg x keyword value =
      if iequals keyword (codes "objname")
      then ok (record x { objname = value })
      else if iequals keyword (codes "imgtype")
      then ok (record x { imgtype = value })
      else if iequals keyword (codes "expdur")
      then (stod value >>= λ d. ok (record x { expdur = d }))
      else if iequals keyword (codes "frmcnt")
      then (stoi value >>= λ d. ok (record x { frmcnt = d }))
      else ok x

  unfoldable pub resolve_takeimg : List KeyVal → Result (TakeImage Double)
  unfolding over_pairs set_takeimg
  resolve_takeimg kvs = over_pairs set_takeimg kvs (takeimg_init h)

  unfoldable pub set_expose : Expose → Text → Text → Result (Expose)
  set_expose x keyword value =
      if iequals keyword (codes "command")
      then (stoi value >>= λ d. ok (record x { command = d }))
      else ok x

  unfoldable pub resolve_expose : List KeyVal → Result (Expose)
  unfolding over_pairs set_expose
  resolve_expose kvs = over_pairs set_expose kvs expose_init

  unfoldable pub set_camera : Camera Double → Text → Text → Result (Camera Double)
  set_camera x keyword value =
      if iequals keyword (codes "state")
      then (stoi value >>= λ d. ok (record x { state = d }))
      else if iequals keyword (codes "errcode")
      then (stoi value >>= λ d. ok (record x { errcode = d }))
      else if iequals keyword (codes "coolget")
      then (stod value >>= λ d. ok (record x { coolget = to_float d }))
      else ok x

  unfoldable pub resolve_camera : List KeyVal → Result (Camera Double)
  unfolding over_pairs set_camera
  resolve_camera kvs = over_pairs set_camera kvs (camera_init h)

  unfoldable pub set_fileinfo : FileInfo → Text → Text → Result (FileInfo)
  set_fileinfo x keyword value =
      if iequals keyword (codes "tmobs")
      then ok (record x { tmobs = value })
      else if iequals keyword (codes "subpath")
      then ok (record x { subpath = value })
      else if iequals keyword (codes "filename")
      then ok (record x { filename = value })
      else if iequals keyword (codes "filesize")
      then (stoi value >>= λ d. ok (record x { filesize = d }))
      else ok x

  unfoldable pub resolve_fileinfo : List KeyVal → Result (FileInfo)
  unfolding over_pairs set_fileinfo
  resolve_fileinfo kvs = over_pairs set_fileinfo kvs fileinfo_init

  unfoldable pub set_filestat : FileStat → Text → Text → Result (FileStat)
  set_filestat x keyword value =
      if iequals keyword (codes "status")
      then (stoi value >>= λ d. ok (record x { status = d }))
      else ok x

  unfoldable pub resolve_filestat : List KeyVal → Result (FileStat)
  unfolding over_pairs set_filestat
  resolve_filestat kvs = over_pairs set_filestat kvs filestat_init

  -- The letter that the branch for "o" stores in `ch` is the result of the comparison: the source
  -- writes `(ch = keyword[0] == 'o')`.
  unfoldable pub set_object : Object Double → Text → Text → Result (Object Double)
  set_object x keyword value =
      let first = first_char keyword in
      let ch : ℕ = (if first == b'o' then 1 else 0) in
      if iequals keyword (codes "btime")
      then ok (record x { btime = value })
      else if first == b'e'
      then (if iequals keyword (codes "expdur")
          then (stod value >>= λ d. ok (record x { expdur = d }))
          else if iequals keyword (codes "etime")
          then ok (record x { etime = value })
          else ok x)
      else if iequals keyword (codes "frmcnt")
      then (stoi value >>= λ d. ok (record x { frmcnt = d }))
      else if first == b'i'
      then (if iequals keyword (codes "imgtype")
          then ok (record x { imgtype = value })
          else if iequals keyword (codes "iimgtyp")
          then (stoi value >>= λ d. ok (record x { iimgtyp = d }))
          else ok x)
      else if ch == 1
      then (if iequals keyword (codes "objname")
          then ok (record x { objname = value })
          else if iequals keyword (codes "objra")
          then (stod value >>= λ d. ok (record x { raobj = d }))
          else if iequals keyword (codes "objdec")
          then (stod value >>= λ d. ok (record x { decobj = d }))
          else ok x)
      else if ch == b'p'
      then (if iequals keyword (codes "plan_sn")
          then ok (record x { plan_sn = value })
          else if iequals keyword (codes "plan_type")
          then (stoi value >>= λ d. ok (record x { plan_type = d }))
          else ok x)
      else if iequals keyword (codes "sabbr")
      then ok (record x { sabbr = value })
      else ok x

  unfoldable pub resolve_object : List KeyVal → Result (Object Double)
  unfolding over_pairs set_object
  resolve_object kvs = over_pairs set_object kvs (object_init h)
