-- ===== src/Proto/ImagingTrip.antt =====
-- The messages for the camera, the focus and the file transfer in airs/src/AsciiProtocol.cpp: the
-- fields that their `Compact*` methods write are words, and their `resolve_*` methods read them back.
use airs.Base.{◌≡◌, refl, map, All, some}
use airs.Base.Decimal.{ok}
use airs.Host.{Host, HostLaws}
use airs.Proto.Data.{
  Body, Fwhm, Focus, TakeImage, Camera, FileInfo, FileStat, aptype_fwhm, aptype_focus,
  aptype_takimg, aptype_camera, aptype_fileinfo, aptype_filestat,
}
use airs.Proto.Wire.{pair}
use airs.Proto.Fields.{
  fwhm_fields, focus_fields, takeimg_fields, camera_fields, fileinfo_fields, filestat_fields,
}
use airs.Proto.Resolve.{file_focus, other, take_track, resolve_body}
use airs.Proto.Sent.{IsGood}
use airs.Proto.Numbers.{print_int-IsWord, stoi-print_int}
use airs.Proto.Received.{Sendable, received}
use airs.Proto.Imaging.{
  resolve_fwhm, resolve_focus, resolve_takeimg, resolve_camera, resolve_fileinfo, resolve_filestat,
}

module _ (h : Host) (l : HostLaws h) where
  pub fwhm_fields-IsGood :
      (x : Fwhm h.Double) → Sendable h l (Body.fwhm x) → All IsGood (fwhm_fields h x)
  unfolding fwhm_fields
  fwhm_fields-IsGood x s = ((refl, l.print_double-IsWord x.value), tt)

  pub resolve-fwhm_fields :
      (x : Fwhm h.Double)
      → Sendable h l (Body.fwhm x)
      → resolve_body h aptype_fwhm (map pair (fwhm_fields h x))
        ≡ ok (some (received h l (Body.fwhm x)))
  unfolding resolve_body file_focus resolve_fwhm fwhm_fields
  resolve-fwhm_fields x s = simp (l.iequals_letters, l.stod-print_double x.value s)

  pub focus_fields-IsGood :
      (x : Focus) → Sendable h l (Body.focus x) → All IsGood (focus_fields h x)
  unfolding focus_fields
  focus_fields-IsGood x s = ((refl, print_int-IsWord h l x.value), tt)

  pub resolve-focus_fields :
      (x : Focus)
      → Sendable h l (Body.focus x)
      → resolve_body h aptype_focus (map pair (focus_fields h x))
        ≡ ok (some (received h l (Body.focus x)))
  unfolding resolve_body file_focus resolve_focus focus_fields
  resolve-focus_fields x s = simp (l.iequals_letters, stoi-print_int h l x.value s.1)

  pub takeimg_fields-IsGood :
      (x : TakeImage h.Double) → Sendable h l (Body.takeimg x) → All IsGood (takeimg_fields h x)
  unfolding takeimg_fields
  takeimg_fields-IsGood x s = (
    (refl, s.0),
    (
      (refl, s.1),
      ((refl, l.print_double-IsWord x.expdur), ((refl, print_int-IsWord h l x.frmcnt), tt)),
    ),
  )

  pub resolve-takeimg_fields :
      (x : TakeImage h.Double)
      → Sendable h l (Body.takeimg x)
      → resolve_body h aptype_takimg (map pair (takeimg_fields h x))
        ≡ ok (some (received h l (Body.takeimg x)))
  unfolding resolve_body take_track resolve_takeimg takeimg_fields
  resolve-takeimg_fields x s =
      simp (l.iequals_letters, l.stod-print_double x.expdur s.2, stoi-print_int h l x.frmcnt s.3)

  pub camera_fields-IsGood :
      (x : Camera h.Double) → Sendable h l (Body.camera x) → All IsGood (camera_fields h x)
  unfolding camera_fields
  camera_fields-IsGood x s = (
    (refl, print_int-IsWord h l x.state),
    ((refl, print_int-IsWord h l x.errcode), ((refl, l.print_double-IsWord x.coolget), tt)),
  )

  pub resolve-camera_fields :
      (x : Camera h.Double)
      → Sendable h l (Body.camera x)
      → resolve_body h aptype_camera (map pair (camera_fields h x))
        ≡ ok (some (received h l (Body.camera x)))
  unfolding resolve_body other resolve_camera camera_fields
  resolve-camera_fields x s = simp (
    l.iequals_letters,
    stoi-print_int h l x.state s.0,
    stoi-print_int h l x.errcode s.1,
    l.stod-print_double x.coolget s.2,
  )

  pub fileinfo_fields-IsGood :
      (x : FileInfo) → Sendable h l (Body.fileinfo x) → All IsGood (fileinfo_fields h x)
  unfolding fileinfo_fields
  fileinfo_fields-IsGood x s =
      ((refl, s.0), ((refl, s.1), ((refl, s.2), ((refl, print_int-IsWord h l x.filesize), tt))))

  pub resolve-fileinfo_fields :
      (x : FileInfo)
      → Sendable h l (Body.fileinfo x)
      → resolve_body h aptype_fileinfo (map pair (fileinfo_fields h x))
        ≡ ok (some (received h l (Body.fileinfo x)))
  unfolding resolve_body file_focus resolve_fileinfo fileinfo_fields
  resolve-fileinfo_fields x s = simp (l.iequals_letters, stoi-print_int h l x.filesize s.3)

  pub filestat_fields-IsGood :
      (x : FileStat) → Sendable h l (Body.filestat x) → All IsGood (filestat_fields h x)
  unfolding filestat_fields
  filestat_fields-IsGood x s = ((refl, print_int-IsWord h l x.status), tt)

  pub resolve-filestat_fields :
      (x : FileStat)
      → Sendable h l (Body.filestat x)
      → resolve_body h aptype_filestat (map pair (filestat_fields h x))
        ≡ ok (some (received h l (Body.filestat x)))
  unfolding resolve_body file_focus resolve_filestat filestat_fields
  resolve-filestat_fields x s = simp (l.iequals_letters, stoi-print_int h l x.status s)
