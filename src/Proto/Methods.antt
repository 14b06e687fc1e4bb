-- ===== src/Proto/Methods.antt =====
-- The `Compact*` methods of airs/src/AsciiProtocol.cpp, class by class.
use airs.Base.{List, [], ◌∷◌, not, ◌&&◌, Option}
use airs.Base.Int.{ℤ, eqb_ℤ}
use airs.Base.Text.{Text, codes, is_empty}
use airs.Host.{Host}
use airs.Proto.Device.{int_min}
use airs.Proto.Data.{
  Msg, Obsite, AbortPlan, HomeSync, Slewto, Track, Guide, Mount, TakeImage, Object, Camera, Fwhm,
  Focus, Slit, FileInfo, FileStat, aptype_loadplan, aptype_homesync, aptype_slewto, aptype_track,
  aptype_park, aptype_guide, aptype_abtslew, aptype_focus, aptype_slit, aptype_rain, aptype_expose,
}
use airs.Proto.Buffer.{AsciiProtocol, Packet, output_line}
use airs.Proto.Compact.{
  Field, Sent, field_if, compact_with, compact_direct, always, valid_ra, valid_dec,
}
use airs.Proto.Fields.{
  obsite_fields, abortplan_fields, homesync_fields, slewto_fields, track_fields, guide_fields,
  mount_fields, takeimg_fields, object_fields, camera_fields, fwhm_fields, focus_fields,
  slit_fields, fileinfo_fields, filestat_fields,
}

abbrev no_fields : Unit {0} → List Field
no_fields x = []

module _ (h : Host) where
  open h use {Double, print_double, print_int}

  unfoldable pub compact_register : AsciiProtocol → Text → Option (Msg (Unit {0})) → Sent (Unit {0})
  compact_register = compact_with h always no_fields

  unfoldable pub compact_start : AsciiProtocol → Text → Option (Msg (Unit {0})) → Sent (Unit {0})
  compact_start = compact_with h always no_fields

  unfoldable pub compact_stop : AsciiProtocol → Text → Option (Msg (Unit {0})) → Sent (Unit {0})
  compact_stop = compact_with h always no_fields

  unfoldable pub compact_obsite :
      AsciiProtocol → Text → Option (Msg (Obsite Double)) → Sent (Obsite Double)
  compact_obsite = compact_with h always (obsite_fields h)

  unfoldable pub compact_loadplan : AsciiProtocol → AsciiProtocol × Packet
  compact_loadplan p = output_line p aptype_loadplan

  unfoldable pub compact_abortplan : AsciiProtocol → Text → Option (Msg AbortPlan) → Sent AbortPlan
  compact_abortplan = compact_with h always (abortplan_fields h)

  unfoldable pub compact_homesync :
      AsciiProtocol → Text → Option (Msg (HomeSync Double)) → Sent (HomeSync Double)
  compact_homesync = compact_with h (λ x. valid_ra h x.ra && valid_dec h x.dec) (homesync_fields h)

  unfoldable pub compact_homesync_values : AsciiProtocol → Double → Double → AsciiProtocol × Packet
  compact_homesync_values p ra dec =
      compact_direct h p aptype_homesync
        ((codes "ra", print_double ra) ∷ (codes "dec", print_double dec) ∷ [])

  unfoldable pub compact_slewto :
      AsciiProtocol → Text → Option (Msg (Slewto Double)) → Sent (Slewto Double)
  compact_slewto = compact_with h always (slewto_fields h)

  unfoldable pub compact_slewto_values :
      AsciiProtocol → ℤ → Double → Double → AsciiProtocol × Packet
  compact_slewto_values p coorsys coor1 coor2 =
      compact_direct h p aptype_slewto
        (slewto_fields h (record { coorsys = coorsys; coor1 = coor1; coor2 = coor2 }))

  unfoldable pub compact_track : AsciiProtocol → Text → Option (Msg Track) → Sent Track
  compact_track = compact_with h always (track_fields h)

  unfoldable pub compact_track_values : AsciiProtocol → Text → Text → Text → AsciiProtocol × Packet
  compact_track_values p objid line1 line2 =
      compact_direct h p aptype_track
        (track_fields h (record { objid = objid; line1 = line1; line2 = line2 }))

  unfoldable pub compact_park : AsciiProtocol → Text → Option (Msg (Unit {0})) → Sent (Unit {0})
  compact_park = compact_with h always no_fields

  unfoldable pub compact_park_line : AsciiProtocol → AsciiProtocol × Packet
  compact_park_line p = output_line p aptype_park

  unfoldable pub compact_guide :
      AsciiProtocol → Text → Option (Msg (Guide Double)) → Sent (Guide Double)
  compact_guide = compact_with h (λ x. valid_ra h x.ra && valid_dec h x.dec) (guide_fields h)

  unfoldable pub compact_guide_values : AsciiProtocol → Double → Double → AsciiProtocol × Packet
  compact_guide_values p ra dec =
      compact_direct h p aptype_guide
        ((codes "ra", print_double ra) ∷ (codes "dec", print_double dec) ∷ [])

  unfoldable pub compact_abortslew :
      AsciiProtocol → Text → Option (Msg (Unit {0})) → Sent (Unit {0})
  compact_abortslew = compact_with h always no_fields

  unfoldable pub compact_abortslew_line : AsciiProtocol → AsciiProtocol × Packet
  compact_abortslew_line p = output_line p aptype_abtslew

  unfoldable pub compact_mount :
      AsciiProtocol → Text → Option (Msg (Mount Double)) → Sent (Mount Double)
  compact_mount = compact_with h always (mount_fields h)

  unfoldable pub compact_fwhm :
      AsciiProtocol → Text → Option (Msg (Fwhm Double)) → Sent (Fwhm Double)
  compact_fwhm = compact_with h always (fwhm_fields h)

  unfoldable pub compact_focus : AsciiProtocol → Text → Option (Msg Focus) → Sent Focus
  compact_focus = compact_with h (λ x. not (eqb_ℤ x.value int_min)) (focus_fields h)

  unfoldable pub compact_focus_values : AsciiProtocol → ℤ → AsciiProtocol × Packet
  compact_focus_values p position =
      compact_direct h p aptype_focus ((codes "value", print_int position) ∷ [])

  unfoldable pub compact_slit : AsciiProtocol → Text → Option (Msg Slit) → Sent Slit
  compact_slit = compact_with h always (slit_fields h)

  unfoldable pub compact_slit_values : AsciiProtocol → ℤ → ℤ → AsciiProtocol × Packet
  compact_slit_values p state command = compact_direct h p aptype_slit (
      field_if (not (eqb_ℤ state int_min)) (codes "state", print_int state)
        (field_if (not (eqb_ℤ command int_min)) (codes "command", print_int command) []))

  unfoldable pub compact_rain : AsciiProtocol → Text → AsciiProtocol × Packet
  compact_rain p value = compact_direct h p aptype_rain ((codes "value", value) ∷ [])

  unfoldable pub compact_takeimg :
      AsciiProtocol → Text → Option (Msg (TakeImage Double)) → Sent (TakeImage Double)
  compact_takeimg = compact_with h always (takeimg_fields h)

  unfoldable pub compact_abortimg : AsciiProtocol → Text → Option (Msg (Unit {0})) → Sent (Unit {0})
  compact_abortimg = compact_with h always no_fields

  unfoldable pub compact_object :
      AsciiProtocol → Text → Option (Msg (Object Double)) → Sent (Object Double)
  compact_object = compact_with h (λ x. not (is_empty x.plan_sn)) (object_fields h)

  unfoldable pub compact_expose : AsciiProtocol → ℤ → AsciiProtocol × Packet
  compact_expose p cmd = compact_direct h p aptype_expose ((codes "command", print_int cmd) ∷ [])

  unfoldable pub compact_camera :
      AsciiProtocol → Text → Option (Msg (Camera Double)) → Sent (Camera Double)
  compact_camera = compact_with h always (camera_fields h)

  unfoldable pub compact_fileinfo : AsciiProtocol → Text → Option (Msg FileInfo) → Sent FileInfo
  compact_fileinfo = compact_with h always (fileinfo_fields h)

  unfoldable pub compact_filestat : AsciiProtocol → Text → Option (Msg FileStat) → Sent FileStat
  compact_filestat = compact_with h always (filestat_fields h)
