-- ===== src/Proto/RoundTrip.antt =====
-- The protocol as a whole: what a `Compact*` method of airs/src/AsciiProtocol.cpp makes of a message,
-- `Resolve` turns back into the message.
use airs.Base.{true, ◌≡◌, refl, Option, some, none, [], not}
use airs.Base.Text.{Text, is_empty, IsWord}
use airs.Base.Decimal.{ok}
use airs.Host.{Host, HostLaws}
use airs.Proto.Data.{
  ProtoBase, Body, set_timetag, aptype_reg, aptype_start, aptype_stop, aptype_park, aptype_abtslew,
  aptype_abtimg,
}
use airs.Proto.Buffer.{AsciiProtocol, Packet}
use airs.Proto.Buffer.Retention.{IsRing}
use airs.Proto.Methods.{
  compact_register, compact_start, compact_stop, compact_park, compact_abortslew, compact_abortimg,
  compact_obsite, compact_abortplan, compact_homesync, compact_slewto, compact_track, compact_mount,
  compact_guide, compact_takeimg, compact_object, compact_camera, compact_fwhm, compact_focus,
  compact_slit, compact_fileinfo, compact_filestat,
}
use airs.Proto.Resolve.{abort, other, rain_register, slew_switch, resolve_body}
use airs.Proto.Line.{IsType}
use airs.Proto.Sent.{IsAddressed, Arrives, FitsSlot, compact_with-Arrives}
use airs.Proto.Received.{type_word, Sendable, received}
use airs.Proto.PointingTrip.{
  obsite_fields-IsGood, resolve-obsite_fields, abortplan_fields-IsGood, resolve-abortplan_fields,
  homesync_fields-IsGood, resolve-homesync_fields, slewto_fields-IsGood, resolve-slewto_fields,
  track_fields-IsGood, resolve-track_fields, mount_fields-IsGood, resolve-mount_fields,
}
use airs.Proto.ImagingTrip.{
  takeimg_fields-IsGood, resolve-takeimg_fields, camera_fields-IsGood, resolve-camera_fields,
  fwhm_fields-IsGood, resolve-fwhm_fields, focus_fields-IsGood, resolve-focus_fields,
  fileinfo_fields-IsGood, resolve-fileinfo_fields, filestat_fields-IsGood, resolve-filestat_fields,
}
use airs.Proto.OptionalTrip.{
  guide_fields-IsGood, resolve-guide_fields, slit_fields-IsGood, resolve-slit_fields,
  object_fields-IsGood, resolve-object_fields,
}

module _ (h : Host) where
  -- The call of the method that takes a message of this class. Three classes have none.
  unfoldable pub compact : AsciiProtocol → Text → ProtoBase → Body h.Double → Option Packet
  compact p now b Body.reg = (compact_register h p now (some (record { base = b; body = tt }))).out
  compact p now b Body.start = (compact_start h p now (some (record { base = b; body = tt }))).out
  compact p now b Body.stop = (compact_stop h p now (some (record { base = b; body = tt }))).out
  compact p now b Body.park = (compact_park h p now (some (record { base = b; body = tt }))).out
  compact p now b Body.abortslew =
      (compact_abortslew h p now (some (record { base = b; body = tt }))).out
  compact p now b Body.abortimg =
      (compact_abortimg h p now (some (record { base = b; body = tt }))).out
  compact p now b (Body.obsite x) =
      (compact_obsite h p now (some (record { base = b; body = x }))).out
  compact p now b (Body.abortplan x) =
      (compact_abortplan h p now (some (record { base = b; body = x }))).out
  compact p now b (Body.homesync x) =
      (compact_homesync h p now (some (record { base = b; body = x }))).out
  compact p now b (Body.slewto x) =
      (compact_slewto h p now (some (record { base = b; body = x }))).out
  compact p now b (Body.track x) =
      (compact_track h p now (some (record { base = b; body = x }))).out
  compact p now b (Body.mount x) =
      (compact_mount h p now (some (record { base = b; body = x }))).out
  compact p now b (Body.guide x) =
      (compact_guide h p now (some (record { base = b; body = x }))).out
  compact p now b (Body.takeimg x) =
      (compact_takeimg h p now (some (record { base = b; body = x }))).out
  compact p now b (Body.object x) =
      (compact_object h p now (some (record { base = b; body = x }))).out
  compact p now b (Body.camera x) =
      (compact_camera h p now (some (record { base = b; body = x }))).out
  compact p now b (Body.fwhm x) = (compact_fwhm h p now (some (record { base = b; body = x }))).out
  compact p now b (Body.focus x) =
      (compact_focus h p now (some (record { base = b; body = x }))).out
  compact p now b (Body.slit x) = (compact_slit h p now (some (record { base = b; body = x }))).out
  compact p now b (Body.fileinfo x) =
      (compact_fileinfo h p now (some (record { base = b; body = x }))).out
  compact p now b (Body.filestat x) =
      (compact_filestat h p now (some (record { base = b; body = x }))).out
  compact p now b Body.loadplan = none
  compact p now b (Body.expose x) = none
  compact p now b (Body.rain x) = none

-- The type words are words without a space.
type_word-IsType : {D : Type 0} (x : Body D) → IsType (type_word x)
type_word-IsType Body.reg = record { filled = refl; one_piece = refl; no_nul = refl }
type_word-IsType x = record { filled = refl; one_piece = refl; no_nul = refl }

filled-not_empty : (t : Text) → IsWord t → not (is_empty t) ≡ true
filled-not_empty t w = rw w.filled

module _ (h : Host) (l : HostLaws h) where
  typed : (t : Text) (x : Body h.Double) → t ≡ type_word x → IsType t
  typed t x e = rw e (type_word-IsType x)

  resolve_reg : resolve_body h aptype_reg [] ≡ ok (some Body.reg)
  unfolding resolve_body rain_register
  resolve_reg = simp l.iequals_letters

  resolve_start : resolve_body h aptype_start [] ≡ ok (some Body.start)
  unfolding resolve_body slew_switch
  resolve_start = simp l.iequals_letters

  resolve_stop : resolve_body h aptype_stop [] ≡ ok (some Body.stop)
  unfolding resolve_body slew_switch
  resolve_stop = simp l.iequals_letters

  resolve_park : resolve_body h aptype_park [] ≡ ok (some Body.park)
  unfolding resolve_body other
  resolve_park = simp l.iequals_letters

  resolve_abortslew : resolve_body h aptype_abtslew [] ≡ ok (some Body.abortslew)
  unfolding resolve_body abort
  resolve_abortslew = simp l.iequals_letters

  resolve_abortimg : resolve_body h aptype_abtimg [] ≡ ok (some Body.abortimg)
  unfolding resolve_body abort
  resolve_abortimg = simp l.iequals_letters

  -- For every class of message that has a Compact method taking the message, if the output buffer
  -- is the block of ten slots with its index below ten, the time tag is a word, the ids are empty
  -- or words, the type is the class's own word, the fields are sendable, and what the method puts
  -- out fits a slot with its line end and the final 0, then the method makes a line of the
  -- message with its length, and Resolve reads from the line, without its line end, the message
  -- with the time tag of the call, its ids, and its fields as `received` says: doubles at six
  -- digits, the state of a focuser and the plan of an object message lost, a target that is not
  -- valid left out.
  pub resolve-compact :
      (p : AsciiProtocol) (now : Text) (b : ProtoBase) (x : Body h.Double)
      → IsRing p
      → IsWord now
      → IsAddressed b
      → b.type ≡ type_word x
      → Sendable h l x
      → FitsSlot (compact h p now b x)
      → Arrives h (compact h p now b x) (record { base = set_timetag now b; body = received h l x })
  unfolding compact compact_register compact_start compact_stop compact_park compact_abortslew
      compact_abortimg compact_obsite compact_abortplan compact_homesync compact_slewto
      compact_track compact_mount compact_guide compact_takeimg compact_object compact_camera
      compact_fwhm compact_focus compact_slit compact_fileinfo compact_filestat
  resolve-compact p now b Body.reg r w a t s =
      compact_with-Arrives h l _ _ p now b tt _ refl r (typed b.type Body.reg t) w a tt
        (rw t resolve_reg)
  resolve-compact p now b Body.start r w a t s =
      compact_with-Arrives h l _ _ p now b tt _ refl r (typed b.type Body.start t) w a tt
        (rw t resolve_start)
  resolve-compact p now b Body.stop r w a t s =
      compact_with-Arrives h l _ _ p now b tt _ refl r (typed b.type Body.stop t) w a tt
        (rw t resolve_stop)
  resolve-compact p now b Body.park r w a t s =
      compact_with-Arrives h l _ _ p now b tt _ refl r (typed b.type Body.park t) w a tt
        (rw t resolve_park)
  resolve-compact p now b Body.abortslew r w a t s =
      compact_with-Arrives h l _ _ p now b tt _ refl r (typed b.type Body.abortslew t) w a tt
        (rw t resolve_abortslew)
  resolve-compact p now b Body.abortimg r w a t s =
      compact_with-Arrives h l _ _ p now b tt _ refl r (typed b.type Body.abortimg t) w a tt
        (rw t resolve_abortimg)
  resolve-compact p now b (Body.obsite x) r w a t s =
      compact_with-Arrives h l _ _ p now b x _ refl r (typed b.type (Body.obsite x) t) w a
        (obsite_fields-IsGood h l x s) (rw t (resolve-obsite_fields h l x s))
  resolve-compact p now b (Body.abortplan x) r w a t s =
      compact_with-Arrives h l _ _ p now b x _ refl r (typed b.type (Body.abortplan x) t) w a
        (abortplan_fields-IsGood h l x s) (rw t (resolve-abortplan_fields h l x s))
  resolve-compact p now b (Body.homesync x) r w a t s =
      compact_with-Arrives h l _ _ p now b x _ s.0 r (typed b.type (Body.homesync x) t) w a
        (homesync_fields-IsGood h l x s) (rw t (resolve-homesync_fields h l x s))
  resolve-compact p now b (Body.slewto x) r w a t s =
      compact_with-Arrives h l _ _ p now b x _ refl r (typed b.type (Body.slewto x) t) w a
        (slewto_fields-IsGood h l x s) (rw t (resolve-slewto_fields h l x s))
  resolve-compact p now b (Body.track x) r w a t s =
      compact_with-Arrives h l _ _ p now b x _ refl r (typed b.type (Body.track x) t) w a
        (track_fields-IsGood h l x s) (rw t (resolve-track_fields h l x s))
  resolve-compact p now b (Body.mount x) r w a t s =
      compact_with-Arrives h l _ _ p now b x _ refl r (typed b.type (Body.mount x) t) w a
        (mount_fields-IsGood h l x s) (rw t (resolve-mount_fields h l x s))
  resolve-compact p now b (Body.guide x) r w a t s =
      compact_with-Arrives h l _ _ p now b x _ s.0 r (typed b.type (Body.guide x) t) w a
        (guide_fields-IsGood h l x s) (rw t (resolve-guide_fields h l x s))
  resolve-compact p now b (Body.takeimg x) r w a t s =
      compact_with-Arrives h l _ _ p now b x _ refl r (typed b.type (Body.takeimg x) t) w a
        (takeimg_fields-IsGood h l x s) (rw t (resolve-takeimg_fields h l x s))
  resolve-compact p now b (Body.object x) r w a t s =
      compact_with-Arrives h l _ _ p now b x _ (filled-not_empty x.plan_sn s.0) r
        (typed b.type (Body.object x) t) w a (object_fields-IsGood h l x s)
        (rw t (resolve-object_fields h l x s))
  resolve-compact p now b (Body.camera x) r w a t s =
      compact_with-Arrives h l _ _ p now b x _ refl r (typed b.type (Body.camera x) t) w a
        (camera_fields-IsGood h l x s) (rw t (resolve-camera_fields h l x s))
  resolve-compact p now b (Body.fwhm x) r w a t s =
      compact_with-Arrives h l _ _ p now b x _ refl r (typed b.type (Body.fwhm x) t) w a
        (fwhm_fields-IsGood h l x s) (rw t (resolve-fwhm_fields h l x s))
  resolve-compact p now b (Body.focus x) r w a t s =
      compact_with-Arrives h l _ _ p now b x _ s.0 r (typed b.type (Body.focus x) t) w a
        (focus_fields-IsGood h l x s) (rw t (resolve-focus_fields h l x s))
  resolve-compact p now b (Body.slit x) r w a t s =
      compact_with-Arrives h l _ _ p now b x _ refl r (typed b.type (Body.slit x) t) w a
        (slit_fields-IsGood h l x s) (rw t (resolve-slit_fields h l x s))
  resolve-compact p now b (Body.fileinfo x) r w a t s =
      compact_with-Arrives h l _ _ p now b x _ refl r (typed b.type (Body.fileinfo x) t) w a
        (fileinfo_fields-IsGood h l x s) (rw t (resolve-fileinfo_fields h l x s))
  resolve-compact p now b (Body.filestat x) r w a t s =
      compact_with-Arrives h l _ _ p now b x _ refl r (typed b.type (Body.filestat x) t) w a
        (filestat_fields-IsGood h l x s) (rw t (resolve-filestat_fields h l x s))
  resolve-compact p now b Body.loadplan r w a t s = absurd s
  resolve-compact p now b (Body.expose x) r w a t s = absurd s
  resolve-compact p now b (Body.rain x) r w a t s = absurd s
