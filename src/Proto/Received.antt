-- ===== src/Proto/Received.antt =====
-- What a receiver may expect of a message: which messages the `Compact*` methods of
-- airs/src/AsciiProtocol.cpp can send whole, and the message that arrives.
use airs.Base.{◌≡◌, true, not, ◌&&◌, ◌||◌, if◌then◌else◌}
use airs.Base.Int.{pos, negsuc, eqb_ℤ}
use airs.Base.Text.{Text, IsWord}
use airs.Base.Decimal.{IsInt}
use airs.Host.{Host, HostLaws}
use airs.Proto.Device.{int_min}
use airs.Proto.Data.{
  Body, aptype_reg, aptype_start, aptype_stop, aptype_loadplan, aptype_park, aptype_abtslew,
  aptype_abtimg, aptype_expose, aptype_rain, aptype_obsite, aptype_abtplan, aptype_homesync,
  aptype_slewto, aptype_track, aptype_mount, aptype_fwhm, aptype_focus, aptype_takimg,
  aptype_camera, aptype_fileinfo, aptype_filestat, aptype_guide, aptype_slit, aptype_object,
}
use airs.Proto.Init.{huge, object_init}
use airs.Proto.Compact.{valid_ra, valid_dec}

-- The type word of each class, as its constructor sets it.
abbrev pub type_word : {D : Type 0} → Body D → Text
type_word Body.reg = aptype_reg
type_word Body.start = aptype_start
type_word Body.stop = aptype_stop
type_word Body.loadplan = aptype_loadplan
type_word Body.park = aptype_park
type_word Body.abortslew = aptype_abtslew
type_word Body.abortimg = aptype_abtimg
type_word (Body.obsite x) = aptype_obsite
type_word (Body.abortplan x) = aptype_abtplan
type_word (Body.homesync x) = aptype_homesync
type_word (Body.slewto x) = aptype_slewto
type_word (Body.track x) = aptype_track
type_word (Body.mount x) = aptype_mount
type_word (Body.fwhm x) = aptype_fwhm
type_word (Body.focus x) = aptype_focus
type_word (Body.takeimg x) = aptype_takimg
type_word (Body.camera x) = aptype_camera
type_word (Body.fileinfo x) = aptype_fileinfo
type_word (Body.filestat x) = aptype_filestat
type_word (Body.guide x) = aptype_guide
type_word (Body.slit x) = aptype_slit
type_word (Body.object x) = aptype_object
type_word (Body.expose x) = aptype_expose
type_word (Body.rain x) = aptype_rain

module _ (h : Host) (l : HostLaws h) where
  -- Texts are words, numbers are in the range of an int, doubles are not subnormal, and the tests
  -- of the method are met. A plan to load, a command to expose and rain have no method for a message.
  abbrev pub Sendable : Body h.Double → Type 0
  Sendable Body.reg = Unit {0}
  Sendable Body.start = Unit {0}
  Sendable Body.stop = Unit {0}
  Sendable Body.park = Unit {0}
  Sendable Body.abortslew = Unit {0}
  Sendable Body.abortimg = Unit {0}
  Sendable Body.loadplan = ⊥
  Sendable (Body.expose x) = ⊥
  Sendable (Body.rain x) = ⊥
  Sendable (Body.obsite x) =
      IsWord x.sitename
      × (l.is_regular x.lon ≡ true)
      × (l.is_regular x.lat ≡ true)
      × (l.is_regular x.alt ≡ true)
      × IsInt x.timezone
  Sendable (Body.abortplan x) = IsWord x.plan_sn
  Sendable (Body.homesync x) =
      ((valid_ra h x.ra && valid_dec h x.dec) ≡ true)
      × (l.is_regular x.ra ≡ true)
      × (l.is_regular x.dec ≡ true)
  Sendable (Body.slewto x) =
      IsInt x.coorsys × (l.is_regular x.coor1 ≡ true) × (l.is_regular x.coor2 ≡ true)
  Sendable (Body.track x) = IsWord x.objid × IsWord x.line1 × IsWord x.line2
  Sendable (Body.mount x) =
      IsInt x.state
      × IsInt x.errcode
      × (l.is_regular x.ra ≡ true)
      × (l.is_regular x.dec ≡ true)
      × (l.is_regular x.azi ≡ true)
      × (l.is_regular x.alt ≡ true)
  Sendable (Body.fwhm x) = (l.is_regular x.value ≡ true)
  Sendable (Body.focus x) = (not (eqb_ℤ x.value int_min) ≡ true) × IsInt x.value
  Sendable (Body.takeimg x) =
      IsWord x.objname × IsWord x.imgtype × (l.is_regular x.expdur ≡ true) × IsInt x.frmcnt
  Sendable (Body.camera x) = IsInt x.state × IsInt x.errcode × (l.is_regular x.coolget ≡ true)
  Sendable (Body.fileinfo x) =
      IsWord x.tmobs × IsWord x.subpath × IsWord x.filename × IsInt x.filesize
  Sendable (Body.filestat x) = IsInt x.status
  Sendable (Body.guide x) =
      ((valid_ra h x.ra && valid_dec h x.dec) ≡ true)
      × (l.is_regular x.ra ≡ true)
      × (l.is_regular x.dec ≡ true)
      × (l.is_regular x.objra ≡ true)
      × (l.is_regular x.objdec ≡ true)
  Sendable (Body.slit x) = IsInt x.state × IsInt x.command × IsInt x.enable
  Sendable (Body.object x) =
      IsWord x.plan_sn
      × IsWord x.objname
      × IsWord x.btime
      × IsWord x.etime
      × (l.is_regular x.raobj ≡ true)
      × (l.is_regular x.decobj ≡ true)
      × IsWord x.imgtype
      × IsWord x.sabbr
      × IsInt x.iimgtyp
      × (l.is_regular x.expdur ≡ true)
      × IsInt x.frmcnt
      × IsInt x.plan_type

  -- Doubles come with six digits. The state of a focuser is not sent, nor is a target of which a
  -- coordinate is not valid; the fields of a plan are sent and are lost by `resolve_object`.
  abbrev pub received : Body h.Double → Body h.Double
  received (Body.obsite x) =
      Body.obsite (record x { lon = l.rounded x.lon; lat = l.rounded x.lat; alt = l.rounded x.alt })
  received (Body.homesync x) =
      Body.homesync (record x { ra = l.rounded x.ra; dec = l.rounded x.dec })
  received (Body.slewto x) =
      Body.slewto (record x { coor1 = l.rounded x.coor1; coor2 = l.rounded x.coor2 })
  received (Body.mount x) = Body.mount (record x {
    ra = l.rounded x.ra;
    dec = l.rounded x.dec;
    azi = l.rounded x.azi;
    alt = l.rounded x.alt;
  })
  received (Body.fwhm x) = Body.fwhm (record x { value = l.rounded x.value })
  received (Body.focus x) = Body.focus (record x { state = int_min })
  received (Body.takeimg x) = Body.takeimg (record x { expdur = l.rounded x.expdur })
  received (Body.camera x) = Body.camera (record x { coolget = h.to_float (l.rounded x.coolget) })
  received (Body.guide x) =
      let target = valid_ra h x.objra && valid_dec h x.objdec in
      Body.guide (record {
        ra = l.rounded x.ra;
        dec = l.rounded x.dec;
        objra = if target then l.rounded x.objra else huge h;
        objdec = if target then l.rounded x.objdec else huge h;
      })
  received (Body.slit x) = Body.slit (record x {
    enable = if eqb_ℤ x.enable (pos 0) || eqb_ℤ x.enable (pos 1) then x.enable else negsuc 0;
  })
  received (Body.object x) =
      let fresh = object_init h in
      Body.object (record x {
        plan_type = fresh.plan_type;
        plan_sn = fresh.plan_sn;
        raobj = if valid_ra h x.raobj then l.rounded x.raobj else fresh.raobj;
        decobj = if valid_dec h x.decobj then l.rounded x.decobj else fresh.decobj;
        expdur = l.rounded x.expdur;
      })
  received x = x
