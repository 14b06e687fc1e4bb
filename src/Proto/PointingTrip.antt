-- ===== src/Proto/PointingTrip.antt =====
-- The messages for the site, the plan and the mount in airs/src/AsciiProtocol.cpp: the fields that
-- their `Compact*` methods write are words, and their `resolve_*` methods read them back.
use airs.Base.{◌≡◌, refl, map, All, some}
use airs.Base.Decimal.{ok}
use airs.Host.{Host, HostLaws}
use airs.Proto.Data.{
  Body, Obsite, AbortPlan, HomeSync, Slewto, Track, Mount, aptype_obsite, aptype_abtplan,
  aptype_homesync, aptype_slewto, aptype_track, aptype_mount,
}
use airs.Proto.Wire.{pair}
use airs.Proto.Fields.{
  obsite_fields, abortplan_fields, homesync_fields, slewto_fields, track_fields, mount_fields,
}
use airs.Proto.Resolve.{abort, object_site, other, slew_switch, take_track, resolve_body}
use airs.Proto.Sent.{IsGood}
use airs.Proto.Numbers.{print_int-IsWord, stoi-print_int}
use airs.Proto.Received.{Sendable, received}
use airs.Proto.Pointing.{
  resolve_obsite, resolve_abortplan, resolve_homesync, resolve_slewto, resolve_track, resolve_mount,
}

module _ (h : Host) (l : HostLaws h) where
  pub obsite_fields-IsGood :
      (x : Obsite h.Double) → Sendable h l (Body.obsite x) → All IsGood (obsite_fields h x)
  unfolding obsite_fields
  obsite_fields-IsGood x s = (
    (refl, s.0),
    (
      (refl, l.print_double-IsWord x.lon),
      (
        (refl, l.print_double-IsWord x.lat),
        ((refl, l.print_double-IsWord x.alt), ((refl, print_int-IsWord h l x.timezone), tt)),
      ),
    ),
  )

  pub resolve-obsite_fields :
      (x : Obsite h.Double)
      → Sendable h l (Body.obsite x)
      → resolve_body h aptype_obsite (map pair (obsite_fields h x))
        ≡ ok (some (received h l (Body.obsite x)))
  unfolding resolve_body object_site resolve_obsite obsite_fields
  resolve-obsite_fields x s = simp (
    l.iequals_letters,
    l.stod-print_double x.lon s.1,
    l.stod-print_double x.lat s.2,
    l.stod-print_double x.alt s.3,
    stoi-print_int h l x.timezone s.4,
  )

  pub abortplan_fields-IsGood :
      (x : AbortPlan) → Sendable h l (Body.abortplan x) → All IsGood (abortplan_fields h x)
  unfolding abortplan_fields
  abortplan_fields-IsGood x s = ((refl, s), tt)

  pub resolve-abortplan_fields :
      (x : AbortPlan)
      → Sendable h l (Body.abortplan x)
      → resolve_body h aptype_abtplan (map pair (abortplan_fields h x))
        ≡ ok (some (received h l (Body.abortplan x)))
  unfolding resolve_body abort resolve_abortplan abortplan_fields
  resolve-abortplan_fields x s = simp (l.iequals_letters)

  pub homesync_fields-IsGood :
      (x : HomeSync h.Double) → Sendable h l (Body.homesync x) → All IsGood (homesync_fields h x)
  unfolding homesync_fields
  homesync_fields-IsGood x s =
      ((refl, l.print_double-IsWord x.ra), ((refl, l.print_double-IsWord x.dec), tt))

  pub resolve-homesync_fields :
      (x : HomeSync h.Double)
      → Sendable h l (Body.homesync x)
      → resolve_body h aptype_homesync (map pair (homesync_fields h x))
        ≡ ok (some (received h l (Body.homesync x)))
  unfolding resolve_body other resolve_homesync homesync_fields
  resolve-homesync_fields x s =
      simp (l.iequals_letters, l.stod-print_double x.ra s.1, l.stod-print_double x.dec s.2)

  pub slewto_fields-IsGood :
      (x : Slewto h.Double) → Sendable h l (Body.slewto x) → All IsGood (slewto_fields h x)
  unfolding slewto_fields
  slewto_fields-IsGood x s = (
    (refl, print_int-IsWord h l x.coorsys),
    ((refl, l.print_double-IsWord x.coor1), ((refl, l.print_double-IsWord x.coor2), tt)),
  )

  pub resolve-slewto_fields :
      (x : Slewto h.Double)
      → Sendable h l (Body.slewto x)
      → resolve_body h aptype_slewto (map pair (slewto_fields h x))
        ≡ ok (some (received h l (Body.slewto x)))
  unfolding resolve_body slew_switch resolve_slewto slewto_fields
  resolve-slewto_fields x s = simp (
    l.iequals_letters,
    stoi-print_int h l x.coorsys s.0,
    l.stod-print_double x.coor1 s.1,
    l.stod-print_double x.coor2 s.2,
  )

  pub track_fields-IsGood :
      (x : Track) → Sendable h l (Body.track x) → All IsGood (track_fields h x)
  unfolding track_fields
  track_fields-IsGood x s = ((refl, s.0), ((refl, s.1), ((refl, s.2), tt)))

  pub resolve-track_fields :
      (x : Track)
      → Sendable h l (Body.track x)
      → resolve_body h aptype_track (map pair (track_fields h x))
        ≡ ok (some (received h l (Body.track x)))
  unfolding resolve_body take_track resolve_track track_fields
  resolve-track_fields x s = simp (l.iequals_letters)

  pub mount_fields-IsGood :
      (x : Mount h.Double) → Sendable h l (Body.mount x) → All IsGood (mount_fields h x)
  unfolding mount_fields
  mount_fields-IsGood x s = (
    (refl, print_int-IsWord h l x.state),
    (
      (refl, print_int-IsWord h l x.errcode),
      (
        (refl, l.print_double-IsWord x.ra),
        (
          (refl, l.print_double-IsWord x.dec),
          ((refl, l.print_double-IsWord x.azi), ((refl, l.print_double-IsWord x.alt), tt)),
        ),
      ),
    ),
  )

  pub resolve-mount_fields :
      (x : Mount h.Double)
      → Sendable h l (Body.mount x)
      → resolve_body h aptype_mount (map pair (mount_fields h x))
        ≡ ok (some (received h l (Body.mount x)))
  unfolding resolve_body other resolve_mount mount_fields
  resolve-mount_fields x s = simp (
    l.iequals_letters,
    stoi-print_int h l x.state s.0,
    stoi-print_int h l x.errcode s.1,
    l.stod-print_double x.ra s.2,
    l.stod-print_double x.dec s.3,
    l.stod-print_double x.azi s.4,
    l.stod-print_double x.alt s.5,
  )
