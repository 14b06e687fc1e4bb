-- ===== src/Proto/Pointing.antt =====
-- The `resolve_*` methods of airs/src/AsciiProtocol.cpp for the site, the plan and the mount. `stod`
-- and `stoi` may throw.
use airs.Base.{List, if◌then◌else◌}
use airs.Base.Text.{Text, codes}
use airs.Base.Decimal.{Result, ok, ◌>>=◌, stoi}
use airs.Host.{Host}
use airs.Proto.Data.{Obsite, AbortPlan, HomeSync, Slewto, Track, Guide, Mount}
use airs.Proto.Init.{
  obsite_init, abortplan_init, homesync_init, slewto_init, track_init, guide_init, mount_init,
}
use airs.Proto.Pairs.{KeyVal, over_pairs}

module _ (h : Host) where
  open h use {Double, stod, iequals}

  unfoldable pub set_obsite : Obsite Double → Text → Text → Result (Obsite Double)
  set_obsite x keyword value =
      if iequals keyword (codes "sitename")
      then ok (record x { sitename = value })
      else if iequals keyword (codes "longitude")
      then (stod value >>= λ d. ok (record x { lon = d }))
      else if iequals keyword (codes "latitude")
      then (stod value >>= λ d. ok (record x { lat = d }))
      else if iequals keyword (codes "altitude")
      then (stod value >>= λ d. ok (record x { alt = d }))
      else if iequals keyword (codes "timezone")
      then (stoi value >>= λ d. ok (record x { timezone = d }))
      else ok x

  unfoldable pub resolve_obsite : List KeyVal → Result (Obsite Double)
  unfolding over_pairs set_obsite
  resolve_obsite kvs = over_pairs set_obsite kvs (obsite_init h)

  unfoldable pub set_abortplan : AbortPlan → Text → Text → Result (AbortPlan)
  set_abortplan x keyword value =
      if iequals keyword (codes "plan_sn") then ok (record x { plan_sn = value }) else ok x

  unfoldable pub resolve_abortplan : List KeyVal → Result (AbortPlan)
  unfolding over_pairs set_abortplan
  resolve_abortplan kvs = over_pairs set_abortplan kvs abortplan_init

  unfoldable pub set_homesync : HomeSync Double → Text → Text → Result (HomeSync Double)
  set_homesync x keyword value =
      if iequals keyword (codes "ra")
      then (stod value >>= λ d. ok (record x { ra = d }))
      else if iequals keyword (codes "dec")
      then (stod value >>= λ d. ok (record x { dec = d }))
      else ok x

  unfoldable pub resolve_homesync : List KeyVal → Result (HomeSync Double)
  unfolding over_pairs set_homesync
  resolve_homesync kvs = over_pairs set_homesync kvs (homesync_init h)

  unfoldable pub set_slewto : Slewto Double → Text → Text → Result (Slewto Double)
  set_slewto x keyword value =
      if iequals keyword (codes "coorsys")
      then (stoi value >>= λ d. ok (record x { coorsys = d }))
      else if iequals keyword (codes "coor1")
      then (stod value >>= λ d. ok (record x { coor1 = d }))
      else if iequals keyword (codes "coor2")
      then (stod value >>= λ d. ok (record x { coor2 = d }))
      else ok x

  unfoldable pub resolve_slewto : List KeyVal → Result (Slewto Double)
  unfolding over_pairs set_slewto
  resolve_slewto kvs = over_pairs set_slewto kvs (slewto_init h)

  unfoldable pub set_track : Track → Text → Text → Result (Track)
  set_track x keyword value =
      if iequals keyword (codes "objid")
      then ok (record x { objid = value })
      else if iequals keyword (codes "line1")
      then ok (record x { line1 = value })
      else if iequals keyword (codes "line2")
      then ok (record x { line2 = value })
      else ok x

  unfoldable pub resolve_track : List KeyVal → Result (Track)
  unfolding over_pairs set_track
  resolve_track kvs = over_pairs set_track kvs track_init

  unfoldable pub set_guide : Guide Double → Text → Text → Result (Guide Double)
  set_guide x keyword value =
      if iequals keyword (codes "ra")
      then (stod value >>= λ d. ok (record x { ra = d }))
      else if iequals keyword (codes "dec")
      then (stod value >>= λ d. ok (record x { dec = d }))
      else if iequals keyword (codes "objra")
      then (stod value >>= λ d. ok (record x { objra = d }))
      else if iequals keyword (codes "objdec")
      then (stod value >>= λ d. ok (record x { objdec = d }))
      else ok x

  unfoldable pub resolve_guide : List KeyVal → Result (Guide Double)
  unfolding over_pairs set_guide
  resolve_guide kvs = over_pairs set_guide kvs (guide_init h)

  unfoldable pub set_mount : Mount Double → Text → Text → Result (Mount Double)
  set_mount x keyword value =
      if iequals keyword (codes "state")
      then (stoi value >>= λ d. ok (record x { state = d }))
      else if iequals keyword (codes "errcode")
      then (stoi value >>= λ d. ok (record x { errcode = d }))
      else if iequals keyword (codes "ra")
      then (stod value >>= λ d. ok (record x { ra = d }))
      else if iequals keyword (codes "dec")
      then (stod value >>= λ d. ok (record x { dec = d }))
      else if iequals keyword (codes "azi")
      then (stod value >>= λ d. ok (record x { azi = d }))
      else if iequals keyword (codes "alt")
      then (stod value >>= λ d. ok (record x { alt = d }))
      else ok x

  unfoldable pub resolve_mount : List KeyVal → Result (Mount Double)
  unfolding over_pairs set_mount
  resolve_mount kvs = over_pairs set_mount kvs (mount_init h)
