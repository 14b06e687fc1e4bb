-- ===== src/Proto/Resolve.antt =====
-- `Resolve` of airs/src/AsciiProtocol.cpp: a line of text becomes a message, or nothing when its
-- type is unknown. An exception of `stod` or `stoi` leaves it, as no one catches it there.
use airs.Base.{List, [], ◌∷◌, ◌++◌, Bool, not, ◌||◌, Option, none, some, ◌==◌, if◌then◌else◌}
use airs.Base.Text.{Text, codes, is_empty}
use airs.Base.Decimal.{Result, ok, ◌>>=◌}
use airs.Host.{Host}
use airs.Proto.Data.{
  Body, Msg, ProtoBase, aptype_reg, aptype_start, aptype_stop, aptype_obsite, aptype_loadplan,
  aptype_abtplan, aptype_homesync, aptype_slewto, aptype_track, aptype_park, aptype_guide,
  aptype_abtslew, aptype_mount, aptype_rain, aptype_focus, aptype_slit, aptype_fwhm, aptype_takimg,
  aptype_abtimg, aptype_object, aptype_expose, aptype_camera, aptype_fileinfo, aptype_filestat,
}
use airs.Proto.Init.{blank}
use airs.Proto.Pairs.{KeyVal, first_char}
use airs.Proto.Pointing.{
  resolve_obsite, resolve_abortplan, resolve_homesync, resolve_slewto, resolve_track, resolve_guide,
  resolve_mount,
}
use airs.Proto.Imaging.{
  resolve_fwhm, resolve_focus, resolve_slit, resolve_rain, resolve_takeimg, resolve_object,
  resolve_expose, resolve_camera, resolve_fileinfo, resolve_filestat,
}

-- The characters before the first space, and what follows the spaces after them.
unfoldable pub type_part : Text → Text
type_part [] = []
type_part (c ∷ s) = if c == b' ' then [] else c ∷ type_part s

unfoldable pub skip_blanks : Text → Text
skip_blanks [] = []
skip_blanks (c ∷ s) = if c == b' ' then skip_blanks s else c ∷ s

unfoldable pub after_type : Text → Text
unfolding skip_blanks
after_type [] = []
after_type (c ∷ s) = if c == b' ' then skip_blanks (c ∷ s) else after_type s

abbrev pub token : List Text → Text
token [] = []
token (t ∷ ts) = t

abbrev pub tokens_after : List Text → List Text
tokens_after [] = []
tokens_after (t ∷ ts) = ts

abbrev pub wrap {ℓ κ} : {A : Type ℓ} {B : Type κ} → (A → B) → Result A → Result (Option B)
wrap f r = r >>= λ a. ok (some (f a))

-- A message that was found gets the type and the common fields of the line.
abbrev pub with_base : {X : Type 0} → ProtoBase → Option X → Result (Option (Msg X))
with_base b none = ok none
with_base b (some x) = ok (some (record { base = b; body = x }))

module _ (h : Host) where
  open h use {Double, iequals, trim, split}

  -- The keyword, the value, and whether both are there. A second `=` ends the value.
  unfoldable pub resolve_kv : Text → KeyVal × Bool
  resolve_kv kv =
      let tokens = split (λ c. c == b'=') kv in
      let keyword = trim (token tokens) in
      let value = trim (token (tokens_after tokens)) in
      (record { keyword = keyword; value = value }, not (is_empty keyword || is_empty value))

  -- One pair: the common keywords go to the basis, the others to the list.
  unfoldable pub sort_pair : KeyVal → List KeyVal × ProtoBase → List KeyVal × ProtoBase
  sort_pair kv (kvs, basis) =
      if iequals kv.keyword (codes "utc")
      then (kvs, record basis { utc = kv.value })
      else if iequals kv.keyword (codes "gid")
      then (kvs, record basis { gid = kv.value })
      else if iequals kv.keyword (codes "uid")
      then (kvs, record basis { uid = kv.value })
      else if iequals kv.keyword (codes "cid")
      then (kvs, record basis { cid = kv.value })
      else (kvs ++ kv ∷ [], basis)

  unfoldable pub resolve_kv_array : List Text → List KeyVal × ProtoBase → List KeyVal × ProtoBase
  resolve_kv_array [] acc = acc
  resolve_kv_array (t ∷ ts) acc =
      let (kv, valid) = resolve_kv t in
      resolve_kv_array ts (if valid then sort_pair kv acc else acc)

  -- The branches of `Resolve` for the types that begin with one letter, and the one for the others.
  unfoldable pub abort : Text → List KeyVal → Result (Option (Body Double))
  abort type kvs =
      if iequals type aptype_abtslew
      then ok (some Body.abortslew)
      else if iequals type aptype_abtimg
      then ok (some Body.abortimg)
      else if iequals type aptype_abtplan
      then wrap Body.abortplan (resolve_abortplan h kvs)
      else ok none

  unfoldable pub file_focus : Text → List KeyVal → Result (Option (Body Double))
  file_focus type kvs =
      if iequals type aptype_fileinfo
      then wrap Body.fileinfo (resolve_fileinfo h kvs)
      else if iequals type aptype_filestat
      then wrap Body.filestat (resolve_filestat h kvs)
      else if iequals type aptype_fwhm
      then wrap Body.fwhm (resolve_fwhm h kvs)
      else if iequals type aptype_focus
      then wrap Body.focus (resolve_focus h kvs)
      else ok none

  unfoldable pub object_site : Text → List KeyVal → Result (Option (Body Double))
  object_site type kvs =
      if iequals type aptype_object
      then wrap Body.object (resolve_object h kvs)
      else if iequals type aptype_obsite
      then wrap Body.obsite (resolve_obsite h kvs)
      else ok none

  unfoldable pub rain_register : Text → List KeyVal → Result (Option (Body Double))
  rain_register type kvs =
      if iequals type aptype_rain
      then wrap Body.rain (resolve_rain h kvs)
      else if iequals type aptype_reg
      then ok (some Body.reg)
      else ok none

  unfoldable pub slew_switch : Text → List KeyVal → Result (Option (Body Double))
  slew_switch type kvs =
      if iequals type aptype_slewto
      then wrap Body.slewto (resolve_slewto h kvs)
      else if iequals type aptype_start
      then ok (some Body.start)
      else if iequals type aptype_stop
      then ok (some Body.stop)
      else if iequals type aptype_slit
      then wrap Body.slit (resolve_slit h kvs)
      else ok none

  unfoldable pub take_track : Text → List KeyVal → Result (Option (Body Double))
  take_track type kvs =
      if iequals type aptype_takimg
      then wrap Body.takeimg (resolve_takeimg h kvs)
      else if iequals type aptype_track
      then wrap Body.track (resolve_track h kvs)
      else ok none

  unfoldable pub other : Text → List KeyVal → Result (Option (Body Double))
  other type kvs =
      if iequals type aptype_guide
      then wrap Body.guide (resolve_guide h kvs)
      else if iequals type aptype_camera
      then wrap Body.camera (resolve_camera h kvs)
      else if iequals type aptype_expose
      then wrap Body.expose (resolve_expose h kvs)
      else if iequals type aptype_loadplan
      then ok (some Body.loadplan)
      else if iequals type aptype_mount
      then wrap Body.mount (resolve_mount h kvs)
      else if iequals type aptype_park
      then ok (some Body.park)
      else if iequals type aptype_homesync
      then wrap Body.homesync (resolve_homesync h kvs)
      else ok none

  -- The choice of the class: the first letter is compared as it is, the whole word without case.
  unfoldable pub resolve_body : Text → List KeyVal → Result (Option (Body Double))
  resolve_body type kvs =
      let ch = first_char type in
      if ch == b'a'
      then abort type kvs
      else if ch == b'f'
      then file_focus type kvs
      else if ch == b'o'
      then object_site type kvs
      else if ch == b'r'
      then rain_register type kvs
      else if ch == b's'
      then slew_switch type kvs
      else if ch == b't'
      then take_track type kvs
      else other type kvs

  -- The pairs and the common fields behind the type word.
  unfoldable pub pairs_of : Text → List KeyVal × ProtoBase
  unfolding after_type
  pairs_of rcvd =
      let rest = after_type rcvd in
      resolve_kv_array (if is_empty rest then [] else split (λ c. c == b',') rest) ([], blank)

  unfoldable pub resolve : Text → Result (Option (Msg (Body Double)))
  unfolding type_part
  resolve rcvd =
      let type = type_part rcvd in
      let basis = (pairs_of rcvd).1 in
      let found = resolve_body type (pairs_of rcvd).0 in
      if is_empty type then ok none else (found >>= with_base (record basis { type = type }))
