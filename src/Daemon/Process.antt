-- ===== src/Daemon/Process.antt =====
-- The state of DoProcess and its operations, in airs/src/DoProcess.cpp: an image comes in, the results
-- of the engines come back, and the program asks whether all is done.
use airs.Base.{
  List, [], ◌∷◌, ◌++◌, Bool, true, false, not, ◌&&◌, ◌||◌, Option, none, some, if◌then◌else◌, ℕ,
  ltb,
}
use airs.Base.Text.{Text}
use airs.Host.{Host}
use airs.Proto.Data.{ProtoBase, Msg, Fwhm, Guide, aptype_fwhm, aptype_guide}
use airs.Proto.Buffer.{AsciiProtocol, Packet}
use airs.Proto.Compact.{Sent, valid_ra, valid_dec}
use airs.Proto.Methods.{compact_fwhm, compact_guide}
use airs.Net.Circular.{Circular}
use airs.Net.Client.{Client}
use airs.Net.Transfer.{write}
use airs.Daemon.Frame.{OneFrame, frame_init}
use airs.Daemon.Engine.{Engine, finish, thread_reduct, thread_astro, thread_match}
use airs.Daemon.Finders.{Finder, finder_is_over, get_finder, new_frame}

-- The members; a pointer that may be null is an option. `logcal` holds the frames written to it.
pub record DoProcess (h : Host) (C : Circular) : Type 0 where
  pub do_astrometry : Bool
  pub do_photometry : Bool
  pub que_reduct : List (OneFrame h.Double)
  pub que_astro : List (OneFrame h.Double)
  pub que_match : List (OneFrame h.Double)
  pub que_photo : List (OneFrame h.Double)
  pub reduct : Engine (OneFrame h.Double)
  pub astro : Engine (OneFrame h.Double)
  pub matcher : Engine (OneFrame h.Double)
  pub photo : Engine (OneFrame h.Double)
  pub logcal : List (OneFrame h.Double)
  pub finders : List (Finder h.Double)
  pub tcpc_gc : Option (Client C)
  pub ascproto : Option AsciiProtocol

abbrev pub is_nil {ℓ} : {A : Type ℓ} → List A → Bool
is_nil [] = true
is_nil (x ∷ xs) = false

abbrev pub all_over : {D : Type 0} → List (Finder D) → Bool
all_over [] = true
all_over (x ∷ xs) = if not (finder_is_over x) then false else all_over xs

infixl 5 ◌>>=?◌
abbrev pub ◌>>=?◌ : {X Y : Type 0} → Option X → (X → Option Y) → Option Y
none >>=? next = none
some x >>=? next = next x

-- `threshold` is the constant 1E-4, `now` the time and `taken` what a socket without buffer accepts.
module _ (h : Host) (C : Circular) (threshold : h.Double) (now : Text) (taken : ℕ) where
  abbrev pub Frame : Type 0
  Frame = OneFrame h.Double

  abbrev pub Daemon : Type 0
  Daemon = DoProcess h C

  unfoldable pub process_image : Text → Daemon → Daemon
  process_image path d = record d {
    que_reduct = d.que_reduct ++ record (frame_init h) { filepath = path } ∷ [];
  }

  unfoldable pub is_over : Daemon → Bool
  unfolding finder_is_over
  is_over d =
      if not (is_nil d.que_reduct)
        || (not (is_nil d.que_astro) || (not (is_nil d.que_match) || not (is_nil d.que_photo)))
      then false
      else all_over d.finders

  -- The ids of a frame, in a message of a type.
  abbrev pub addressed : Text → Frame → ProtoBase
  addressed type f = record { type = type; utc = []; gid = f.gid; uid = f.uid; cid = f.cid }

  -- A line goes out; without a text Write returns at once.
  unfoldable pub send : Option Packet → Client C → Client C
  unfolding write
  send none c = c
  send (some p) c = (write C p.text taken c).0

  -- What a method makes goes to the control server, if there is one. `none` stands for a call through
  -- a null `ascproto_`.
  unfoldable pub notify :
      {X : Type 0}
      → (AsciiProtocol → Sent X)
      → Option (Client C)
      → Option AsciiProtocol
      → Daemon
      → Option Daemon
  unfolding send
  notify method none p d = some d
  notify method (some c) none d = none
  notify method (some c) (some p) d =
      let made = method p in
      some (record d { tcpc_gc = some (send made.out c); ascproto = some made.self })

  abbrev pub fwhm_msg : Frame → Msg (Fwhm h.Double)
  fwhm_msg f = record { base = addressed aptype_fwhm f; body = record { value = f.fwhm } }

  abbrev pub guide_msg : Frame → Msg (Guide h.Double)
  guide_msg f = record {
    base = addressed aptype_guide f;
    body = record { ra = f.rac; dec = f.decc; objra = f.raobj; objdec = f.decobj };
  }

  unfoldable pub notify_fwhm : Frame → Daemon → Option Daemon
  unfolding notify compact_fwhm
  notify_fwhm f d =
      if h.lt threshold f.fwhm
      then notify (λ p. compact_fwhm h p now (some (fwhm_msg f))) d.tcpc_gc d.ascproto d
      else some d

  unfoldable pub notify_guide : Frame → Daemon → Option Daemon
  unfolding notify compact_guide
  notify_guide f d = notify (λ p. compact_guide h p now (some (guide_msg f))) d.tcpc_gc d.ascproto d

  -- ImageReductResult. A result without a frame would be a null pointer.
  abbrev reduced : Option Frame → Daemon → Option Daemon
  reduced none d = none
  reduced (some f) d =
      notify_fwhm f (if d.do_astrometry then record d { que_astro = d.que_astro ++ f ∷ [] } else d)

  unfoldable pub image_reduct_result : Bool → Daemon → Option Daemon
  unfolding notify_fwhm
  image_reduct_result rslt d = if rslt then reduced d.reduct.frame d else some d

  -- AstrometryResult.
  abbrev pub to_match : Frame → Daemon → Daemon
  to_match f d = if d.do_photometry then record d { que_match = d.que_match ++ f ∷ [] } else d

  abbrev located : Option Frame → Daemon → Option Daemon
  located none d = none
  located (some f) d =
      if valid_ra h f.raobj && valid_dec h f.decobj
      then (notify_guide f d >>=? λ next. some (to_match f next))
      else some (to_match f d)

  unfoldable pub astrometry_result : Bool → Daemon → Option Daemon
  unfolding notify_guide
  astrometry_result rslt d = if rslt then located d.astro.frame d else some d

  -- MatchCatalogResult.
  abbrev matched : Option Frame → Daemon → Option Daemon
  matched none d = none
  matched (some f) d =
      let next = record d { que_photo = d.que_photo ++ f ∷ [] } in
      if valid_ra h f.rac && (valid_dec h f.decc && (valid_ra h f.raobj && valid_dec h f.decobj))
      then notify_guide f next
      else some next

  unfoldable pub match_catalog_result : Bool → Daemon → Option Daemon
  unfolding notify_guide
  match_catalog_result rslt d = if rslt then matched d.matcher.frame d else some d

  -- PhotometryResult.
  abbrev measured : Option Frame → Daemon → Option Daemon
  measured none d = none
  measured (some f) d =
      let (found, at) = get_finder f d.finders in
      some (record d { logcal = d.logcal ++ f ∷ []; finders = new_frame f at found })

  unfoldable pub photometry_result : Bool → Daemon → Option Daemon
  unfolding get_finder new_frame
  photometry_result rslt d = if rslt then measured d.photo.frame d else some d

  -- A round of each of the four threads.
  unfoldable pub run_reduct : (Frame → Option Frame) → (Frame → Bool) → Daemon → Daemon
  unfolding thread_reduct
  run_reduct check forks d =
      let (queue, e) = thread_reduct check forks d.que_reduct d.reduct in
      record d { que_reduct = queue; reduct = e }

  unfoldable pub run_astro : (Frame → Bool) → Daemon → Daemon
  unfolding thread_astro
  run_astro forks d =
      let (queue, e) = thread_astro forks d.que_astro d.astro in
      record d { que_astro = queue; astro = e }

  unfoldable pub run_match : Daemon → Daemon
  unfolding thread_match
  run_match d =
      let (queue, e) = thread_match d.que_match d.matcher in
      record d { que_match = queue; matcher = e }

  unfoldable pub run_photo : Daemon → Daemon
  unfolding thread_match
  run_photo d =
      let (queue, e) = thread_match d.que_photo d.photo in record d { que_photo = queue; photo = e }

  -- The end of an engine's own thread: no more work, and then the callback. Image reduction succeeds
  -- if the frame that it holds then has more than twenty objects.
  unfoldable pub succeeded : Option Frame → Option Bool
  succeeded none = none
  succeeded (some f) = some (ltb 20 f.nfobjs)

  unfoldable pub end_reduct : (Frame → Frame) → Daemon → Option Daemon
  unfolding image_reduct_result finish succeeded
  end_reduct work d =
      let next = record d { reduct = finish work d.reduct } in
      succeeded next.reduct.frame >>=? λ rslt. image_reduct_result rslt next

  unfoldable pub end_astro : Bool → (Frame → Frame) → Daemon → Option Daemon
  unfolding astrometry_result finish
  end_astro rslt work d = astrometry_result rslt (record d { astro = finish work d.astro })

  unfoldable pub end_match : Bool → (Frame → Frame) → Daemon → Option Daemon
  unfolding match_catalog_result finish
  end_match rslt work d = match_catalog_result rslt (record d { matcher = finish work d.matcher })

  unfoldable pub end_photo : Bool → (Frame → Frame) → Daemon → Option Daemon
  unfolding photometry_result finish
  end_photo rslt work d = photometry_result rslt (record d { photo = finish work d.photo })
