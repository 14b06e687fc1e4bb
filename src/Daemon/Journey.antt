-- ===== src/Daemon/Journey.antt =====
-- One image on its way through the pipeline of airs/src/DoProcess.cpp, without a control server.
use airs.Base.{ℕ, ◌≡◌, List, Bool, true, false, Option, none, some, if◌then◌else◌, arith}
use airs.Base.Text.{Text}
use airs.Host.{Host}
use airs.Net.Circular.{Circular}
use airs.Daemon.Frame.{OneFrame}
use airs.Daemon.Engine.{Engine}
use airs.Daemon.Finders.{Finder}
use airs.Daemon.Process.{
  DoProcess, process_image, notify, notify_fwhm, run_reduct, run_astro, run_match, run_photo,
  end_reduct, end_astro, end_match, end_photo, ◌>>=?◌,
}

module _ (h : Host) (C : Circular) (threshold : h.Double) (now : Text) (taken : ℕ) where
  abbrev D : Type 0
  D = DoProcess h C

  abbrev F : Type 0
  F = OneFrame h.Double

  -- Which frames wait where, with no engine at work, both switches on and no control server.
  pub record IsAt (finders : List (Finder h.Double)) (logcal q1 q2 q3 q4 : List F) (d : D)
      : Type 0 where
    pub que_reduct : d.que_reduct ≡ q1
    pub que_astro : d.que_astro ≡ q2
    pub que_match : d.que_match ≡ q3
    pub que_photo : d.que_photo ≡ q4
    pub reduct_idle : d.reduct.working ≡ false
    pub astro_idle : d.astro.working ≡ false
    pub match_idle : d.matcher.working ≡ false
    pub photo_idle : d.photo.working ≡ false
    pub do_astrometry : d.do_astrometry ≡ true
    pub do_photometry : d.do_photometry ≡ true
    pub no_server : d.tcpc_gc ≡ none
    pub finders_same : d.finders ≡ finders
    pub logcal_same : d.logcal ≡ logcal

  notify_fwhm-off :
      (f : F) (d : D) → d.tcpc_gc ≡ none → notify_fwhm h C threshold now taken f d ≡ some d
  unfolding notify_fwhm notify
  notify_fwhm-off f d e = ground arith

  pub fwhm_next :
      (f : F) (b : Bool) (x y : D)
      → b ≡ true
      → x.tcpc_gc ≡ none
      → notify_fwhm h C threshold now taken f (if b then x else y) ≡ some x
  fwhm_next f true x y b e = notify_fwhm-off f x e
  fwhm_next f false x y b e = cc

  -- A round of each thread in turn, and the end of each engine, with what each does to its frame.
  unfoldable pub journey :
      (F → Option F) → (F → Bool) → Text → (F → F) → (F → F) → (F → F) → (F → F) → D → Option D
  unfolding process_image run_reduct end_reduct run_astro end_astro run_match end_match run_photo
      end_photo
  journey check forks path w1 w2 w3 w4 d =
      end_reduct h C threshold now taken w1 (
        run_reduct h C threshold now taken check forks
          (process_image h C threshold now taken path d))
      >>=? (λ d1.
          end_astro h C threshold now taken true w2 (run_astro h C threshold now taken forks d1))
      >>=? (λ d2. end_match h C threshold now taken true w3 (run_match h C threshold now taken d2))
      >>=? (λ d3. end_photo h C threshold now taken true w4 (run_photo h C threshold now taken d3))
