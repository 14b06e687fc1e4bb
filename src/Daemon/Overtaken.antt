-- ===== src/Daemon/Overtaken.antt =====
-- An engine of airs/src/DoProcess.cpp clears its working flag before its callback asks for the frame, and
-- the thread that hands out frames may run between the two.
use airs.Base.{ℕ, ◌≡◌, List, [], Bool, true, Option, some}
use airs.Base.Text.{Text}
use airs.Host.{Host}
use airs.Net.Circular.{Circular}
use airs.Daemon.Frame.{OneFrame}
use airs.Daemon.Engine.{Engine, finish}
use airs.Daemon.Process.{DoProcess, succeeded, image_reduct_result, run_reduct, ◌>>=?◌}

module _ (h : Host) (C : Circular) (threshold : h.Double) (now : Text) (taken : ℕ) where
  abbrev F : Type 0
  F = OneFrame h.Double

  -- The end of an image reduction, with a round of thread_reduct after the flag is cleared and before
  -- the objects of the frame are counted.
  unfoldable pub end_reduct_early :
      (F → Option F) → (F → Bool) → (F → F) → DoProcess h C → Option (DoProcess h C)
  unfolding run_reduct image_reduct_result finish succeeded
  end_reduct_early check forks work d =
      let next =
        run_reduct h C threshold now taken check forks
          (record d { reduct = finish work d.reduct }) in
      succeeded h C threshold now taken next.reduct.frame >>=? λ rslt.
      image_reduct_result h C threshold now taken rslt next

  -- The same with the round after they are counted and before the callback asks for the frame.
  unfoldable pub end_reduct_late :
      (F → Option F) → (F → Bool) → (F → F) → DoProcess h C → Option (DoProcess h C)
  unfolding run_reduct image_reduct_result finish succeeded
  end_reduct_late check forks work d =
      let done = record d { reduct = finish work d.reduct } in
      succeeded h C threshold now taken done.reduct.frame >>=? λ rslt.
      image_reduct_result h C threshold now taken rslt
        (run_reduct h C threshold now taken check forks done)

  -- The engine works on the frame that waited, and astrometry has these frames.
  pub record Overtook (g : F) (astro : List F) (next : DoProcess h C) : Type 0 where
    pub que_astro : next.que_astro ≡ astro
    pub reduct : next.reduct ≡ record { working = true; frame = some g }
    pub que_reduct : next.que_reduct ≡ []
