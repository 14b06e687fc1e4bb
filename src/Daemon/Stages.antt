-- ===== src/Daemon/Stages.antt =====
-- The whole pipeline of airs/src/DoProcess.cpp: the answer of IsOver while an engine works.
use airs.Base.{ℕ, ◌≡◌, ap, ◌∙◌, List, [], ◌∷◌, ◌++◌, Bool, true, false, Option, some}
use airs.Base.Text.{Text}
use airs.Host.{Host}
use airs.Net.Circular.{Circular}
use airs.Daemon.Frame.{OneFrame, frame_init}
use airs.Daemon.Engine.{do_it, thread_reduct}
use airs.Daemon.Rounds.{round_started}
use airs.Daemon.Process.{DoProcess, all_over, process_image, is_over, run_reduct}

module _ (h : Host) (C : Circular) (threshold : h.Double) (now : Text) (taken : ℕ) where
  abbrev D : Type 0
  D = DoProcess h C

  abbrev F : Type 0
  F = OneFrame h.Double

  -- No frame waits, and no engine works.
  pub record IsIdle (d : D) : Type 0 where
    pub no_reduct : d.que_reduct ≡ []
    pub no_astro : d.que_astro ≡ []
    pub no_match : d.que_match ≡ []
    pub no_photo : d.que_photo ≡ []
    pub reduct : d.reduct.working ≡ false
    pub astro : d.astro.working ≡ false
    pub matcher : d.matcher.working ≡ false
    pub photo : d.photo.working ≡ false

  -- If nothing waits or works and all finders are over, and an image comes in that is not refused
  -- and for which a process can be started, then after the round of thread_reduct IsOver answers
  -- true while the engine of image reduction works on the frame.
  pub run_reduct-is_over :
      (d : D) (check : F → Option F) (forks : F → Bool) (path : Text) (g : F)
      → IsIdle d
      → all_over d.finders ≡ true
      → check (record (frame_init h) { filepath = path }) ≡ some g
      → forks g ≡ true
      → let next =
          run_reduct h C threshold now taken check forks
            (process_image h C threshold now taken path d) in
        (is_over h C threshold now taken next ≡ true)
        × (next.reduct ≡ record { working = true; frame = some g })
  unfolding run_reduct process_image is_over thread_reduct do_it
  run_reduct-is_over d check forks path g i o c f =
      let fresh = record (frame_init h) { filepath = path } in
      let run : thread_reduct check forks (d.que_reduct ++ fresh ∷ []) d.reduct
          ≡ ([], record { working = true; frame = some g }) =
        ap (λ (q : List F). thread_reduct check forks (q ++ fresh ∷ []) d.reduct) i.no_reduct
        ∙ round_started check forks fresh [] d.reduct g i.reduct c
        ∙ ap (λ (b : Bool). ([], record { working = b; frame = some g })) f in
      (rw (run, i.no_astro, i.no_match, i.no_photo) o, rw run)
