-- ===== src/Daemon/Engine.antt =====
-- The engines of the pipeline, as airs/src/DoProcess.cpp uses them (AstroDIP, AstroMetry,
-- MatchCatalog and PhotoMetry), and the threads that hand frames to them. What an engine computes is not in
-- the model, only whether it works and on which frame, and that the work
-- turns that frame into another state of it.
use airs.Base.{List, [], ◌∷◌, Bool, true, false, not, Option, none, some, if◌then◌else◌}

-- The members `working_` and `frame_`.
pub record Engine (F : Type 0) : Type 0 where
  pub working : Bool
  pub frame : Option F

module _ {F : Type 0} where
  -- AstroDIP::DoIt and AstroMetry::DoIt: `forks` says whether a process could be started.
  unfoldable pub do_it : Bool → F → Engine F → Engine F × Bool
  do_it forks f e =
      if e.working then (e, false) else (record { working = forks; frame = some f }, forks)

  -- MatchCatalog::DoIt and PhotoMetry::DoIt, which start a thread.
  unfoldable pub do_thread : F → Engine F → Engine F × Bool
  do_thread f e =
      if e.working then (e, false) else (record { working = true; frame = some f }, true)

  -- The engine's own thread, which runs while the engine works, has finished: `work` is what it did
  -- to the frame.
  unfoldable pub finish : (F → F) → Engine F → Engine F
  finish work e =
      if e.working
      then record { working = false; frame = elim e.frame [ none ↦ none | some f ↦ some (work f) ] }
      else e

  -- The inner loop of thread_reduct. check_image fills in a frame from its file, or refuses it.
  unfoldable pub thread_reduct : (F → Option F) → (F → Bool) → List F → Engine F → List F × Engine F
  unfolding do_it
  thread_reduct check forks [] e = ([], e)
  thread_reduct check forks (f ∷ queue) e =
      let start : Option F → Engine F =
        (λ o. elim o [ none ↦ e | some g ↦ (do_it (forks g) g e).0 ]) in
      let rest = thread_reduct check forks queue (start (check f)) in
      if not e.working then rest else (f ∷ queue, e)

  -- The inner loop of thread_astro.
  unfoldable pub thread_astro : (F → Bool) → List F → Engine F → List F × Engine F
  unfolding do_it
  thread_astro forks [] e = ([], e)
  thread_astro forks (f ∷ queue) e =
      let rest = thread_astro forks queue (do_it (forks f) f e).0 in
      if not e.working then rest else (f ∷ queue, e)

  -- The inner loops of thread_match and thread_photo, which are alike.
  unfoldable pub thread_match : List F → Engine F → List F × Engine F
  unfolding do_thread
  thread_match [] e = ([], e)
  thread_match (f ∷ queue) e =
      let rest = thread_match queue (do_thread f e).0 in
      if not e.working then rest else (f ∷ queue, e)
