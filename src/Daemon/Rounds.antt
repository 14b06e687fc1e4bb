-- ===== src/Daemon/Rounds.antt =====
-- The rounds of the threads in airs/src/DoProcess.cpp that take frames from the queues: which frame
-- goes to the engine, and which frames are dropped.
use airs.Base.{
  ◌≡◌, refl, ap, ◌∙◌, ◌⊎◌, inl, inr, List, [], ◌∷◌, ◌++◌, Bool, true, false, not, Option, none,
  some, All, if◌then◌else◌, Bool-cases, Option-cases,
}
use airs.Daemon.Engine.{Engine, do_it, thread_reduct}

pub when_idle : {A : Type 0} (b : Bool) (x y : A) → b ≡ false → (if not b then x else y) ≡ x
when_idle true x y h = cc
when_idle false x y h = refl

pub unless_working : {A : Type 0} (b : Bool) (x y : A) → b ≡ false → (if b then x else y) ≡ y
unless_working true x y h = cc
unless_working false x y h = refl

module _ {F : Type 0} (check : F → Option F) (forks : F → Bool) where
  -- A frame that is dropped: check_image refuses it, or no process can be started for it.
  abbrev pub IsDropped : F → Type 0
  IsDropped f = (check f ≡ none) ⊎ ((g : F) × (check f ≡ some g) × (forks g ≡ false))

  -- From an idle engine: all frames are dropped, or the first one that is not goes to the engine, and
  -- those behind it stay.
  abbrev pub Outcome : List F → List F × Engine F → Type 0
  Outcome queue out =
      (All IsDropped queue × (out.0 ≡ []) × (out.1.working ≡ false))
      ⊎ ((before : List F) × (f : F) × (after : List F) × (g : F) × (queue ≡ before ++ f ∷ after)
          × All IsDropped before
          × (check f ≡ some g)
          × (forks g ≡ true)
          × (out ≡ (after, record { working = true; frame = some g })))

  stopped :
      (queue : List F) (e : Engine F)
      → e.working ≡ true
      → thread_reduct check forks queue e ≡ (queue, e)
  unfolding thread_reduct
  stopped [] e h = refl
  stopped (f ∷ queue) e h = rw h

  pass_over :
      (f : F) (queue : List F) (out : List F × Engine F)
      → IsDropped f
      → Outcome queue out
      → Outcome (f ∷ queue) out
  pass_over f queue out d (inl (all, none_left, idle)) = inl ((d, all), none_left, idle)
  pass_over f queue out d (inr (before, b, after, g, e, all, c, s, r)) =
      inr (f ∷ before, b, after, g, ap (◌∷◌ f) e, (d, all), c, s, r)

  round_idle :
      (f : F) (queue : List F) (e : Engine F)
      → e.working ≡ false
      → thread_reduct check forks (f ∷ queue) e
        ≡ thread_reduct check forks queue
            (elim (check f) [ none ↦ e | some g ↦ (do_it (forks g) g e).0 ])
  unfolding thread_reduct
  round_idle f queue e h = when_idle e.working _ (f ∷ queue, e) h

  do_it-idle :
      (b : Bool) (g : F) (e : Engine F)
      → e.working ≡ false
      → (do_it b g e).0 ≡ record { working = b; frame = some g }
  unfolding do_it
  do_it-idle b g e h = ap (λ (p : Engine F × Bool). p.0) (unless_working e.working (e, false) _ h)

  round_refused :
      (f : F) (queue : List F) (e : Engine F)
      → e.working ≡ false
      → check f ≡ none
      → thread_reduct check forks (f ∷ queue) e ≡ thread_reduct check forks queue e
  round_refused f queue e h c = round_idle f queue e h ∙ rw c

  pub round_started :
      (f : F) (queue : List F) (e : Engine F) (g : F)
      → e.working ≡ false
      → check f ≡ some g
      → thread_reduct check forks (f ∷ queue) e
        ≡ thread_reduct check forks queue (record { working = forks g; frame = some g })
  round_started f queue e g h c =
      round_idle f queue e h
      ∙ rw c (ap (thread_reduct check forks queue) (do_it-idle (forks g) g e h))

  -- A round of thread_reduct from an idle engine drops every frame, each because check_image
  -- refuses it or no process can be started for it, or it drops such frames only, starts the
  -- engine on the next one as check_image filled it in, and leaves those behind it in the queue.
  pub thread_reduct-Outcome :
      (queue : List F) (e : Engine F)
      → e.working ≡ false
      → Outcome queue (thread_reduct check forks queue e)
  unfolding thread_reduct
  thread_reduct-Outcome [] e h = inl (tt, refl, h)
  thread_reduct-Outcome (f ∷ queue) e h = elim (Option-cases (check f)) [
    | inl c ↦
        rw (round_refused f queue e h c)
          (pass_over f queue _ (inl c) (thread_reduct-Outcome queue e h))
    | inr (g, c) ↦ elim (Bool-cases (forks g)) [
      | inl s ↦ inr (
        [],
        f,
        queue,
        g,
        refl,
        tt,
        c,
        s,
        round_started f queue e g h c
            ∙ stopped queue (record { working = forks g; frame = some g }) s
            ∙ ap (λ (b : Bool). (queue, record { working = b; frame = some g })) s,
      )
      | inr s ↦ rw (round_started f queue e g h c) (
          pass_over f queue _ (inr (g, c, s))
            (thread_reduct-Outcome queue (record { working = forks g; frame = some g }) s))
    ]
  ]
