-- ===== src/Usecases/Stream/Pump/Runs.antt =====
-- Whole runs of the generator: what the consumer gets, and that the call is cancelled.
use dop_api.Base.{
  ◌∙◌, ap, refl, ◌≡◌, inl, inr, ℕ, ◌+◌, Bool, true, false, List, [], ◌∷◌, ◌++◌, map, nat_eq,
  string_eq, any, length, arith, Bool-cases,
}
use dop_api.Usecases.Stream.Yields.{Ending, finished, broken}
use dop_api.Usecases.Stream.Pump.Laws.{Reach-IsSound}
use dop_api.Usecases.Stream.Pump.{
  Pull, message, ended, failed, Action, anext, aclose, Answer, item, stop, raise, Phase, created,
  waiting, closed, Pump, born, step_at, step, run, Reach, start, after,
}

-- The consumer gives the stream up, or the call is over.
abbrev pub is_final : {M : Type 0} → Action M → Bool
is_final (anext (message m)) = false
is_final (anext ended) = true
is_final (anext (failed e)) = true
is_final aclose = true

abbrev is_unborn : Phase → Bool
is_unborn created = true
is_unborn waiting = false
is_unborn closed = false

abbrev pub pull_of : {M : Type 0} → Ending → Pull M
pull_of finished = ended
pull_of (broken e) = failed e

abbrev pub answer_of : {A : Type 0} → Ending → Answer A
answer_of finished = stop
answer_of (broken e) = raise e

-- A consumer that takes everything that a call gives.
abbrev pub taking : {M : Type 0} → List M → Ending → List (Action M)
taking [] ending = anext (pull_of ending) ∷ []
taking (m ∷ ms) ending = anext (message m) ∷ taking ms ending

-- After how many messages the stream is closed.
abbrev pub spent : ℕ → Pump
spent n = record { phase = closed; emitted = n; cancels = 1; opened_lines = 1; closed_lines = 1 }

abbrev running : ℕ → Pump
running n = record { phase = waiting; emitted = n; cancels = 0; opened_lines = 1; closed_lines = 0 }

module _ {M A : Type 0} (translate : M → A) where
  run-closed : (p : Pump) (acts : List (Action M)) → p.phase ≡ closed → (run translate p acts).0 ≡ p
  unfolding run step
  run-closed p [] c = refl
  run-closed p (a ∷ acts) c = ground (arith, run-closed p acts c)

  run-running :
      (n : ℕ) (ms : List M) (ending : Ending)
      → run translate (running n) (taking ms ending)
        ≡ (spent (n + length ms), map (λ m. item (translate m)) ms ++ (answer_of ending ∷ []))
  unfolding run step
  run-running n [] finished = ground arith
  run-running n [] (broken e) = ground arith
  run-running n (m ∷ ms) ending = ground (arith, run-running (n + 1) ms ending)

  -- A consumer that takes all that the call gives gets the translation of each message, in order and
  -- once, and then the call's own end or exception; the call is cancelled once, and the log counts the
  -- messages.
  pub run-taking :
      (ms : List M) (ending : Ending)
      → run translate born (taking ms ending)
        ≡ (spent (length ms), map (λ m. item (translate m)) ms ++ (answer_of ending ∷ []))
  unfolding run step
  run-taking [] finished = refl
  run-taking [] (broken e) = refl
  run-taking (m ∷ ms) ending = ground (arith, run-running 1 ms ending)

  step-final :
      (f : Phase) (p : Pump) (a : Action M)
      → p.phase ≡ f
      → is_final a ≡ true
      → (step_at translate f p a).0.phase ≡ closed
  step-final created p (anext (message m)) e h = absurd (ground arith)
  step-final created p (anext ended) e h = refl
  step-final created p (anext (failed x)) e h = refl
  step-final created p aclose e h = refl
  step-final waiting p (anext (message m)) e h = absurd (ground arith)
  step-final waiting p (anext ended) e h = refl
  step-final waiting p (anext (failed x)) e h = refl
  step-final waiting p aclose e h = refl
  step-final closed p (anext x) e h = e
  step-final closed p aclose e h = e

  run-final :
      (p : Pump) (acts : List (Action M))
      → any is_final acts ≡ true
      → (run translate p acts).0.phase ≡ closed
  unfolding run step
  run-final p [] h = absurd (ground arith)
  run-final p (a ∷ acts) h = elim (Bool-cases (is_final a)) [
    | inl here ↦
        let shut = step-final p.phase p a refl here in
        ap (λ q. q.phase) (run-closed (step translate p a).0 acts shut) ∙ shut
    | inr later ↦ run-final (step translate p a).0 acts (ground arith)
  ]

  step-opened :
      (f : Phase) (p : Pump) (a : Action M)
      → p.phase ≡ f
      → is_unborn f ≡ false
      → ((step_at translate f p a).0.opened_lines ≡ p.opened_lines)
        × (is_unborn (step_at translate f p a).0.phase ≡ false)
  step-opened created p a e h = absurd (ground arith)
  step-opened waiting p (anext (message m)) e h = (refl, ap is_unborn e)
  step-opened waiting p (anext ended) e h = (refl, refl)
  step-opened waiting p (anext (failed x)) e h = (refl, refl)
  step-opened waiting p aclose e h = (refl, refl)
  step-opened closed p (anext x) e h = (refl, ap is_unborn e)
  step-opened closed p aclose e h = (refl, ap is_unborn e)

  run-opened :
      (p : Pump) (acts : List (Action M))
      → is_unborn p.phase ≡ false
      → (run translate p acts).0.opened_lines ≡ p.opened_lines
  unfolding run step
  run-opened p [] h = refl
  run-opened p (a ∷ acts) h =
      let kept = step-opened p.phase p a refl h in
      run-opened (step translate p a).0 acts kept.1 ∙ kept.0

  run-Reach :
      (p : Pump)
      → Reach translate p
      → (acts : List (Action M)) → Reach translate (run translate p acts).0
  unfolding run
  run-Reach p r [] = r
  run-Reach p r (a ∷ acts) = run-Reach (step translate p a).0 (after r a) acts

  begun-opened :
      (x : Pull M)
      → ((step translate born (anext x)).0.opened_lines ≡ 1)
        × (is_unborn (step translate born (anext x)).0.phase ≡ false)
  unfolding step
  begun-opened (message m) = (refl, refl)
  begun-opened ended = (refl, refl)
  begun-opened (failed e) = (refl, refl)

  -- A stream that was begun and then came to an end, because the call ended or failed or because the
  -- consumer gave it up, whatever else the consumer does before and after: it is closed and the call was
  -- cancelled once.
  pub run-cancels :
      (x : Pull M) (acts : List (Action M))
      → any is_final (anext x ∷ acts) ≡ true
      → let p = (run translate born (anext x ∷ acts)).0 in (p.phase ≡ closed) × (p.cancels ≡ 1)
  unfolding run
  run-cancels x acts ends =
      let p = (run translate born (anext x ∷ acts)).0 in
      let shut : p.phase ≡ closed = run-final born (anext x ∷ acts) ends in
      let first = begun-opened x in
      let opened : p.opened_lines ≡ 1 =
        run-opened (step translate born (anext x)).0 acts first.1 ∙ first.0 in
      let sound = Reach-IsSound translate (run-Reach born start (anext x ∷ acts)) in
      (shut, ground (arith, sound.balanced))
