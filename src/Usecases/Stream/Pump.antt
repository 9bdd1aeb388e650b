-- ===== src/Usecases/Stream/Pump.antt =====
-- app/usecases/stream.py: `_pump`, a generator over a call of the core. It runs only when its consumer
-- asks for an item, `anext`, or gives it up, `aclose`; what the call then gives is the action's.
pub mod Laws
pub mod Runs
use dop_api.Base.{ℕ, ◌+◌, List, [], ◌∷◌, nat_eq, string_eq}
use dop_api.Platform.Errors.{Error}

-- What the call gives: a message, its end, or an exception.
pub data Pull (M : Type 0) : Type 0 where
  message : M → Pull M
  ended : Pull M
  failed : Error → Pull M

pub data Action (M : Type 0) : Type 0 where
  anext : Pull M → Action M
  aclose : Action M

-- What the consumer gets: an item, the end of the iteration, or the exception.
pub data Answer (A : Type 0) : Type 0 where
  item : A → Answer A
  stop : Answer A
  raise : Error → Answer A

-- Created and not yet run, waiting at its `yield`, or finalized.
pub data Phase : Type 0 where
  created waiting closed : Phase

-- The generator, with the messages it took, the calls of `call.cancel()`, and its lines in the log.
pub record Pump : Type 0 where
  pub phase : Phase
  pub emitted : ℕ
  pub cancels : ℕ
  pub opened_lines : ℕ
  pub closed_lines : ℕ

abbrev pub born : Pump
born = record { phase = created; emitted = 0; cancels = 0; opened_lines = 0; closed_lines = 0 }

-- The `finally`.
abbrev pub finalized : Pump → Pump
finalized p = record p {
  phase = closed;
  cancels = p.cancels + 1;
  closed_lines = p.closed_lines + 1;
}

-- What stands before the `try`.
abbrev pub entered : Pump → Pump
entered p = record p { phase = waiting; opened_lines = p.opened_lines + 1 }

module _ {M A : Type 0} (translate : M → A) where
  -- One turn of the `async for`.
  abbrev pub turn : Pump → Pull M → Pump × Answer A
  turn p (message m) = (record p { emitted = p.emitted + 1 }, item (translate m))
  turn p ended = (finalized p, stop)
  turn p (failed e) = (finalized p, raise e)

  -- A generator that never ran is given up without running.
  abbrev pub step_at : Phase → Pump → Action M → Pump × Answer A
  step_at created p (anext x) = turn (entered p) x
  step_at created p aclose = (record p { phase = closed }, stop)
  step_at waiting p (anext x) = turn p x
  step_at waiting p aclose = (finalized p, stop)
  step_at closed p (anext x) = (p, stop)
  step_at closed p aclose = (p, stop)

  unfoldable pub step : Pump → Action M → Pump × Answer A
  step p a = step_at p.phase p a

  -- A consumer's whole run, with what it got.
  pub run : Pump → List (Action M) → Pump × List (Answer A)
  unfolding step
  run p [] = (p, [])
  run p (a ∷ others) =
      let (p', answer) = step p a in let (q, answers) = run p' others in (q, answer ∷ answers)

-- The states that a consumer and a call can bring the generator to.
pub data Reach {M A : Type 0} (translate : M → A) : Pump → Type 0 where
  start : Reach translate born
  after : {p : Pump} → Reach translate p → (a : Action M) → Reach translate (step translate p a).0
