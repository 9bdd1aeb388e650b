-- ===== src/Usecases/Stream/Pump/Laws.antt =====
-- The call of the core is cancelled once, at the end of every stream that was begun.
use dop_api.Base.{refl, ◌≡◌, ℕ, ◌+◌, ◌≤◌, nat_eq, string_eq, arith}
use dop_api.Usecases.Stream.Pump.{
  Pull, message, ended, failed, Action, anext, aclose, Phase, created, waiting, closed, Pump,
  finalized, entered, turn, step_at, step, Reach, start, after,
}

abbrev is_waiting : Phase → ℕ
is_waiting created = 0
is_waiting waiting = 1
is_waiting closed = 0

abbrev is_created : Phase → ℕ
is_created created = 1
is_created waiting = 0
is_created closed = 0

-- A begun stream is either open or cancelled, never both, and only once; it says in the log that it
-- was opened and that it was closed as often as it was.
pub record IsSound (p : Pump) : Type 0 where
  pub balanced : p.opened_lines ≡ p.cancels + is_waiting p.phase
  pub once : p.opened_lines + is_created p.phase ≤ 1
  pub logged : p.closed_lines ≡ p.cancels
  pub begun : p.opened_lines ≡ 0 → p.emitted ≡ 0

finalized-IsSound : (p : Pump) → IsSound p → p.phase ≡ waiting → IsSound (finalized p)
finalized-IsSound p s w = record {
  balanced = ground (arith, s.balanced);
  once = ground (arith, s.once);
  logged = ground (arith, s.logged);
  begun = s.begun;
}

entered-IsSound : (p : Pump) → IsSound p → p.phase ≡ created → IsSound (entered p)
entered-IsSound p s c = record {
  balanced = ground (arith, s.balanced);
  once = ground (arith, s.once);
  logged = s.logged;
  begun = λ z. absurd (omega (arith, z));
}

module _ {M A : Type 0} (translate : M → A) where
  turn-IsSound :
      (p : Pump) (x : Pull M) → IsSound p → p.phase ≡ waiting → IsSound (turn translate p x).0
  turn-IsSound p (message m) s w = record {
    balanced = s.balanced;
    once = s.once;
    logged = s.logged;
    begun = λ z. absurd (ground (arith, s.balanced));
  }
  turn-IsSound p ended s w = finalized-IsSound p s w
  turn-IsSound p (failed e) s w = finalized-IsSound p s w

  step_at-IsSound :
      (f : Phase) (p : Pump) (a : Action M)
      → p.phase ≡ f
      → IsSound p
      → IsSound (step_at translate f p a).0
  step_at-IsSound created p (anext x) e s = turn-IsSound (entered p) x (entered-IsSound p s e) refl
  step_at-IsSound created p aclose e s = record {
    balanced = ground (arith, s.balanced);
    once = ground (arith, s.once);
    logged = s.logged;
    begun = s.begun;
  }
  step_at-IsSound waiting p (anext x) e s = turn-IsSound p x s e
  step_at-IsSound waiting p aclose e s = finalized-IsSound p s e
  step_at-IsSound closed p (anext x) e s = s
  step_at-IsSound closed p aclose e s = s

  step-IsSound : (p : Pump) (a : Action M) → IsSound p → IsSound (step translate p a).0
  unfolding step
  step-IsSound p a s = step_at-IsSound p.phase p a refl s

  -- Whatever its consumer does and whatever the call gives, in every state that the generator can be
  -- in, a begun stream is either still open or was cancelled, exactly once and with one line in the
  -- log; before it is begun it has cancelled nothing and taken nothing.
  pub Reach-IsSound : {p : Pump} → Reach translate p → IsSound p
  Reach-IsSound start = record {
    balanced = refl;
    once = omega arith;
    logged = refl;
    begun = λ z. refl;
  }
  Reach-IsSound (after r a) = step-IsSound _ a (Reach-IsSound r)
