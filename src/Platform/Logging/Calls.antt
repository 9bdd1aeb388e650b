-- ===== src/Platform/Logging/Calls.antt =====
-- app/platform/logging/decorator.py: `@log` over a call. The lower case of a text, the binding of the
-- arguments to their names, with `repr` of each, and the log are parameters.
pub mod Laws
use dop_api.Base.{
  ℕ, ◌-◌, String, Bool, Option, none, some, List, [], ◌∷◌, ◌||◌, ◌==◌, nat_eq, string_eq, Dict,
  is_in, if◌then◌else◌,
}
use dop_api.Platform.Errors.{Error, done, raised}
use dop_api.Platform.Edge.{Edge}
use dop_api.Platform.Logging.{auto_mask, redacted}

-- What `@log(level=…, mask=…)` stands over: the function's name, and its class where it has one.
pub record Logged : Type 0 where
  pub method : String
  pub class : Option String
  pub level : String
  pub mask : List String

-- A line: "call", "error" or "return".
pub record CallLine : Type 0 where
  pub message : String
  pub method : String
  pub class : Option String
  pub params : Option (Dict String)
  pub error : Option String
  pub duration_ms : Option ℕ

pub record CallJournal (W : Type 0) : Type 0 where
  pub str_error : Error → String
  pub perf_counter : W → ℕ
  pub write : CallLine → W → W

module _ (lower : String → String) where
  unfoldable pub is_masked_name : List String → String → Bool
  is_masked_name extra name = is_in (lower name) auto_mask || is_in (lower name) extra

  -- `_masked_params`; the arguments are `none` where they do not fit the signature.
  pub masked_params : List String → Option (Dict String) → Dict String
  masked_params extra none = []
  masked_params extra (some []) = []
  masked_params extra (some ((name, value) ∷ others)) =
      let rest_of = masked_params extra (some others) in
      let shown = if is_masked_name extra name then redacted else value in
      if name == "self" then rest_of else (name, shown) ∷ rest_of

  -- `_entry`.
  abbrev pub entry_line : Logged → Option (Dict String) → CallLine
  entry_line fn arguments =
      let params = masked_params fn.mask arguments in
      record {
        message = "call";
        method = fn.method;
        class = fn.class;
        params = if lower fn.level == "debug" then some params else none;
        error = none;
        duration_ms = none;
      }

  abbrev pub exit_line : Logged → String → Option String → ℕ → CallLine
  exit_line fn message error ms = record {
    message = message;
    method = fn.method;
    class = none;
    params = none;
    error = error;
    duration_ms = some ms;
  }

  -- `async_wrapper` and `sync_wrapper`, which differ in an `await` alone.
  unfoldable pub logged :
      {W A : Type 0} → CallJournal W → Logged → Option (Dict String) → Edge W A → Edge W A
  logged journal fn arguments func s w =
      let w' = journal.write (entry_line fn arguments) w in
      let (answer, w'') = func s w' in
      let ms = journal.perf_counter w'' - journal.perf_counter w' in
      elim answer [
        | raised e ↦
            (raised e, journal.write (exit_line fn "error" (some (journal.str_error e)) ms) w'')
        | done a ↦ (done a, journal.write (exit_line fn "return" none ms) w'')
      ]
