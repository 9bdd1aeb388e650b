-- ===== src/Tests/Pump.antt =====
-- The theorems about streams at concrete runs.
use dop_api.Base.{suc, refl, ◌≡◌, ℕ, ◌+◌, String, false, none, [], ◌∷◌, nat_eq, string_eq}
use dop_api.Platform.Errors.{StatusCode, AioRpcError, Error, done}
use dop_api.Platform.Context.{Principal}
use dop_api.Platform.Edge.{Edge}
use dop_api.Platform.Firebase.{Verdict, verified}
use dop_api.Usecases.Stream.Yields.{broken}
use dop_api.Usecases.Stream.Pump.{
  message, ended, anext, aclose, item, raise, Pump, born, closed, step, run, Reach, start, after,
}
use dop_api.Usecases.Stream.Pump.Laws.{IsSound, Reach-IsSound}
use dop_api.Usecases.Stream.Pump.Runs.{taking, spent, run-taking, run-cancels}
use dop_api.Grpcapi.Interceptors.{error_wrap, auth_wrap}
use dop_api.Grpcapi.Interceptors.Streams.{
  error_wrap_stream, auth_wrap_stream, as_stream, stream_reply, error_wrap_stream-as_stream,
}
use dop_api.Tests.World.{unread, nowhere, ana}

abbrev twice : ℕ → ℕ
twice n = n + n

abbrev reached : Pump
reached = record born {
  phase = closed;
  emitted = 1;
  cancels = 1;
  opened_lines = 1;
  closed_lines = 1;
}

reached_by : Reach twice reached
unfolding step
reached_by = after (after start (anext (message 4))) aclose

Reach-IsSound_example : IsSound reached
Reach-IsSound_example = Reach-IsSound twice reached_by

abbrev gone : AioRpcError
gone = record { code = StatusCode.unavailable; details = none }

run-taking_example :
    run twice born (taking (1 ∷ 2 ∷ []) (broken (Error.rpc gone)))
    ≡ (spent 2, item 2 ∷ item 4 ∷ raise (Error.rpc gone) ∷ [])
run-taking_example = run-taking twice (1 ∷ 2 ∷ []) (broken (Error.rpc gone))

run-cancels_example :
    ((run twice born (anext (message 1) ∷ aclose ∷ anext ended ∷ [])).0.phase ≡ closed)
    × ((run twice born (anext (message 1) ∷ aclose ∷ anext ended ∷ [])).0.cancels ≡ 1)
run-cancels_example = run-cancels twice (message 1) (aclose ∷ anext ended ∷ []) refl

abbrev verify : String → ℕ → Verdict Principal × ℕ
verify raw n = (verified ana, suc n)

abbrev five : Edge ℕ ℕ
five s n = (done 5, n)

error_wrap_stream-as_stream_example :
    error_wrap_stream unread (auth_wrap_stream verify none false [] (as_stream five)) nowhere 0 ≡ (
      stream_reply (error_wrap unread (auth_wrap verify none false [] five) nowhere 0).0,
      (error_wrap unread (auth_wrap verify none false [] five) nowhere 0).1,
    )
error_wrap_stream-as_stream_example =
    error_wrap_stream-as_stream verify none unread false [] five nowhere 0
