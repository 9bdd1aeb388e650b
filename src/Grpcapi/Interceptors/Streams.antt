-- ===== src/Grpcapi/Interceptors/Streams.antt =====
-- app/grpcapi/interceptors.py: the streaming halves of the two interceptors. A generator is run to its
-- end: what it yields, and how it ends.
use dop_api.Base.{
  ◌≡◌, String, Bool, true, false, Option, none, some, List, [], ◌∷◌, nat_eq, string_eq, Dict, arith,
}
use dop_api.Platform.Context.{Principal, Scope}
use dop_api.Platform.Errors.{Error, StatusCode, done, raised}
use dop_api.Platform.Edge.{Edge}
use dop_api.Platform.Firebase.{Verdict}
use dop_api.Platform.Auth.{auth_context, Resolver}
use dop_api.Usecases.Stream.Yields.{Ending, finished, broken, Source}
use dop_api.Grpcapi.Interceptors.{
  Reply, replied, aborted, authenticate, resolve, auth_wrap, abort_of, error_wrap, logged,
}

abbrev pub Generator : Type 0 → Type 0 → Type 0
Generator W A = Scope → W → Source A × W

-- What the client of a stream gets: the items, and the status of `context.abort`, if it came to that.
pub record StreamReply (A : Type 0) : Type 0 where
  pub items : List A
  pub status : Option (StatusCode × String)

abbrev pub status_of : Ending → Option (StatusCode × String)
status_of finished = none
status_of (broken e) = some (abort_of e)

-- `ErrorInterceptor._wrap_stream`.
abbrev pub logged_ending : {W : Type 0} → (Error → W → W) → Ending → W → W
logged_ending log finished w = w
logged_ending log (broken e) w = logged log e w

unfoldable pub error_wrap_stream :
    {W A : Type 0} → (Error → W → W) → Generator W A → Scope → W → StreamReply A × W
unfolding abort_of
error_wrap_stream log inner s w =
    let (source, w') = inner s w in
    (record { items = source.0; status = status_of source.1 }, logged_ending log source.1 w')

-- A generator that first does a call: an exception of the call is the generator's, before any item.
abbrev pub behind : {W A B : Type 0} → Edge W B → (B → Generator W A) → Generator W A
behind first next s w =
    let (r, w') = first s w in elim r [ done b ↦ next b s w' | raised e ↦ (([], broken e), w') ]

module _ {W : Type 0} (verify : String → W → Verdict Principal × W)
    (resolver : Option (Resolver W)) where
  -- `AuthInterceptor._wrap_stream`: the caller is made out once, before the first item.
  unfoldable pub auth_wrap_stream :
      {A : Type 0} → Bool → Dict String → Generator W A → Generator W A
  unfolding authenticate resolve
  auth_wrap_stream true md inner = inner
  auth_wrap_stream false md inner = behind (authenticate verify resolver md) λ a.
      behind (resolve verify resolver a.principal a.account_id a.raw_token) λ i s w.
        inner (record s { auth_ctx = some (auth_context a.principal a.raw_token a.account_id i) }) w

-- A method that answers once, as a stream of its one answer.
abbrev pub as_stream : {W A : Type 0} → Edge W A → Generator W A
as_stream f s w =
    let (r, w') = f s w in
    elim r [ done a ↦ ((a ∷ [], finished), w') | raised e ↦ (([], broken e), w') ]

abbrev pub stream_reply : {A : Type 0} → Reply A → StreamReply A
stream_reply (replied a) = record { items = a ∷ []; status = none }
stream_reply (aborted code detail) = record { items = []; status = some (code, detail) }

-- A stream of one answer and the plain call that gives that answer are treated alike: the same callers
-- are refused, with the same status and detail and after the same calls outside, and an exception of
-- the method becomes the same status, and a line of the log where it does with the other.
pub error_wrap_stream-as_stream :
    {W A : Type 0} (verify : String → W → Verdict Principal × W) (resolver : Option (Resolver W))
    (log : Error → W → W) (is_public : Bool) (md : Dict String) (f : Edge W A) (s : Scope) (w : W)
    → let answered = error_wrap log (auth_wrap verify resolver is_public md f) s w in
      error_wrap_stream log (auth_wrap_stream verify resolver is_public md (as_stream f)) s w
      ≡ (stream_reply answered.0, answered.1)
unfolding error_wrap_stream error_wrap auth_wrap auth_wrap_stream
error_wrap_stream-as_stream verify resolver log is_public md f s w = ground arith
