-- ===== src/App/Laws.antt =====
-- What every client of the HTTP port may rely on.
use dop_api.Base.{
  inr, ◌∷◌, inl, ◌⊎◌, get, ◌≡◌, Bool, true, false, Option, String, nat_eq, string_eq, arith, some,
}
use dop_api.App.{logged, served, routed}
use dop_api.Platform.Errors.{Result-cases, Error, HttpException, Result, done, raised}
use dop_api.Platform.Logging.Requests
use dop_api.Platform.Logging.Requests.{Opened, Journal, own_id, request_scope, LoggedResponse}
use dop_api.Coreclient.Client.{Outside}
use dop_api.Platform.Context.{Principal, Scope}
use dop_api.Platform.Edge.{Edge}
use dop_api.Platform.Firebase.{Verdict}
use dop_api.Platform.Routes.{HttpRequest}
use dop_api.Platform.Auth.{Response, Resolver}
use dop_api.Platform.Auth

-- An error that is neither the core's nor a refusal.
abbrev pub is_own : Error → Bool
is_own (Error.rpc exc) = false
is_own (Error.http exc) = false
is_own (Error.validation text) = true
is_own (Error.failure text) = true

abbrev settles : {A : Type 0} → Result A → Bool
settles (done a) = true
settles (raised e) = is_own e

module _ {W : Type 0} (http_exception_handler : HttpException → LoggedResponse) where
  routed-settles :
      (handler : Edge W LoggedResponse) (s : Scope) (w : W)
      → settles (routed http_exception_handler handler s w).0 ≡ true
  unfolding routed
  routed-settles handler s w = ground arith

module _ {W A : Type 0} (verify : String → W → Verdict Principal × W)
    (resolver : Option (Resolver W)) (is_public is_token_only : HttpRequest → Bool) where
  dispatch-settles :
      (req : HttpRequest) (call_next : Edge W (Response A)) (s : Scope) (w : W)
      → ((t : Scope) (v : W) → settles (call_next t v).0 ≡ true)
      → settles (Auth.dispatch verify resolver is_public is_token_only req call_next s w).0 ≡ true
  unfolding Auth.dispatch
  dispatch-settles req call_next s w keeps = grind (arith, keeps)

module _ {W : Type 0} (http_exception_handler : HttpException → LoggedResponse) (out : Outside W)
    (journal : Journal W) (verify : String → W → Verdict Principal × W)
    (resolver : Option (Resolver W)) (is_public is_token_only : HttpRequest → Bool)
    (opened : Opened) (req : HttpRequest) (s : Scope) (w : W) where
  -- Whoever asks for whatever, and whatever the route does: the client of the HTTP port gets an
  -- answer that carries the request's id, be it the route's, a refusal of the edge or an error of
  -- the core; or the request ends with an error of the edge's own, that is neither of the last two.
  pub served_traced :
      (handler : Edge W LoggedResponse)
      → let result =
          (served http_exception_handler out journal verify resolver is_public is_token_only opened
            req handler s w).0 in
        ((resp : LoggedResponse) × (result ≡ done resp)
          × (get resp.headers "x-request-id" ≡ some (own_id out opened w).0))
        ⊎ ((e : Error) × (result ≡ raised e) × (is_own e ≡ true))
  unfolding served Requests.dispatch
  served_traced handler =
      let (rid, u) = own_id out opened w in
      let t = request_scope s opened rid in
      let inner = routed http_exception_handler handler in
      let passed = Auth.dispatch verify resolver is_public is_token_only req inner t u in
      let settled =
        dispatch-settles verify resolver is_public is_token_only req inner t u
          (routed-settles http_exception_handler handler) in
      elim (Result-cases passed.0) [
        | inl (resp, ok) ↦ inl (
          record (logged resp) { headers = ("x-request-id", rid) ∷ (logged resp).headers },
          ground arith,
          ground arith,
        )
        | inr (e, failed) ↦ inr (e, ground arith, ground (arith, settled))
      ]
