-- ===== src/Tests/Platform.antt =====
-- The platform's theorems at concrete inputs.
use dop_api.Platform.Context.{Principal}
use dop_api.Platform.Decorator.{account_scoped, require_role, writers}
use dop_api.Platform.Errors.{AioRpcError, done, as_http, as_grpc, as_grpc_from_http, internal}
use dop_api.Grpcapi.Interceptors.{error_wrap, auth_wrap}
use dop_api.Base.{
  true, none, suc, ◌*◌, ◌↔◌, refl, ◌≡◌, ◌⊎◌, ℕ, String, Bool, false, some, [], ◌∷◌, ◌==◌, nat_eq,
  string_eq, arith, if◌then◌else◌,
}
use dop_api.Platform.Edge.{Edge}
use dop_api.Platform.Firebase.{
  FirebaseVerifier, Provider, Claims, Verdict, verified, second, fetch_certificates, find_key,
  public_key, verified_claims, principal_of, session_id, verify,
}
use dop_api.Platform.Firebase.Laws.{IsGenuine, verify-IsGenuine, fetch_certificates_brake}
use dop_api.Platform.Errors.Laws.{as_grpc_from_http-as_http, is_kept}
use dop_api.Platform.Decorator.Laws.{IsAllowed, IsRefusal, guarded_outcome}
use dop_api.Platform.Routes.{
  Leaf, Routes, leaf, included, nil, cons, HttpRequest, register_public_routes, is_public,
  is_token_only,
}
use dop_api.Platform.Routes.Laws.{some_leaves, serves, token_mark, register_public_routes-exact}
use dop_api.Platform.Auth.{dispatch}
use dop_api.Grpcapi.Interceptors.Parity.{
  Handler, as_route, as_servicer, grpc_answer, metadata_of, dispatch-auth_wrap,
}
use dop_api.Tests.World.{unread, ana, scope_of, nowhere}

abbrev claims : Claims
claims = record {
  sub = some "sub";
  user_id = none;
  email = some "ana@dop.dev";
  email_verified = true;
  name = some "Ana";
  picture = none;
  identities = [];
  sign_in_provider = none;
  exp = some 1000000000;
  aud = some "dop";
  auth_time = some "1";
  iat = none;
}

abbrev provider : Provider ℕ
provider = record {
  clock = λ n. n;
  request_certificates = λ n. (some (("k1", "pem") ∷ []), suc n);
  unverified_header = λ token. some (record { alg = some "RS256"; kid = some "k1" });
  load_certificate = λ pem. some pem;
  jwt_decode = λ token key algorithms audience issuer leeway required now.
      if audience == "dop" then some claims else none;
  payload_segment = λ token. some token;
  decode_payload = λ segment. some claims;
  sha256_hex = λ s. "s1";
}

abbrev verifier : FirebaseVerifier
verifier = record {
  project_id = "dop";
  emulator_host = "";
  keys = ("k1", "pem") ∷ [];
  keys_fetched_at = 0;
}

verify-IsGenuine_example : IsGenuine provider verifier "tok" ana
unfolding verify verified_claims public_key find_key principal_of session_id
verify-IsGenuine_example = verify-IsGenuine provider "Bearer tok" verifier 7 ana refl refl

fetch_certificates_brake_example :
    let (r, v', w') = fetch_certificates provider (verifier, 40 * second) in
    (r ≡ verified tt)
    × (v'.keys ≡ ("k1", "pem") ∷ [])
    × ((public_key provider "tok" (v', 50 * second)).1 ≡ v')
    × ((public_key provider "tok" (v', 50 * second)).2 ≡ 50 * second)
unfolding fetch_certificates
fetch_certificates_brake_example =
    fetch_certificates_brake provider verifier (40 * second) (50 * second) (("k1", "pem") ∷ [])
      "tok" (omega arith) refl (omega arith)

abbrev core_down : AioRpcError
core_down = record { code = internal; details = some "pq: connection refused" }

as_grpc_from_http-as_http_example :
    ((as_grpc_from_http (as_http core_down)).1 ≡ (as_grpc core_down).1)
    × (((as_grpc_from_http (as_http core_down)).0 ≡ (as_grpc core_down).0)
        ↔ (is_kept internal ≡ true))
as_grpc_from_http-as_http_example = as_grpc_from_http-as_http core_down

-- A use case that counts its call.
abbrev counting : Edge ℕ String
counting s n = (done "ran", suc n)

guarded_outcome_example :
    (IsAllowed writers (scope_of "admin")
      × (account_scoped (require_role writers counting) (scope_of "admin") 0
          ≡ counting (scope_of "admin") 0))
    ⊎ IsRefusal writers
        (scope_of "admin")
        0
        (account_scoped (require_role writers counting) (scope_of "admin") 0)
guarded_outcome_example = guarded_outcome writers counting (scope_of "admin") 0

abbrev same_text : String → String
same_text s = s

abbrev equals : String → String → Bool
equals template path = template == path

abbrev health : Leaf
health = record {
  endpoint = some (record { is_public = true; is_token_only = false });
  path = "/health";
  methods = "GET" ∷ [];
}

abbrev accounts : Leaf
accounts = record {
  endpoint = some (record { is_public = false; is_token_only = true });
  path = "/accounts";
  methods = "GET" ∷ "POST" ∷ [];
}

abbrev routes : Routes
routes = cons (included (cons (leaf health) nil)) (cons (leaf accounts) nil)

abbrev request : HttpRequest
request = record { method = "POST"; path = "/accounts"; authorization = "Bearer tok"; account = "" }

register_public_routes-exact_example :
    (is_public same_text equals (register_public_routes same_text equals routes) request
      ≡ some_leaves (serves same_text equals request (λ e. e.is_public)) routes)
    × (is_token_only same_text equals (register_public_routes same_text equals routes) request
        ≡ some_leaves (serves same_text equals request token_mark) routes)
register_public_routes-exact_example = register_public_routes-exact same_text equals request routes

abbrev accept : String → ℕ → Verdict Principal × ℕ
accept raw n = (verified ana, suc n)

abbrev never : HttpRequest → Bool
never req = false

abbrev greet : Handler ℕ String
greet s n = ("hello", suc n)

dispatch-auth_wrap_example :
    error_wrap unread
      (auth_wrap accept none false (metadata_of request) (as_servicer greet))
      nowhere
      0
    ≡ grpc_answer unread (dispatch accept none never never request (as_route greet) nowhere 0)
dispatch-auth_wrap_example =
    dispatch-auth_wrap accept none never never unread request greet nowhere 0 refl refl
