-- ===== src/Coreclient/Client.antt =====
-- app/coreclient/client.py: what a call of the core carries. The clock, the random identifiers and
-- the cryptography are the world's, `Outside`.
pub mod Laws
use dop_api.Base.{
  ℕ, String, Bool, Option, none, some, [], ◌∷◌, ◌++◌, ◌&&◌, ◌<>◌, is_empty, or_else, Dict,
  if◌then◌else◌,
}
use dop_api.Platform.Context.{AuthContext, current_request_id}
use dop_api.Platform.Errors.{Result, done, raised}
use dop_api.Platform.Edge.{Edge, ◌>>=◌, pure}
use dop_api.Coreclient.Callauth.{Claim, sign}

pub record Outside (W : Type 0) : Type 0 where
  -- `uuid.uuid4().hex`, which draws from the world.
  pub uuid_hex : W → String × W
  pub clock : W → ℕ
  pub hmac_sha256 : String → String → String
  pub base64url : String → String
  -- `settings.call_auth_key`.
  pub call_auth_key : String

abbrev pub Metadata : Type 0
Metadata = Dict String

-- A method of a stub: it takes the metadata and the request, acts on the core, and returns a
-- message or raises. The deadline is left to the stub.
abbrev pub Rpc : Type 0 → Type 0 → Type 0 → Type 0
Rpc W Q A = Metadata → Q → W → Result A × W

-- The keyword arguments of `metadata_for`.
pub record Caller : Type 0 where
  pub user_id : String
  pub account_id : String
  pub actor_name : String
  pub actor_kind : String
  pub session_id : String
  pub raw_token : String

abbrev pub nobody : Caller
nobody = record {
  user_id = "";
  account_id = "";
  actor_name = "";
  actor_kind = "user";
  session_id = "";
  raw_token = "";
}

-- `user_id or account_id`, as a test.
abbrev pub is_anonymous : Caller → Bool
is_anonymous c = is_empty c.user_id && is_empty c.account_id

abbrev pub claim_of : Caller → Claim
claim_of c = record {
  caller = "bff";
  actor_id = c.user_id;
  actor_kind = if is_anonymous c then "system" else c.actor_kind;
  account_id = c.account_id;
  session_id = c.session_id;
}

abbrev pub token_entry : Caller → Metadata
token_entry c =
    if is_empty c.raw_token then [] else ("authorization", "Bearer " <> c.raw_token) ∷ []

abbrev pub actor_entries : Caller → Metadata
actor_entries c =
    if is_anonymous c
    then []
    else ("x-account-id", c.account_id)
      ∷ ("x-actor-id", c.user_id)
      ∷ ("x-actor-kind", c.actor_kind)
      ∷ ("x-actor-name", c.actor_name)
      ∷ ("x-session-id", c.session_id)
      ∷ []

-- The caller that a context stands for.
abbrev pub caller_of : Option AuthContext → Caller
caller_of none = nobody
caller_of (some ctx) = record {
  user_id = ctx.user_id;
  account_id = ctx.account_id;
  actor_name = or_else ctx.principal.name ctx.principal.email;
  actor_kind = "user";
  session_id = ctx.principal.session_id;
  raw_token = ctx.raw_token;
}

module _ {W : Type 0} (out : Outside W) where
  -- `CoreClient.idempotency_key`.
  abbrev pub idempotency_key : Edge W String
  idempotency_key s w = let (key, w') = out.uuid_hex w in (done key, w')

  -- `current_request_id() or uuid.uuid4().hex`.
  unfoldable pub request_id : Edge W String
  request_id s w =
      let fresh = idempotency_key s w in
      if is_empty (current_request_id s) then fresh else (done (current_request_id s), w)

  -- The assertion, where the edge has a key.
  unfoldable pub assertion_entry : Caller → Edge W Metadata
  assertion_entry c s w =
      let signed =
        sign out.hmac_sha256 out.base64url out.call_auth_key (claim_of c) (out.clock w) in
      if is_empty out.call_auth_key then (done [], w) else elim signed [
        | done text ↦ (done (("x-dop-assertion", text) ∷ []), w)
        | raised e ↦ (raised e, w)
      ]

  -- `CoreClient.metadata_for`.
  unfoldable pub metadata_for : Caller → Edge W Metadata
  unfolding request_id assertion_entry
  metadata_for c = do
    rid ← request_id
    assertion ← assertion_entry c
    pure ((("x-request-id", rid) ∷ assertion) ++ (token_entry c ++ actor_entries c))

  -- `CoreClient.metadata`.
  unfoldable pub metadata : Edge W Metadata
  unfolding metadata_for
  metadata s w = metadata_for (caller_of s.auth_ctx) s w

  -- `await stub.Method(request, metadata=core.metadata(), timeout=…)`.
  unfoldable pub call : {Q A : Type 0} → Rpc W Q A → Q → Edge W A
  unfolding metadata
  call rpc request = do md ← metadata; λ s w. rpc md request w

  -- `_idempotency` of the use cases: the client's key, or one of ours.
  unfoldable pub idempotency : String → Edge W String
  idempotency key s w =
      let fresh = idempotency_key s w in if is_empty key then fresh else (done key, w)
