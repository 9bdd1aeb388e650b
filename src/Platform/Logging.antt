-- ===== src/Platform/Logging.antt =====
-- app/platform/logging/config.py: what every line of the log goes through. The lower case of a text
-- and the ids of the tracing span are parameters.
pub mod Mask
pub mod Calls
pub mod Requests
use dop_api.Base.{
  String, Bool, Option, none, some, List, [], ◌∷◌, nat_eq, string_eq, is_empty, is_in,
  if◌then◌else◌,
}
use dop_api.Platform.Json.{Json, Items, Fields, set_default}
use dop_api.Platform.Context.{Scope, AuthContext, current_request_id}

-- `AUTO_MASK`.
abbrev pub auto_mask : List String
auto_mask =
    "password" ∷ "token" ∷ "secret" ∷ "authorization" ∷ "api_key" ∷ "private_key" ∷ "client_secret"
    ∷ "credential" ∷ "id_token" ∷ "refresh_token" ∷ "cpf" ∷ "cnpj" ∷ []

abbrev pub redacted : String
redacted = "***"

module _ (lower : String → String) where
  unfoldable pub is_secret : String → Bool
  is_secret key = is_in (lower key) auto_mask

  -- `walk` of `_mask_processor`, with its two comprehensions.
  abbrev mutual
    pub walk : Json → Json
    walk Json.null = Json.null
    walk (Json.bool b) = Json.bool b
    walk (Json.num n) = Json.num n
    walk (Json.text t) = Json.text t
    walk (Json.list values) = Json.list (walk_items values)
    walk (Json.dict fields) = Json.dict (walk_fields fields)
    walk (Json.opaque held) = Json.opaque held

    pub walk_items : Items → Items
    walk_items Items.nil = Items.nil
    walk_items (Items.cons v vs) = Items.cons (walk v) (walk_items vs)

    pub walk_fields : Fields → Fields
    walk_fields Fields.end = Fields.end
    walk_fields (Fields.field k v fs) =
        let seen = walk v in
        let others = walk_fields fs in
        Fields.field k (if is_secret k then Json.text redacted else seen) others

  -- `_mask_processor`.
  pub mask_processor : Fields → Fields
  mask_processor event = walk_fields event

abbrev pub with_request : Scope → Fields → Fields
with_request s event =
    let named = set_default "request_id" (Json.text (current_request_id s)) event in
    if is_empty (current_request_id s) then event else named

abbrev pub with_actor : Option AuthContext → Fields → Fields
with_actor none event = event
with_actor (some auth) event =
    set_default "actor_id" (Json.text auth.user_id)
      (set_default "account_id" (Json.text auth.account_id) event)

-- `_add_context`; the pair are the trace's id and the span's.
unfoldable pub add_context : Scope → String × String → Fields → Fields
add_context s (trace_id, span_id) event =
    let known = with_actor s.auth_ctx (with_request s event) in
    if is_empty trace_id
    then known
    else set_default "span_id" (Json.text span_id)
        (set_default "trace_id" (Json.text trace_id) known)
