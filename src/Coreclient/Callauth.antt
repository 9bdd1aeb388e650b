-- ===== src/Coreclient/Callauth.antt =====
-- app/coreclient/callauth.py: the signed assertion. The MAC and the base64 alphabet are parameters;
-- the clock counts microseconds.
pub mod Laws
use dop_api.Base.{
  ℕ, ◌+◌, ◌*◌, ◌/◌, String, Bool, ◌||◌, List, [], ◌∷◌, any, has_char, join, ◌<>◌, if◌then◌else◌,
}
use dop_api.Base.Decimal.{to_decimal}
use dop_api.Platform.Errors.{Error, Result, done, raised}
use dop_api.Platform.Firebase.{second}

abbrev pub ttl_seconds : ℕ
ttl_seconds = 120

-- What is asserted: who calls, the actor and its kind, the account and the session.
pub record Claim : Type 0 where
  pub caller : String
  pub actor_id : String
  pub actor_kind : String
  pub account_id : String
  pub session_id : String

-- `any(sep in field for sep in "|.")`.
abbrev pub has_separator : String → Bool
has_separator field = has_char b'|' field || has_char b'.' field

abbrev pub fields_of : Claim → ℕ → List String
fields_of c expires =
    c.caller ∷ c.actor_id ∷ c.actor_kind ∷ c.account_id ∷ c.session_id ∷ to_decimal expires ∷ []

abbrev pub expiry : ℕ → ℕ
expiry now = (now + ttl_seconds * second) / second

module _ (hmac_sha256 : String → String → String) (base64url : String → String) where
  -- `sign`.
  unfoldable pub sign : String → Claim → ℕ → Result String
  sign key claim now =
      let fields = fields_of claim (expiry now) in
      let payload = join "|" fields in
      if any has_separator fields
      then raised (Error.failure "field with a separator")
      else done (base64url payload <> "." <> hmac_sha256 key payload)
