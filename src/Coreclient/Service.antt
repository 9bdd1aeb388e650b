-- ===== src/Coreclient/Service.antt =====
-- app/coreclient/client.py: `_ServiceIdentity`, the service's own token with its cache. The
-- metadata server and the clock are parameters; times are in microseconds.
pub mod Laws
use dop_api.Base.{
  ◌*◌, ◌<◌, ℕ, ◌+◌, ◌-◌, String, Bool, Option, none, some, [], ◌∷◌, not, ◌&&◌, nat_eq, string_eq,
  Dict, is_empty, strip, ◌<>◌, ltb, if◌then◌else◌,
}
use dop_api.Platform.Firebase.{second}

-- The object's state.
pub record ServiceIdentity : Type 0 where
  pub audience : String
  pub token : String
  pub expires_at : ℕ

-- The clock, and the request for a token of an audience: the body of the answer, or `none` where
-- the request raises.
pub record MetadataServer (V : Type 0) : Type 0 where
  pub clock : V → ℕ
  pub request_token : String → V → Option String × V

abbrev pub skew : ℕ
skew = 300 * second

abbrev pub lifetime : ℕ
lifetime = 3600 * second

-- `self._token and now < self._expires_at - self._SKEW`.
abbrev pub is_fresh : ServiceIdentity → ℕ → Bool
is_fresh v now = not (is_empty v.token) && ltb (now + skew) v.expires_at

module _ {V : Type 0} (p : MetadataServer V) where
  -- `_fresh_token`: `none` where it raises. The clock is read before the request.
  unfoldable pub fresh_token : ServiceIdentity × V → Option String × ServiceIdentity × V
  fresh_token (v, w) =
      let now = p.clock w in
      let (answer, w') = p.request_token v.audience w in
      if is_fresh v now then (some v.token, v, w) else elim answer [
        | none ↦ (none, v, w')
        | some body ↦
            (some (strip body), record v { token = strip body; expires_at = now + lifetime }, w')
      ]

  -- `__call__`: the metadata that the callback gets, or `none` for the exception.
  pub attach : ServiceIdentity × V → Option (Dict String) × ServiceIdentity × V
  unfolding fresh_token
  attach (v, w) =
      let (answer, v', w') = fresh_token (v, w) in
      elim answer [
        | none ↦ (none, v', w')
        | some token ↦ (some (("x-serverless-authorization", "Bearer " <> token) ∷ []), v', w')
      ]
