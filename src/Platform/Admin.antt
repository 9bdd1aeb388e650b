-- ===== src/Platform/Admin.antt =====
-- app/platform/security/firebase_admin.py: action links of the identity provider. The clock, the two
-- HTTP requests and the taking apart of a URL are parameters; the one instance of the process, which
-- app/usecases/identity.py's `firebase_admin` keeps, is part of the world. Times are in microseconds.
pub mod Laws
use dop_api.Base.{
  ◌*◌, ends_with, ℕ, ◌+◌, String, Bool, Option, none, some, not, ◌&&◌, ◌||◌, ◌==◌, nat_eq,
  string_eq, is_empty, or_text, ◌<>◌, take_chars, ltb, if◌then◌else◌,
}
use dop_api.Platform.Firebase.{second}

-- The object's state.
pub record FirebaseAdmin : Type 0 where
  pub project : String
  pub emulator : String
  pub token : String
  pub expires_at : ℕ

-- The answer to the request for an access token: the body's two fields.
pub record TokenBody : Type 0 where
  pub access_token : String
  pub expires_in : Option ℕ

-- The request for a link: the URL, the payload's fields and the token, if one is sent.
pub record LinkRequest : Type 0 where
  pub url : String
  pub email : String
  pub continue_url : Option String
  pub authorization : Option String

-- The answer to it: the status, the text, and the body's `oobLink`.
pub record LinkAnswer : Type 0 where
  pub status_code : ℕ
  pub text : String
  pub oob_link : Option String

-- What `urlsplit` gives.
pub record Url : Type 0 where
  pub scheme : String
  pub netloc : String
  pub hostname : Option String
  pub path : String
  pub query : String
  pub fragment : String

-- The world of the module; a request is `none` where it raises.
pub record AdminWorld (W : Type 0) : Type 0 where
  pub instance_of : W → FirebaseAdmin
  pub store : FirebaseAdmin → W → W
  pub clock : W → ℕ
  pub request_token : W → Option TokenBody × W
  pub post_link : LinkRequest → W → Option LinkAnswer × W
  pub decimal : ℕ → String
  pub urlsplit : String → Url
  pub urlunsplit : Url → String

-- A link, `LinkNotGenerated`, or another exception.
pub data Outcome : Type 0 where
  minted : String → Outcome
  not_generated : String → Outcome
  crashed : String → Outcome

abbrev pub skew : ℕ
skew = 300 * second

abbrev pub expiry_seconds : Option ℕ → ℕ
expiry_seconds none = 3600
expiry_seconds (some n) = n

-- `self._token and now < self._expires_at - _SKEW`.
abbrev pub is_fresh : FirebaseAdmin → ℕ → Bool
is_fresh a now = not (is_empty a.token) && ltb (now + skew) a.expires_at

-- `_base`.
abbrev pub base : FirebaseAdmin → String
base a =
    if is_empty a.emulator
    then "https://identitytoolkit.googleapis.com/v1"
    else "http://" <> a.emulator <> "/identitytoolkit.googleapis.com/v1"

-- What is made of the answer to the request for a link.
abbrev pub outcome_of : (ℕ → String) → LinkAnswer → Outcome
outcome_of decimal answer =
    let link = or_text answer.oob_link "" in
    if not (answer.status_code == 200)
    then not_generated ("HTTP " <> decimal answer.status_code <> ": " <> take_chars 300 answer.text)
    else if is_empty link
    then not_generated "Identity Platform answered 200 with no oobLink"
    else minted link

module _ {W : Type 0} (p : AdminWorld W) where
  -- `_access_token`: `none` where it raises. The clock is read before the request.
  unfoldable pub access_token : W → Option String × W
  access_token w =
      let a = p.instance_of w in
      let now = p.clock w in
      let (answer, w') = p.request_token w in
      if not (is_empty a.emulator)
      then (some "", w)
      else if is_fresh a now
      then (some a.token, w)
      else elim answer [
        | none ↦ (none, w')
        | some body ↦ (
          some body.access_token,
          p.store
              (record a {
                token = body.access_token;
                expires_at = now + expiry_seconds body.expires_in * second;
              })
              w',
        )
      ]

  abbrev pub link_request : W → String → String → String → LinkRequest
  link_request w email continue_url token =
      let a = p.instance_of w in
      record {
        url = base a <> "/projects/" <> a.project <> "/accounts:sendOobCode";
        email = email;
        continue_url = if is_empty continue_url then none else some continue_url;
        authorization = if is_empty token then none else some ("Bearer " <> token);
      }

  -- `verification_link`.
  unfoldable pub verification_link : String → String → W → Outcome × W
  unfolding access_token
  verification_link email continue_url w =
      let (found, w') = access_token w in
      elim found [
        | none ↦ (crashed "metadata server", w')
        | some token ↦
            let (answer, w'') = p.post_link (link_request w' email continue_url token) w' in
            elim answer [
              | none ↦ (crashed "identity platform", w'')
              | some a ↦ (outcome_of p.decimal a, w'')
            ]
      ]

  -- `on_our_domain`.
  unfoldable pub on_our_domain : String → String → String
  on_our_domain link auth_domain =
      let parts = p.urlsplit link in
      let host = or_text parts.hostname "" in
      if is_empty auth_domain
      then link
      else if is_empty host || not (ends_with ".firebaseapp.com" host)
      then link
      else p.urlunsplit (record parts { netloc = auth_domain })
