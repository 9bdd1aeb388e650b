-- ===== src/Platform/Firebase.antt =====
-- app/platform/security/firebase.py: verifying an identity token. What the token library, the
-- certificate loader, the hash and the network do is a parameter, `Provider`; claims are typed as
-- the identity provider documents them. Times are in microseconds.
pub mod Laws
use dop_api.Base.{
  ℕ, ◌+◌, ◌-◌, ◌*◌, String, Bool, false, Option, none, some, List, [], ◌∷◌, ◌++◌, Dict, ◌==◌,
  string_eq, nat_eq, is_empty, or_text, is_some, get, is_in, ltb, not, ◌&&◌, ◌<>◌, if◌then◌else◌,
  remove_prefix, strip, take_chars,
}
use dop_api.Platform.Context.{Principal}

abbrev pub second : ℕ
second = 1000000

abbrev pub clock_skew : ℕ
clock_skew = 60 * second

abbrev pub algorithms : List String
algorithms = "RS256" ∷ []

-- The claims that the program reads, each absent or present.
pub record Claims : Type 0 where
  pub sub : Option String
  pub user_id : Option String
  pub email : Option String
  pub email_verified : Bool
  pub name : Option String
  pub picture : Option String
  pub identities : List String
  pub sign_in_provider : Option String
  pub exp : Option ℕ
  pub aud : Option String
  pub auth_time : Option String
  pub iat : Option String

-- An unverified header, as far as it is read.
pub record Header : Type 0 where
  pub alg : Option String
  pub kid : Option String

-- `verify` returns a principal, raises `InvalidToken`, or lets another exception through.
pub data Verdict {ℓ} (A : Type ℓ) : Type ℓ where
  verified : A → Verdict A
  invalid : String → Verdict A
  crashed : String → Verdict A

-- The object's state: the project, the emulator, and the cache of certificates with its time.
pub record FirebaseVerifier : Type 0 where
  pub project_id : String
  pub emulator_host : String
  pub keys : Dict String
  pub keys_fetched_at : ℕ

-- `options["require"]`.
abbrev pub required_claims : List String
required_claims = "exp" ∷ "iat" ∷ "aud" ∷ "iss" ∷ []

-- What is called outside. `V` is the world: `fetch_certificates` is a request on the network,
-- `none` where it raises; `jwt_decode` checks signature, algorithm, audience, issuer, the times with a
-- leeway and the claims that are required, and is `none` where it raises `InvalidTokenError`; `decode_payload` reads the middle
-- segment, and is `none` where that is no JSON in base64.
pub record Provider (V : Type 0) : Type 0 where
  pub clock : V → ℕ
  pub request_certificates : V → Option (Dict String) × V
  pub unverified_header : String → Option Header
  pub load_certificate : String → Option String
  pub jwt_decode :
      (token key : String) (algorithms : List String) (audience issuer : String) (leeway : ℕ)
      (required : List String) (now : ℕ)
      → Option Claims
  pub payload_segment : String → Option String
  pub decode_payload : String → Option Claims
  pub sha256_hex : String → String

module _ {V : Type 0} (p : Provider V) where
  -- `_session_id`.
  unfoldable pub session_id : String → Claims → String
  session_id subject claims =
      let auth_time = or_text claims.auth_time (or_text claims.iat "") in
      take_chars 32 (p.sha256_hex (subject <> ":" <> auth_time))

  -- `_fetch_certificates`, with its brake.
  unfoldable pub fetch_certificates :
      FirebaseVerifier × V → Verdict (Unit {0}) × FirebaseVerifier × V
  fetch_certificates (v, w) =
      if ltb (p.clock w - v.keys_fetched_at) (30 * second)
      then (verified tt, v, w)
      else let (answer, w') = p.request_certificates w in
        elim answer [
          | none ↦ (crashed "certificates", v, w')
          | some keys ↦ (verified tt, record v { keys = keys; keys_fetched_at = p.clock w' }, w')
        ]

  -- The certificate behind a `kid`, after a fetch if it is not in the cache.
  abbrev pub load_key : Option String → Verdict String
  load_key none = invalid "unknown signing key"
  load_key (some pem) =
      if is_empty pem
      then invalid "unknown signing key"
      else elim (p.load_certificate pem) [ none ↦ crashed "certificate" | some key ↦ verified key ]

  unfoldable pub find_key : String → FirebaseVerifier × V → Verdict String × FirebaseVerifier × V
  find_key kid (v, w) =
      if is_some (get v.keys kid)
      then (load_key (get v.keys kid), v, w)
      else let (fetched, v', w') = fetch_certificates (v, w) in
        elim fetched [
          | verified _ ↦ (load_key (get v'.keys kid), v', w')
          | invalid e ↦ (invalid e, v', w')
          | crashed e ↦ (crashed e, v', w')
        ]

  -- `_public_key`.
  unfoldable pub public_key : String → FirebaseVerifier × V → Verdict String × FirebaseVerifier × V
  public_key token (v, w) = elim (p.unverified_header token) [
    | none ↦ (invalid "malformed token", v, w)
    | some header ↦
        if not (is_in (or_text header.alg "") algorithms)
        then (invalid "signature algorithm not accepted", v, w)
        else if is_empty (or_text header.kid "")
        then (invalid "token with no kid", v, w)
        else find_key (or_text header.kid "") (v, w)
  ]

  -- `_verified_claims`: the production path.
  unfoldable pub verified_claims :
      String → FirebaseVerifier × V → Verdict Claims × FirebaseVerifier × V
  verified_claims token (v, w) =
      if is_empty v.project_id
      then (invalid "the verifier has no project configured", v, w)
      else let (found, v', w') = public_key token (v, w) in
        elim found [
          | invalid e ↦ (invalid e, v', w')
          | crashed e ↦ (crashed e, v', w')
          | verified key ↦
              let issuer = "https://securetoken.google.com/" <> v.project_id in
              elim (p.jwt_decode token key algorithms v.project_id issuer clock_skew required_claims
                (p.clock w')) [
                  | none ↦ (invalid "invalid token", v', w')
                  | some claims ↦ (verified claims, v', w')
                ]
        ]

  abbrev pub is_expired : Option ℕ → ℕ → Bool
  is_expired none now = false
  is_expired (some exp) now = not (exp == 0) && ltb (exp + clock_skew) now

  -- `_emulator_claims`.
  unfoldable pub emulator_claims : FirebaseVerifier → String → V → Verdict Claims
  emulator_claims v token w = elim (p.payload_segment token) [
    | none ↦ invalid "malformed token"
    | some segment ↦ elim (p.decode_payload segment) [
      | none ↦ invalid "unreadable payload"
      | some claims ↦
          let aud = or_text claims.aud "" in
          if is_expired claims.exp (p.clock w)
          then invalid "expired token"
          else if not (is_empty aud) && not (is_empty v.project_id) && not (aud == v.project_id)
          then invalid "token issued for another project"
          else verified claims
    ]
  ]

  -- The claims as a `Principal`, from `subject` on.
  unfoldable pub principal_of : Claims → Verdict Principal
  principal_of claims =
      let subject = or_text claims.sub (or_text claims.user_id "") in
      let provider = or_text claims.sign_in_provider "" in
      if is_empty subject
      then invalid "token with no subject"
      else verified (record {
        subject = subject;
        email = or_text claims.email "";
        email_verified = claims.email_verified;
        name = or_text claims.name "";
        avatar_url = or_text claims.picture "";
        providers = claims.identities ++ (if is_empty provider then [] else provider ∷ []);
        session_id = session_id subject claims;
      })

  abbrev pub normalize :
      Verdict Claims × FirebaseVerifier × V → Verdict Principal × FirebaseVerifier × V
  normalize (verified claims, v, w) = (principal_of claims, v, w)
  normalize (invalid e, v, w) = (invalid e, v, w)
  normalize (crashed e, v, w) = (crashed e, v, w)

  -- `verify`.
  unfoldable pub verify : String → FirebaseVerifier × V → Verdict Principal × FirebaseVerifier × V
  verify raw (v, w) =
      let token = strip (remove_prefix "Bearer " raw) in
      if is_empty token
      then (invalid "missing token", v, w)
      else if not (is_empty v.emulator_host)
      then normalize (emulator_claims v token w, v, w)
      else normalize (verified_claims token (v, w))
