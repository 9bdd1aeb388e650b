-- ===== src/Platform/Firebase/Laws.antt =====
-- What an accepted token has shown, and when certificates are fetched.
use dop_api.Base.{
  [], ◌∷◌, Option, is_some, get, Bool-cases, ap, ℕ, ◌+◌, ◌-◌, ◌*◌, ◌≤◌, ◌<◌, ◌≡◌, ◌⊎◌, inl, inr,
  refl, String, Bool, true, false, none, some, Dict, string_eq, is_empty, or_text, ◌<>◌,
  remove_prefix, strip, arith, eq_iff, Option-cases,
}
use dop_api.Platform.Context.{Principal}
use dop_api.Platform.Firebase.{
  FirebaseVerifier, Provider, Verdict, Header, Claims, verified, invalid, crashed, second,
  clock_skew, fetch_certificates, find_key, load_key, public_key, verified_claims, emulator_claims,
  principal_of, verify,
}

-- A verdict that let something through, or refused.
accepts : {A : Type 0} → Verdict A → Bool
accepts (verified a) = true
accepts _ = false

Verdict-cases : {A : Type 0} (r : Verdict A) → ((a : A) × (r ≡ verified a)) ⊎ (accepts r ≡ false)
unfolding accepts
Verdict-cases (verified a) = inl (a, refl)
Verdict-cases (invalid e) = inr refl
Verdict-cases (crashed e) = inr refl

module _ {V : Type 0} (p : Provider V) where
  -- The token behind the header's value.
  abbrev pub bare : String → String
  bare raw = strip (remove_prefix "Bearer " raw)

  -- What the production path has checked of a token before it accepts it.
  pub record IsGenuine (v : FirebaseVerifier) (token : String) (q : Principal) : Type 0 where
    pub header : Header
    pub key : String
    pub claims : Claims
    pub now : ℕ
    pub read : p.unverified_header token ≡ some header
    pub certificate : String
    pub loaded : p.load_certificate certificate ≡ some key
    pub signed : or_text header.alg "" ≡ "RS256"
    pub decoded :
        p.jwt_decode token key
          ("RS256" ∷ [])
          v.project_id
          ("https://securetoken.google.com/" <> v.project_id)
          clock_skew
          ("exp" ∷ "iat" ∷ "aud" ∷ "iss" ∷ [])
          now
        ≡ some claims
    pub project : is_empty v.project_id ≡ false
    pub named : is_empty q.subject ≡ false

  -- The key comes from a certificate of the cache.
  abbrev FromCertificate : String → Type 0
  FromCertificate key = (pem : String) × (p.load_certificate pem ≡ some key)

  load_key_inv :
      (found : Option String) (key : String) → load_key p found ≡ verified key → FromCertificate key
  load_key_inv none key e = absurd (ground arith)
  load_key_inv (some pem) key e = (pem, ground arith)

  find_key_inv :
      (kid key : String) (v : FirebaseVerifier) (w : V)
      → (find_key p kid (v, w)).0 ≡ verified key
      → FromCertificate key
  unfolding find_key accepts
  find_key_inv kid key v w e = elim (Bool-cases (is_some (get v.keys kid))) [
    | inl cached ↦ load_key_inv (get v.keys kid) key (ground arith)
    | inr missing ↦ elim (Verdict-cases (fetch_certificates p (v, w)).0) [
      | inl (_, fetched) ↦
          load_key_inv (get (fetch_certificates p (v, w)).1.keys kid) key (ground arith)
      | inr refused ↦ absurd (ground arith)
    ]
  ]

  public_key_certificate :
      (token key : String) (v : FirebaseVerifier) (w : V)
      → (public_key p token (v, w)).0 ≡ verified key
      → FromCertificate key
  unfolding public_key
  public_key_certificate token key v w e = elim (Option-cases (p.unverified_header token)) [
    | inl bad ↦ absurd (ground arith)
    | inr (h, good) ↦ find_key_inv (or_text h.kid "") key v w (ground arith)
  ]

  public_key_inv :
      (token key : String) (v : FirebaseVerifier) (w : V)
      → (public_key p token (v, w)).0 ≡ verified key
      → (h : Header) × (p.unverified_header token ≡ some h) × (or_text h.alg "" ≡ "RS256")
  unfolding public_key
  public_key_inv token key v w e = elim (Option-cases (p.unverified_header token)) [
    | inl bad ↦ absurd (ground arith)
    | inr (h, good) ↦ (h, good, ground (arith, eq_iff (or_text h.alg "") "RS256"))
  ]

  public_key-project :
      (token : String) (v : FirebaseVerifier) (w : V)
      → (public_key p token (v, w)).1.project_id ≡ v.project_id
  unfolding public_key find_key fetch_certificates
  public_key-project token v w = ground arith

  verified_claims_inv :
      (token : String) (v : FirebaseVerifier) (w : V) (claims : Claims)
      → (verified_claims p token (v, w)).0 ≡ verified claims
      → (is_empty v.project_id ≡ false)
        × (key : String) × (now : ℕ) × ((public_key p token (v, w)).0 ≡ verified key)
        × (p.jwt_decode token key
              ("RS256" ∷ [])
              v.project_id
              ("https://securetoken.google.com/" <> v.project_id)
              clock_skew
              ("exp" ∷ "iat" ∷ "aud" ∷ "iss" ∷ [])
              now
            ≡ some claims)
  unfolding verified_claims accepts
  verified_claims_inv token v w claims e = elim (Verdict-cases (public_key p token (v, w)).0) [
    | inl (key, found) ↦
        (ground arith, key, p.clock (public_key p token (v, w)).2, found, ground arith)
    | inr refused ↦ absurd (ground arith)
  ]

  principal_of_inv :
      (claims : Claims) (q : Principal)
      → principal_of p claims ≡ verified q
      → is_empty q.subject ≡ false
  unfolding principal_of
  principal_of_inv claims q e = ground arith

  -- Outside the emulator a principal comes only from a token that the library has decoded with a
  -- key of a certificate, for the configured project's audience and issuer, whose header asks for
  -- RS256, and whose subject is not empty. With no project nothing is accepted.
  pub verify-IsGenuine :
      (raw : String) (v : FirebaseVerifier) (w : V) (q : Principal)
      → is_empty v.emulator_host ≡ true
      → (verify p raw (v, w)).0 ≡ verified q
      → IsGenuine v (bare raw) q
  unfolding verify accepts
  verify-IsGenuine raw v w q real e = elim (Verdict-cases (verified_claims p (bare raw) (v, w)).0) [
    | inr refused ↦ absurd (ground arith)
    | inl (claims, ok) ↦
        let (project, key, now, found, decoded) = verified_claims_inv (bare raw) v w claims ok in
        let (header, read, signed) = public_key_inv (bare raw) key v w found in
        record {
          header = header;
          key = key;
          claims = claims;
          now = now;
          certificate = (public_key_certificate (bare raw) key v w found).0;
          loaded = (public_key_certificate (bare raw) key v w found).1;
          read = read;
          signed = signed;
          decoded = decoded;
          project = project;
          named = principal_of_inv claims q (ground arith);
        }
  ]

  -- Against the emulator an accepted token has readable claims, is not expired by more than the
  -- tolerance if it has an expiry, and is for this project if both are named.
  emulator_claims_sound :
      (v : FirebaseVerifier) (token : String) (w : V) (claims : Claims)
      → emulator_claims p v token w ≡ verified claims
      → ((claims.exp ≡ none)
          ⊎ ((exp : ℕ) × (claims.exp ≡ some exp) × ((exp ≡ 0) ⊎ (p.clock w ≤ exp + clock_skew))))
        × ((is_empty (or_text claims.aud "") ≡ true)
            ⊎ ((is_empty v.project_id ≡ true) ⊎ (or_text claims.aud "" ≡ v.project_id)))
  unfolding emulator_claims
  emulator_claims_sound v token w claims e = (
    elim (Option-cases claims.exp) [
      | inl absent ↦ inl absent
      | inr (exp, has) ↦ inr (exp, has, ground arith)
    ],
    ground (arith, eq_iff (or_text claims.aud "") v.project_id),
  )

  public_key_braked :
      (token : String) (v : FirebaseVerifier) (u : V)
      → p.clock u - v.keys_fetched_at < 30 * second
      → ((public_key p token (v, u)).1 ≡ v) × ((public_key p token (v, u)).2 ≡ u)
  unfolding public_key find_key fetch_certificates
  public_key_braked token v u soon = ground arith

  fetch_certificates_time :
      (v : FirebaseVerifier) (w : V) (keys : Dict String)
      → 30 * second ≤ p.clock w - v.keys_fetched_at
      → (p.request_certificates w).0 ≡ some keys
      → (fetch_certificates p (v, w)).1.keys_fetched_at ≡ p.clock (fetch_certificates p (v, w)).2
  unfolding fetch_certificates
  fetch_certificates_time v w keys late came = ground arith

  fetch_certificates_world :
      (v : FirebaseVerifier) (w : V) (keys : Dict String)
      → 30 * second ≤ p.clock w - v.keys_fetched_at
      → (p.request_certificates w).0 ≡ some keys
      → (fetch_certificates p (v, w)).2 ≡ (p.request_certificates w).1
  unfolding fetch_certificates
  fetch_certificates_world v w keys late came = ground arith

  -- Once certificates have come, no other request for them goes out for thirty seconds, whatever
  -- token asks for which key: the verifier and the world stay as they are.
  pub fetch_certificates_brake :
      (v : FirebaseVerifier) (w u : V) (keys : Dict String) (token : String)
      → 30 * second ≤ p.clock w - v.keys_fetched_at
      → (p.request_certificates w).0 ≡ some keys
      → p.clock u < p.clock (p.request_certificates w).1 + 30 * second
      → let (r, v', w') = fetch_certificates p (v, w) in
        (r ≡ verified tt)
        × (v'.keys ≡ keys)
        × ((public_key p token (v', u)).1 ≡ v')
        × ((public_key p token (v', u)).2 ≡ u)
  unfolding fetch_certificates
  fetch_certificates_brake v w u keys token late came soon =
      let quiet = public_key_braked token (fetch_certificates p (v, w)).1 u (
        omega (
          arith,
          fetch_certificates_time v w keys late came,
          ap p.clock (fetch_certificates_world v w keys late came),
        )) in
      (ground arith, ground arith, quiet.0, quiet.1)

  -- A request for certificates that fails sets no time, so the brake is not on: the next token with
  -- an unknown key sends another at once, if the clock has not gone back.
  failed_fetch_unbraked :
      (v : FirebaseVerifier) (w : V)
      → 30 * second ≤ p.clock w - v.keys_fetched_at
      → (p.request_certificates w).0 ≡ none
      → p.clock w ≤ p.clock (p.request_certificates w).1
      → let (r, v', w') = fetch_certificates p (v, w) in
        (v' ≡ v) × ((fetch_certificates p (v', w')).2 ≡ (p.request_certificates w').1)
  unfolding fetch_certificates
  failed_fetch_unbraked v w late failed later = (ground arith, ground arith)
