-- ===== src/Coreclient/Callauth/Laws.antt =====
-- A signed assertion says one thing only.
use dop_api.Base.{
  ◌↔◌, ℕ, ◌≡◌, refl, ap, sym, ◌∙◌, String, false, List, [], ◌∷◌, any, has_char, join, split_on,
  ◌<>◌, arith, nat_eq,
}
use Prim.Native.Char.{Char, code}
use Prim.Native.String
use text.Mathlib.TextLemmas.{cons-append, nil-append, append_assoc}
use dop_api.Base.Decimal.{to_decimal-injective, to_decimal-has_char}
use dop_api.Platform.Errors.{done}
use dop_api.Coreclient.Callauth.{Claim, has_separator, fields_of, expiry, sign}

-- What stands in front of a separator can be read off.
split_on-append :
    (n : ℕ) (c : Char) (s t : String)
    → code c ≡ n
    → has_char n s ≡ false
    → split_on n (String.◌++◌ s (String.◌∷◌ c t)) ≡ s ∷ split_on n t
split_on-append n c String.[] t is clean = rw nil-append (ground arith)
split_on-append n c (String.◌∷◌ d s) t is clean =
    rw cons-append (rw (split_on-append n c s t is (ground arith)) (ground arith))

split_on-clean : (n : ℕ) (s : String) → has_char n s ≡ false → split_on n s ≡ s ∷ []
split_on-clean n String.[] clean = refl
split_on-clean n (String.◌∷◌ d s) clean = rw (split_on-clean n s (ground arith)) (ground arith)

abbrev AllClean : ℕ → List String → Type 0
AllClean n [] = Unit
AllClean n (s ∷ ss) = (has_char n s ≡ false) × AllClean n ss

-- Splitting at the bar undoes joining by it.
split_on-join :
    (s : String) (ss : List String)
    → has_char b'|' s ≡ false
    → AllClean b'|' ss
    → split_on b'|' (join "|" (s ∷ ss)) ≡ s ∷ ss
split_on-join s [] clean rest = split_on-clean b'|' s clean
split_on-join s (t ∷ ts) clean rest =
    rw (cons-append, nil-append)
      (rw (split_on-append b'|' "|" s (join "|" (t ∷ ts)) refl clean)
        (ap (λ r. s ∷ r) (split_on-join t ts rest.0 rest.1)))

-- The receiver's reading of a payload.
pub split_on-fields :
    (c : Claim) (expires : ℕ)
    → any has_separator (fields_of c expires) ≡ false
    → split_on b'|' (join "|" (fields_of c expires)) ≡ fields_of c expires
split_on-fields c expires clean =
    split_on-join c.caller _ (ground arith)
      (ground arith, (ground arith, (ground arith, (ground arith, (ground arith, tt)))))

fields_of-injective : (c d : Claim) (m n : ℕ) → fields_of c m ≡ fields_of d n → (c ≡ d) × (m ≡ n)
fields_of-injective c d m n same = (ground arith, to_decimal-injective m n (ground arith))

split_on-dot :
    (x y : String) → has_char b'.' x ≡ false → split_on b'.' (x <> "." <> y) ≡ x ∷ split_on b'.' y
split_on-dot x y clean =
    rw (append_assoc, cons-append, nil-append) (split_on-append b'.' "." x y refl clean)

abbrev payload : Claim → ℕ → String
payload c now = join "|" (fields_of c (expiry now))

module _ (hmac_sha256 : String → String → String) (base64url : String → String) where
  sign_clean :
      (key : String) (c : Claim) (now : ℕ) (out : String)
      → sign hmac_sha256 base64url key c now ≡ done out
      → any has_separator (fields_of c (expiry now)) ≡ false
  unfolding sign
  sign_clean key c now out e = ground arith

  sign_text :
      (key : String) (c : Claim) (now : ℕ) (out : String)
      → sign hmac_sha256 base64url key c now ≡ done out
      → base64url (payload c now) <> "." <> hmac_sha256 key (payload c now) ≡ out
  unfolding sign
  sign_text key c now out e = ground arith

  -- Signing works exactly on a claim whose five fields have neither separator.
  sign_iff :
      (key : String) (c : Claim) (now : ℕ)
      → ((out : String) × (sign hmac_sha256 base64url key c now ≡ done out)) ↔ (
          any has_separator
            (c.caller ∷ c.actor_id ∷ c.actor_kind ∷ c.account_id ∷ c.session_id ∷ [])
          ≡ false)
  unfolding sign
  sign_iff key c now = (
    λ s. ground (arith, s.1),
    λ clean. (
      base64url (payload c now) <> "." <> hmac_sha256 key (payload c now),
      ground (
        arith,
        to_decimal-has_char b'|' (expiry now) (omega arith),
        to_decimal-has_char b'.' (expiry now) (omega arith),
      ),
    ),
  )

module _ (hmac_sha256 : String → String → String) (base64url : String → String)
    (faithful : (s t : String) → base64url s ≡ base64url t → s ≡ t)
    (dotless : (s : String) → has_char b'.' (base64url s) ≡ false) where
  sign_head :
      (key : String) (c : Claim) (now : ℕ) (out : String)
      → sign hmac_sha256 base64url key c now ≡ done out
      → split_on b'.' out
        ≡ base64url (payload c now) ∷ split_on b'.' (hmac_sha256 key (payload c now))
  sign_head key c now out e = rw (← sign_text hmac_sha256 base64url key c now out e) (
      split_on-dot (base64url (payload c now)) (hmac_sha256 key (payload c now))
        (dotless (payload c now)))

  same_payload :
      (key key' : String) (c d : Claim) (now now' : ℕ) (out : String)
      → sign hmac_sha256 base64url key c now ≡ done out
      → sign hmac_sha256 base64url key' d now' ≡ done out
      → payload c now ≡ payload d now'
  same_payload key key' c d now now' out e f =
      faithful (payload c now) (payload d now')
        (cc (sign_head key c now out e, sign_head key' d now' out f))

  -- Two signed assertions that are the same text, under whatever keys, assert the same: caller,
  -- actor, kind, account and session, and the same second of expiry. The base64 in use is one to
  -- one and has no dot.
  pub sign-injective :
      (key key' : String) (c d : Claim) (now now' : ℕ) (out : String)
      → sign hmac_sha256 base64url key c now ≡ done out
      → sign hmac_sha256 base64url key' d now' ≡ done out
      → (c ≡ d) × (expiry now ≡ expiry now')
  sign-injective key key' c d now now' out e f =
      fields_of-injective c d (expiry now) (expiry now') (
        sym (split_on-fields c (expiry now) (sign_clean hmac_sha256 base64url key c now out e))
        ∙ ap (split_on b'|') (same_payload key key' c d now now' out e f)
        ∙ split_on-fields d (expiry now') (sign_clean hmac_sha256 base64url key' d now' out f))
