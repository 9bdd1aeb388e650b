-- ===== src/Platform/Logging/Mask.antt =====
-- The secrets in a line of the log.
use dop_api.Base.{
  List, [], ◌∷◌, is_in, ap, sym, refl, ◌≡◌, inl, inr, String, Bool, true, false, Option, none, some,
  ◌&&◌, ◌==◌, nat_eq, string_eq, arith, eq_iff, eq_refl, Bool-cases, if◌then◌else◌,
}
use dop_api.Platform.Json.{Json, Items, Fields, entry}
use dop_api.Platform.Context.{Scope}
use dop_api.Platform.Logging.{
  redacted, is_secret, walk, walk_items, walk_fields, mask_processor, add_context,
}

abbrev is_redacted : Json → Bool
is_redacted (Json.text t) = t == "***"
is_redacted _ = false

-- The names that a secret goes by.
abbrev pub secret_names : List String
secret_names =
    "password" ∷ "token" ∷ "secret" ∷ "authorization" ∷ "api_key" ∷ "private_key" ∷ "client_secret"
    ∷ "credential" ∷ "id_token" ∷ "refresh_token" ∷ "cpf" ∷ "cnpj" ∷ []

module _ (lower : String → String) where
  unfoldable pub hides : String → Bool
  hides key = is_in (lower key) secret_names

  hides-is_secret : (key : String) → is_secret lower key ≡ hides key
  unfolding hides is_secret
  hides-is_secret key = refl

  -- Every field whose name in lower case is a secret's, at any depth of dictionaries and lists, shows
  -- the redaction. A value of another kind is not looked into.
  abbrev mutual
    pub is_masked : Json → Bool
    is_masked Json.null = true
    is_masked (Json.bool b) = true
    is_masked (Json.num n) = true
    is_masked (Json.text t) = true
    is_masked (Json.list values) = is_masked_items values
    is_masked (Json.dict fields) = is_masked_fields fields
    is_masked (Json.opaque held) = true

    pub is_masked_items : Items → Bool
    is_masked_items Items.nil = true
    is_masked_items (Items.cons v vs) = is_masked v && is_masked_items vs

    pub is_masked_fields : Fields → Bool
    is_masked_fields Fields.end = true
    is_masked_fields (Fields.field k v fs) =
        (if hides k then is_redacted v else is_masked v) && is_masked_fields fs

  mutual
    walk-masked : (v : Json) → is_masked (walk lower v) ≡ true
    walk-masked Json.null = refl
    walk-masked (Json.bool b) = refl
    walk-masked (Json.num n) = refl
    walk-masked (Json.text t) = refl
    walk-masked (Json.list values) = walk_items-masked values
    walk-masked (Json.dict fields) = walk_fields-masked fields
    walk-masked (Json.opaque held) = refl

    walk_items-masked : (vs : Items) → is_masked_items (walk_items lower vs) ≡ true
    walk_items-masked Items.nil = refl
    walk_items-masked (Items.cons v vs) = ground (arith, walk-masked v, walk_items-masked vs)

    walk_fields-masked : (fs : Fields) → is_masked_fields (walk_fields lower fs) ≡ true
    walk_fields-masked Fields.end = refl
    walk_fields-masked (Fields.field k v fs) =
        ground (arith, walk-masked v, walk_fields-masked fs, eq_refl redacted, hides-is_secret k)

  mutual
    masked-walk : (v : Json) → is_masked v ≡ true → walk lower v ≡ v
    masked-walk Json.null h = refl
    masked-walk (Json.bool b) h = refl
    masked-walk (Json.num n) h = refl
    masked-walk (Json.text t) h = refl
    masked-walk (Json.list values) h = ap Json.list (masked-walk_items values h)
    masked-walk (Json.opaque held) h = refl
    masked-walk (Json.dict fields) h = ap Json.dict (masked-walk_fields fields h)

    masked-walk_items : (vs : Items) → is_masked_items vs ≡ true → walk_items lower vs ≡ vs
    masked-walk_items Items.nil h = refl
    masked-walk_items (Items.cons v vs) h =
        cc (masked-walk v (ground arith), masked-walk_items vs (ground arith))

    masked-walk_fields : (fs : Fields) → is_masked_fields fs ≡ true → walk_fields lower fs ≡ fs
    masked-walk_fields Fields.end h = refl
    masked-walk_fields (Fields.field k v fs) h =
        let others : walk_fields lower fs ≡ fs = masked-walk_fields fs (ground arith) in
        elim (Bool-cases (is_secret lower k)) [
          | inl secret ↦ cc (redacted_only v (ground (arith, hides-is_secret k)), secret, others)
          | inr plain ↦ cc (masked-walk v (ground (arith, hides-is_secret k)), plain, others)
        ]

    redacted_only : (v : Json) → is_redacted v ≡ true → Json.text redacted ≡ v
    redacted_only (Json.text t) h = ap Json.text (sym ((eq_iff t redacted).0 h))
    redacted_only Json.null h = absurd (ground arith)
    redacted_only (Json.bool b) h = absurd (ground arith)
    redacted_only (Json.num n) h = absurd (ground arith)
    redacted_only (Json.list vs) h = absurd (ground arith)
    redacted_only (Json.dict fs) h = absurd (ground arith)
    redacted_only (Json.opaque vs) h = absurd (ground arith)

  -- Whatever the event and the context that is added to it, no field with a secret's name, in whatever
  -- case, keeps its value at any depth of dictionaries and lists, and masking what is masked changes
  -- nothing. No claim is made of what a value of
  -- another kind holds, as a tuple.
  pub mask_processor-masked :
      (s : Scope) (span : String × String) (event : Fields)
      → let line = mask_processor lower (add_context s span event) in
        (is_masked_fields line ≡ true) × (mask_processor lower line ≡ line)
  unfolding mask_processor
  mask_processor-masked s span event =
      let masked = walk_fields-masked (add_context s span event) in
      (masked, masked-walk_fields _ masked)

  abbrev pub masked_entry : String → Option Json → Option Json
  masked_entry key none = none
  masked_entry key (some v) =
      let seen = walk lower v in some (if is_secret lower key then Json.text redacted else seen)

  -- A field is masked by its own whole name alone: with any other, as `secret_base64`, a text is written
  -- as it stands, and every field of the event is there.
  mask_processor-entry :
      (key : String) (event : Fields)
      → entry key (mask_processor lower event) ≡ masked_entry key (entry key event)
  unfolding mask_processor
  mask_processor-entry key Fields.end = refl
  mask_processor-entry key (Fields.field k v fs) =
      ground (arith, mask_processor-entry key fs, eq_iff k key)
