-- ===== src/Tests/Logging.antt =====
-- The theorems about the log at concrete events.
use dop_api.Base.{
  ap, inl, inr, arith, or_text, ◌==◌, if◌then◌else◌, refl, ◌≡◌, ℕ, String, true, some, [], ◌∷◌,
  nat_eq, string_eq, get,
}
use dop_api.Platform.Json.{Json, Fields}
use dop_api.Platform.Errors.{done, raised, Error, Result-cases}
use dop_api.Platform.Edge.{Edge}
use dop_api.Platform.Logging.{mask_processor, add_context}
use dop_api.Platform.Logging.Mask.{is_masked_fields, mask_processor-masked}
use dop_api.Platform.Logging.Requests.{Opened, LoggedResponse, Journal, dispatch}
use dop_api.Platform.Logging.Requests.Laws.{TracedAlike, dispatch_traced}
use dop_api.Coreclient.Client.{metadata}
use dop_api.Tests.World.{outside, nowhere, scope_of}

abbrev keep : String → String
keep s = if s == "Password" then "password" else s

abbrev event : Fields
event =
    Fields.field "body" (Json.dict (Fields.field "Password" (Json.text "hunter2") Fields.end))
      (Fields.field "secret_base64" (Json.text "aGk=") Fields.end)

mask_processor-masked_example :
    (is_masked_fields keep (mask_processor keep (add_context (scope_of "owner") ("t", "s") event))
      ≡ true)
    × (mask_processor keep (mask_processor keep (add_context (scope_of "owner") ("t", "s") event))
        ≡ mask_processor keep (add_context (scope_of "owner") ("t", "s") event))
mask_processor-masked_example = mask_processor-masked keep (scope_of "owner") ("t", "s") event

-- The name of the field that a credential arrives in is not a secret's.
abbrev opened : Opened
opened = record { request_id = "r9"; path = "/me"; method = "GET"; client_ip = "" }

abbrev journal : Journal ℕ
journal = record {
  str_error = λ e. "";
  perf_counter = λ n. n;
  write = λ l n. n;
  str_status = λ n. "";
}

abbrev handler : Edge ℕ LoggedResponse
handler s n = (done (record { status_code = 200; headers = [] }), n)

abbrev answer : LoggedResponse
answer = record { status_code = 200; headers = ("x-request-id", "r9") ∷ [] }

-- A handler that fails wherever a call of the core would not carry the id.
abbrev strict : Edge ℕ LoggedResponse
strict s n = elim (metadata outside s n).0 [
  | raised e ↦ handler s n
  | done md ↦
      if or_text (get md "x-request-id") "" == "r9"
      then handler s n
      else (raised (Error.failure "untraced"), n)
]

strict-TracedAlike : TracedAlike outside journal opened nowhere 0 handler strict
strict-TracedAlike inside u carries =
    let asked = metadata outside inside u in
    elim (Result-cases asked.0) [
      | inr (e, refused) ↦ ground (arith, refused)
      | inl (md, made) ↦
          let seen =
            ap (λ id. or_text id "" == "r9") (carries md asked.1 u (ground (arith, made))) in
          ground (arith, made, seen)
    ]

dispatch_traced_example :
    (get answer.headers "x-request-id" ≡ some "r9")
    × (dispatch outside journal opened strict nowhere 0 ≡ (done answer, 0))
unfolding dispatch
dispatch_traced_example =
    dispatch_traced outside journal opened nowhere 0 handler strict answer 0 refl strict-TracedAlike
      refl
