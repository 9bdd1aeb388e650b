-- ===== src/Usecases/SecondFactor/Laws.antt =====
-- What the edge decides itself about a second factor.
use dop_api.Base.{
  refl, ◌≡◌, ◌⊎◌, inl, inr, ℕ, String, false, nat_eq, string_eq, is_in, ◌<>◌, arith, Bool-cases,
}
use dop_api.Base.Table.{name_of, value_of, names, name_of-value_of}
use dop_api.Platform.Context.{Scope}
use dop_api.Platform.Errors.{
  StatusCode, HttpException, Error, done, raised, refuse, as_grpc_from_http,
}
use dop_api.Coreclient.Client.{Outside}
use dop_api.Usecases.Timestamp.{Timestamp}
use dop_api.Usecases.SecondFactor.Models.{NewFactor, SecondFactorStub}
use dop_api.Usecases.SecondFactor.{kind_to_proto, kind_value, enroll}

-- A kind is sent exactly if it has one of the three names, and it is then the number that reads back
-- as that name.
kind_value_sound :
    (repr : String → String) (kind : String)
    → ((n : ℕ) × (kind_value repr kind ≡ done n) × (name_of kind_to_proto n ≡ kind))
      ⊎ ((is_in kind (names kind_to_proto) ≡ false)
          × (kind_value repr kind ≡ refuse 422 ("unknown second factor kind: " <> repr kind)))
unfolding kind_value
kind_value_sound repr kind = elim (Bool-cases (is_in kind (names kind_to_proto))) [
  | inl known ↦
      inl
        (value_of kind_to_proto kind, ground arith, name_of-value_of kind_to_proto kind refl known)
  | inr unknown ↦ inr (unknown, ground arith)
]

-- An unknown kind never reaches the core, and the refusal quotes it; but a client of the gRPC port
-- sees the refusal of its own request as INTERNAL, since 422 has no status there.
enroll_unknown :
    {W : Type 0} (out : Outside W) (stub : SecondFactorStub W) (isoformat : Timestamp → String)
    (repr : String → String) (body : NewFactor) (s : Scope) (w : W)
    → is_in body.kind (names kind_to_proto) ≡ false
    → let refusal : HttpException = record {
      status_code = 422;
      detail = "unknown second factor kind: " <> repr body.kind;
    } in
      (enroll out stub isoformat repr body s w ≡ (raised (Error.http refusal), w))
      × (as_grpc_from_http refusal
          ≡ (StatusCode.internal, "unknown second factor kind: " <> repr body.kind))
unfolding enroll kind_value as_grpc_from_http
enroll_unknown out stub isoformat repr body s w unknown = (ground arith, refl)
