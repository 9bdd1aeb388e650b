-- ===== src/Grpcapi/Identity/Laws.antt =====
-- A role on its way over the gRPC port, to the core and back, and the expiry of an invite.
use dop_api.Base.{
  ◌∙◌, if◌then◌else◌, nat_eq, is_empty, ◌==◌, Bool-cases, inl, inr, arith, ap, refl, ◌≡◌, ℕ, String,
  string_eq,
}
use dop_api.Base.Table.{name_of, value_of, knows, value_of-back}
use dop_api.Coreclient.Convert.{role_value}
use dop_api.Coreclient.Identity.{Membership}
use dop_api.Usecases.Identity.{member_of}
use dop_api.Grpcapi.Convert.{role_to_name}
use dop_api.Grpcapi.Identity.Messages.{BffCreateInvite}
use dop_api.Grpcapi.Identity.{member_message, new_invite}

-- The name of a role that is asked for, the default included.
abbrev asked_name : ℕ → String
asked_name n = let name = name_of role_to_name n in if is_empty name then "developer" else name

asked_value :
    (lower : String → String) (n : ℕ) (name : String)
    → asked_name n ≡ name
    → lower name ≡ name
    → value_of role_to_name (lower (asked_name n)) ≡ value_of role_to_name name
asked_value lower n name named kept =
    ap (λ t. value_of role_to_name (lower t)) named ∙ ap (value_of role_to_name) kept

invited_role :
    (lower : String → String) (n : ℕ)
    → ((lower "owner" ≡ "owner") × (lower "admin" ≡ "admin"))
    → ((lower "developer" ≡ "developer") × (lower "viewer" ≡ "viewer"))
    → value_of role_to_name (lower (asked_name n)) ≡ (if knows role_to_name n then n else 3)
invited_role lower n managers others = elim (Bool-cases (1 == n)) [
  | inl owner ↦
      let same : n ≡ 1 = ground arith in
      asked_value lower n "owner" (ap asked_name same) managers.0 ∙ ground arith
  | inr not_owner ↦ elim (Bool-cases (2 == n)) [
    | inl admin ↦
        let same : n ≡ 2 = ground arith in
        asked_value lower n "admin" (ap asked_name same) managers.1 ∙ ground arith
    | inr not_admin ↦ elim (Bool-cases (4 == n)) [
      | inl viewer ↦
          let same : n ≡ 4 = ground arith in
          asked_value lower n "viewer" (ap asked_name same) others.1 ∙ ground arith
      | inr not_viewer ↦ elim (Bool-cases (3 == n)) [
        | inl developer ↦
            let same : n ≡ 3 = ground arith in
            asked_value lower n "developer" (ap asked_name same) others.0 ∙ ground arith
        | inr not_developer ↦
            let named : asked_name n ≡ "developer" =
              rw (not_owner, not_admin, not_developer, not_viewer) refl in
            asked_value lower n "developer" named others.0 ∙ ground arith
      ]
    ]
  ]
]

-- A role that the client of the gRPC port asks for in an invite reaches the core as the same number,
-- and a role that is not given, or is none, as a developer's; a role that the core reports of a member
-- reaches the client as the same number, and one that the edge does not know as none. Lower case
-- leaves the four names as they are.
roles_kept :
    (lower : String → String) (request : BffCreateInvite) (m : Membership)
    → ((lower "owner" ≡ "owner") × (lower "admin" ≡ "admin"))
    → ((lower "developer" ≡ "developer") × (lower "viewer" ≡ "viewer"))
    → (role_value lower (new_invite request).role
        ≡ (if knows role_to_name request.role then request.role else 3))
      × ((member_message (member_of m)).role ≡ (if knows role_to_name m.role then m.role else 0))
unfolding new_invite member_message
roles_kept lower request m managers others =
    (invited_role lower request.role managers others, value_of-back role_to_name m.role refl refl)
