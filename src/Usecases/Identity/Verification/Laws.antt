-- ===== src/Usecases/Identity/Verification/Laws.antt =====
-- To whom the message that proves an address goes.
use dop_api.Platform.Errors.{Result-cases}
use dop_api.Base.{
  refl, ◌≡◌, ◌⊎◌, inl, inr, String, true, some, nat_eq, string_eq, is_empty, strip, arith,
}
use dop_api.Platform.Context.{Scope, AuthContext}
use dop_api.Platform.Admin.{AdminWorld, not_generated, verification_link}
use dop_api.Coreclient.Client.{Outside, Metadata, call, metadata}
use dop_api.Usecases.Identity.Messages.{IdentityStub, SendEmailVerificationRequest}
use dop_api.Usecases.Identity.Verification.{link_for, send_link, send_email_verification}

-- The two stubs answer alike to a message for this person.
abbrev pub SendAlike : {W : Type 0} → AuthContext → IdentityStub W → IdentityStub W → Type 0
SendAlike {W} ctx stub other =
    (md : Metadata) (q : SendEmailVerificationRequest) (w : W)
    → q.email ≡ strip ctx.principal.email
    → q.subject ≡ ctx.principal.subject
    → stub.send_email_verification md q w ≡ other.send_email_verification md q w

module _ {W : Type 0} (out : Outside W) (stub : IdentityStub W) (admin : AdminWorld W)
    (auth_domain : String) (s : Scope) (w : W) (ctx : AuthContext)
    (here : s.auth_ctx ≡ some ctx) where
  sent_alike :
      (other : IdentityStub W)
      → SendAlike ctx stub other
      → send_link out stub admin auth_domain ctx (strip ctx.principal.email) s w
        ≡ send_link out other admin auth_domain ctx (strip ctx.principal.email) s w
  unfolding send_link call
  sent_alike other alike =
      let address = strip ctx.principal.email in
      let minting = link_for out stub admin auth_domain address s w in
      elim (Result-cases minting.0) [
        | inr (e, failed) ↦ ground arith
        | inl (link, made) ↦
            let carrying = metadata out s minting.1 in
            elim (Result-cases carrying.0) [
              | inr (e, failed) ↦ ground arith
              | inl (md, carried) ↦
                  let request : SendEmailVerificationRequest = record {
                    email = address;
                    subject = ctx.principal.subject;
                    link = link;
                    display_name = ctx.principal.name;
                  } in
                  ground (arith, alike md request carrying.1 refl refl)
            ]
      ]

  -- The core is asked for no other message than one to the caller's own address, about the caller's
  -- own subject: a core that answers otherwise to any other request makes no difference.
  pub send_email_verification_own :
      (other : IdentityStub W)
      → SendAlike ctx stub other
      → send_email_verification out stub admin auth_domain s w
        ≡ send_email_verification out other admin auth_domain s w
  unfolding send_email_verification
  send_email_verification_own other alike = ground (arith, sent_alike other alike)

  -- No message is sent for a credential without an address, nor for one that is verified already, nor
  -- where the provider gives no link: whatever the core would have answered makes no difference.
  send_email_verification_silent :
      (other : IdentityStub W) (text : String)
      → (is_empty (strip ctx.principal.email) ≡ true)
        ⊎ ((ctx.principal.email_verified ≡ true)
            ⊎ ((verification_link admin (strip ctx.principal.email) "" w).0 ≡ not_generated text))
      → send_email_verification out stub admin auth_domain s w
        ≡ send_email_verification out other admin auth_domain s w
  unfolding send_email_verification send_link link_for
  send_email_verification_silent other text reason = ground arith
