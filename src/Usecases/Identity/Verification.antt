-- ===== src/Usecases/Identity/Verification.antt =====
-- app/usecases/identity.py: the message that proves the address of a credential.
pub mod Laws
use dop_api.Base.{String, nat_eq, string_eq, is_empty, strip, if◌then◌else◌}
use dop_api.Platform.Context.{AuthContext}
use dop_api.Platform.Errors.{Error, Result, done, raised, refuse}
use dop_api.Platform.Edge.{Edge, ◌>>=◌, pure, caller, refusing}
use dop_api.Platform.Admin.{
  AdminWorld, Outcome, minted, not_generated, crashed, verification_link, on_our_domain,
}
use dop_api.Coreclient.Client.{Outside, call}
use dop_api.Usecases.Identity.Models.{VerificationRequested}
use dop_api.Usecases.Identity.Messages.{IdentityStub}

-- The `try` around the link; its domain is `settings.firebase_auth_domain`.
abbrev pub link_result : (String → String) → Outcome → Result String
link_result domain (minted link) = done (domain link)
link_result domain (not_generated text) = refuse 503 "could not generate the verification link"
link_result domain (crashed text) = raised (Error.failure text)

module _ {W : Type 0} (out : Outside W) (stub : IdentityStub W) (admin : AdminWorld W)
    (auth_domain : String) where
  pub link_for : String → Edge W String
  link_for email s w =
      let (answer, w') = verification_link admin email "" w in
      (link_result (λ link. on_our_domain admin link auth_domain) answer, w')

  -- Behind the two early returns.
  pub send_link : AuthContext → String → Edge W VerificationRequested
  unfolding link_for
  send_link ctx email = do
    link ← link_for email
    _ ← call out stub.send_email_verification (record {
      email = email;
      subject = ctx.principal.subject;
      link = link;
      display_name = ctx.principal.name;
    })
    pure (record { email = email })

  abbrev pub verify_address : AuthContext → String → Edge W VerificationRequested
  verify_address ctx email =
      let sent = send_link ctx email in
      if is_empty email
      then refusing (refuse 400 "this credential carries no e-mail")
      else if ctx.principal.email_verified
      then pure (record { email = email })
      else sent

  pub send_email_verification : Edge W VerificationRequested
  send_email_verification = do ctx ← caller; verify_address ctx (strip ctx.principal.email)
