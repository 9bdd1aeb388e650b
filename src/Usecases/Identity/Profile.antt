-- ===== src/Usecases/Identity/Profile.antt =====
-- app/usecases/identity.py: who I am, my profile and my journey through onboarding.
use dop_api.Base.{String, nat_eq, string_eq, or_else}
use dop_api.Platform.Context.{AuthContext}
use dop_api.Platform.Edge.{Edge, ◌>>=◌, pure, caller}
use dop_api.Coreclient.Client.{Outside, call}
use dop_api.Coreclient.Identity.{User}
use dop_api.Usecases.Identity.Models.{MeResponse, ProfilePatch, OnboardingState, StepUpdate}
use dop_api.Usecases.Identity.Messages.{PbOnboardingState, UpdateProfileRequest, IdentityStub}

-- `_user_summary`, with a context.
abbrev pub user_summary : User → AuthContext → MeResponse
user_summary u ctx = record {
  subject = ctx.principal.subject;
  user_id = ctx.user_id;
  email = ctx.principal.email;
  name = or_else u.name ctx.principal.name;
  providers = ctx.principal.providers;
  account_id = ctx.account_id;
  role = ctx.role;
  avatar_url = u.avatar_url;
  locale = u.locale;
  timezone = u.timezone;
  phone = u.phone;
  phone_verified = u.phone_verified;
  email_verified = u.email_verified;
  birth_date = u.birth_date;
  onboarded = u.onboarded;
  phone_whatsapp = u.phone_whatsapp;
}

-- `_onboarding`.
abbrev pub onboarding_of : PbOnboardingState → OnboardingState
onboarding_of st = record {
  steps = st.steps;
  current = st.current;
  complete = st.complete;
  email_verified = st.email_verified;
  phone = st.phone;
  phone_verified = st.phone_verified;
  code_connections = st.code_connections;
  task_connections = st.task_connections;
  plan_key = st.plan_key;
  personal_account_id = st.personal_account_id;
}

-- The request of a patch: what is absent is not set.
abbrev pub patch_request : ProfilePatch → UpdateProfileRequest
patch_request body = record {
  name = body.name;
  birth_date = body.birth_date;
  locale = body.locale;
  timezone = body.timezone;
  phone = body.phone;
  phone_whatsapp = body.phone_whatsapp;
}

module _ {W : Type 0} (out : Outside W) (stub : IdentityStub W) where
  unfoldable pub me : Edge W MeResponse
  me = do ctx ← caller; u ← call out stub.get_user ctx.user_id; pure (user_summary u ctx)

  -- The context is looked into only behind the call.
  unfoldable pub update_profile : ProfilePatch → Edge W MeResponse
  update_profile body = do
    u ← call out stub.update_profile (patch_request body)
    ctx ← caller
    pure (user_summary u ctx)

  unfoldable pub onboarding : Edge W OnboardingState
  onboarding = do st ← call out stub.get_onboarding tt; pure (onboarding_of st)

  unfoldable pub record_step : String → StepUpdate → Edge W OnboardingState
  record_step step body = do
    st ← call out stub.record_onboarding_step (record { step = step; status = body.status })
    pure (onboarding_of st)

  unfoldable pub complete_onboarding : Edge W OnboardingState
  complete_onboarding = do st ← call out stub.complete_onboarding tt; pure (onboarding_of st)
