-- ===== src/Tests/World.antt =====
-- A small world: a counter of the calls that were made, with one admin in one account.
use dop_api.Base.{suc, ℕ, String, true, none, some, [], ◌∷◌, nat_eq, string_eq}
use dop_api.Platform.Context.{Principal, AuthContext, Scope}
use dop_api.Platform.Errors.{Error, done, raised}
use dop_api.Coreclient.Client.{Outside, Rpc}
use dop_api.Tests.Encoding.{encode}

abbrev pub outside : Outside ℕ
outside = record {
  uuid_hex = λ n. ("key", suc n);
  clock = λ n. n;
  hmac_sha256 = λ key s. "mac";
  base64url = encode;
  call_auth_key = "";
}

abbrev pub ana : Principal
ana = record {
  subject = "sub";
  email = "ana@dop.dev";
  email_verified = true;
  name = "Ana";
  avatar_url = "";
  providers = [];
  session_id = "s1";
}

abbrev pub context_of : String → AuthContext
context_of role = record {
  principal = ana;
  raw_token = "tok";
  user_id = "u1";
  account_id = "acc";
  role = role;
  grants = [];
}

abbrev pub scope_of : String → Scope
scope_of role = record {
  request_ctx = ("request_id", "r1") ∷ [];
  auth_ctx = some (context_of role);
}

abbrev pub nowhere : Scope
nowhere = record { request_ctx = []; auth_ctx = none }

-- A method that is not called.
abbrev pub unused : {Q A : Type 0} → Rpc ℕ Q A
unused md request n = (raised (Error.failure "unused"), n)

-- A method that gives an answer and counts the call.
abbrev pub answering : {Q A : Type 0} → A → Rpc ℕ Q A
answering a md request n = (done a, suc n)

-- A log that nobody reads.
abbrev pub unread : Error → ℕ → ℕ
unread e n = n
