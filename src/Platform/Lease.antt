-- ===== src/Platform/Lease.antt =====
-- What a cached access token is meant to be, whoever keeps it: a lease that is renewed when less than
-- the margin is left of it. Both caches of the edge, app/coreclient/client.py's `_ServiceIdentity` and
-- app/platform/security/firebase_admin.py, are meant to be this.
pub mod Laws
use dop_api.Base.{
  ℕ, ◌+◌, String, Bool, false, Option, none, some, nat_eq, string_eq, is_empty, ltb, if◌then◌else◌,
}

pub record Lease : Type 0 where
  pub token : String
  pub until : ℕ

-- A blank token is no lease.
abbrev pub lease_of : String → ℕ → Option Lease
lease_of token until =
    if is_empty token then none else some (record { token = token; until = until })

-- The lease still holds for the margin.
abbrev pub holds : ℕ → Option Lease → ℕ → Bool
holds margin none now = false
holds margin (some l) now = ltb (now + margin) l.until

-- A token, if one can be had: the held one, or else that of a new grant, a token with its lifetime.
pub renew :
    {V : Type 0}
    → ℕ
    → (V → Option (String × ℕ) × V)
    → Option Lease
    → ℕ
    → V
    → Option String × Option Lease × V
renew margin grant none now w =
    let (answer, w') = grant w in
    elim answer [
      | none ↦ (none, none, w')
      | some (token, lifetime) ↦ (some token, lease_of token (now + lifetime), w')
    ]
renew margin grant (some l) now w =
    let (answer, w') = grant w in
    if holds margin (some l) now then (some l.token, some l, w) else elim answer [
      | none ↦ (none, some l, w')
      | some (token, lifetime) ↦ (some token, lease_of token (now + lifetime), w')
    ]
