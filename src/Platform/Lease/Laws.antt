-- ===== src/Platform/Lease/Laws.antt =====
-- Both caches are leases of an access token.
use dop_api.Base.{
  ◌*◌, ◌≡◌, inl, inr, ℕ, ◌+◌, String, true, Option, none, some, nat_eq, string_eq, is_empty, strip,
  arith, Option-cases,
}
use dop_api.Platform.Lease.{Lease, lease_of, renew}
use dop_api.Platform.Admin.{FirebaseAdmin, AdminWorld, expiry_seconds, access_token}
use dop_api.Platform.Firebase.{second}
use dop_api.Coreclient.Service.{ServiceIdentity, MetadataServer, fresh_token}

-- The lease that the cache of the service's own token stands for.
abbrev pub service_lease : ServiceIdentity → Option Lease
service_lease v = lease_of v.token v.expires_at

-- The metadata server as a grant: a token for an hour.
abbrev pub service_grant : {V : Type 0} → MetadataServer V → String → V → Option (String × ℕ) × V
service_grant p audience w =
    let (answer, w') = p.request_token audience w in
    (elim answer [ none ↦ none | some body ↦ some (strip body, 3600 * second) ], w')

-- The cache of the service's own token is a lease with a margin of five minutes: it gives the same
-- answers, asks the metadata server at the same times, and is left standing for the same lease.
pub fresh_token-renew :
    {V : Type 0} (p : MetadataServer V) (v : ServiceIdentity) (w : V)
    → let (answer, v', w') = fresh_token p (v, w) in
      (answer, service_lease v', w')
      ≡ renew (300 * second) (service_grant p v.audience) (service_lease v) (p.clock w) w
unfolding fresh_token renew
fresh_token-renew p v w = ground arith

abbrev pub admin_lease : FirebaseAdmin → Option Lease
admin_lease a = lease_of a.token a.expires_at

-- The request for an access token as a grant, for as long as the answer says, or an hour.
abbrev pub admin_grant : {W : Type 0} → AdminWorld W → W → Option (String × ℕ) × W
admin_grant p w =
    let (answer, w') = p.request_token w in
    (
      elim answer [
        | none ↦ none
        | some body ↦ some (body.access_token, expiry_seconds body.expires_in * second)
      ],
      w',
    )

-- What the one instance is kept in: a cell of the world, which a request for a token leaves as it is.
pub record IsCell {W : Type 0} (p : AdminWorld W) : Type 0 where
  pub stored : (a : FirebaseAdmin) (w : W) → p.instance_of (p.store a w) ≡ a
  pub kept : (w : W) → p.instance_of (p.request_token w).1 ≡ p.instance_of w

-- Away from the emulator, the cache of the identity provider's access token is a lease with a margin
-- of five minutes too: it gives the same answers and is left standing for the same lease. Its one
-- instance is a cell that requests leave alone.
pub access_token-renew :
    {W : Type 0} (p : AdminWorld W) (w : W)
    → IsCell p
    → is_empty (p.instance_of w).emulator ≡ true
    → let (answer, w') = access_token p w in
      let (wanted, held, _) =
        renew (300 * second) (admin_grant p) (admin_lease (p.instance_of w)) (p.clock w) w in
      (answer ≡ wanted) × (admin_lease (p.instance_of w') ≡ held)
unfolding access_token renew
access_token-renew p w cell live =
    let a = p.instance_of w in
    elim (Option-cases (p.request_token w).0) [
      | inl failed ↦ ground (arith, cell.kept w)
      | inr (body, came) ↦
          let next : FirebaseAdmin = record a {
            token = body.access_token;
            expires_at = p.clock w + expiry_seconds body.expires_in * second;
          } in
          ground (arith, cell.stored next (p.request_token w).1)
    ]
