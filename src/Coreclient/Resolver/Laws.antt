-- ===== src/Coreclient/Resolver/Laws.antt =====
-- Nobody gets into an account that the core does not list.
use mathlib.Core.Path.{subst}
use dop_api.Base.{
  ap, ◌++◌, All, ◌==◌, string_eq, eq_iff, Bool-cases, ◌∷◌, String, true, false, List, [], ◌≡◌, ◌⊎◌,
  inl, inr, refl, is_empty, is_in, or_else, arith,
}
use dop_api.Platform.Context.{Scope, Principal}
use dop_api.Platform.Errors.{AioRpcError, Error, done, raised, Result-cases}
use dop_api.Platform.Auth.{Identity}
use dop_api.Coreclient.Client.{Outside, Metadata, Caller, nobody, metadata_for}
use dop_api.Coreclient.Convert.Laws.{role_numbered, role_name-role_numbered}
use dop_api.Coreclient.Identity.{Account, Membership, ResolverStub}
use dop_api.Coreclient.Resolver.{
  is_tolerable, account_ids, role_of, ensure_user, assert_membership, role_in_account, resolve,
}

-- The role that a list of members gives a user: that of the user's first membership, or none.
pub data IsRoleIn (user_id : String) (ms : List Membership) (role : String) : Type 0 where
  first :
      (before after : List Membership) (m : Membership)
      → ms ≡ before ++ m ∷ after
      → All (λ (k : Membership). k.user_id == user_id ≡ false) before
      → m.user_id ≡ user_id
      → role ≡ role_numbered m.role
      → IsRoleIn user_id ms role
  absent :
      All (λ (k : Membership). k.user_id == user_id ≡ false) ms
      → role ≡ ""
      → IsRoleIn user_id ms role

role_of-IsRoleIn :
    (user_id : String) (ms : List Membership) (role : String)
    → role ≡ role_of user_id ms
    → IsRoleIn user_id ms role
unfolding role_of
role_of-IsRoleIn user_id [] role known = absent tt known
role_of-IsRoleIn user_id (m ∷ ms) role known = elim (Bool-cases (m.user_id == user_id)) [
  | inl own ↦
      first [] ms m refl tt ((eq_iff m.user_id user_id).0 own)
        (ground (arith, known, role_name-role_numbered m.role))
  | inr other ↦ elim (role_of-IsRoleIn user_id ms role (ground arith)) [
    | first before after k split others own named ↦
        first (m ∷ before) after k (ap (λ r. m ∷ r) split) (other, others) own named
    | absent others none_named ↦ absent (other, others) none_named
  ]
]

module _ {W : Type 0} (out : Outside W) (stub : ResolverStub W) where
  -- The core has listed the account for the user.
  pub record IsListed (user_id account_id : String) : Type 0 where
    pub md : Metadata
    pub before : W
    pub after : W
    pub accounts : List Account
    pub answer : stub.list_accounts md user_id before ≡ (done accounts, after)
    pub listed : is_in account_id (account_ids accounts) ≡ true

  -- The role is what the core's list of members says of the user, or none: the list may be
  -- refused for a tolerable reason.
  pub record IsReported (user_id account_id role : String) : Type 0 where
    pub md : Metadata
    pub before : W
    pub report :
        ((ms : List Membership) × ((stub.list_memberships md account_id before).0 ≡ done ms)
          × IsRoleIn user_id ms role)
        ⊎ ((exc : AioRpcError) × ((stub.list_memberships md account_id before).0
              ≡ raised (Error.rpc exc))
            × (is_tolerable exc.code ≡ true)
            × (role ≡ ""))

  assert_membership_inv :
      (user_id account_id : String) (md : Metadata) (s : Scope) (w : W)
      → (assert_membership out stub user_id account_id md s w).0 ≡ done tt
      → IsListed user_id account_id
  unfolding assert_membership
  assert_membership_inv user_id account_id md s w e =
      elim (Result-cases (stub.list_accounts md user_id w).0) [
        | inr (exc, failed) ↦ absurd (ground arith)
        | inl (accounts, came) ↦ record {
          md = md;
          before = w;
          after = (stub.list_accounts md user_id w).1;
          accounts = accounts;
          answer = ground arith;
          listed = ground arith;
        }
      ]

  role_in_account_inv :
      (user_id account_id role : String) (md : Metadata) (s : Scope) (w : W)
      → (role_in_account out stub user_id account_id md s w).0 ≡ done role
      → IsReported user_id account_id role
  unfolding role_in_account
  role_in_account_inv user_id account_id role md s w e =
      elim (Result-cases (stub.list_memberships md account_id w).0) [
        | inl (ms, came) ↦ record {
          md = md;
          before = w;
          report = inl (ms, came, role_of-IsRoleIn user_id ms role (ground arith));
        }
        | inr (Error.rpc exc, failed) ↦ record {
          md = md;
          before = w;
          report = inr (exc, failed, ground arith, ground arith);
        }
        | inr (exc, failed) ↦ absurd (ground arith)
      ]

  abbrev inside : Principal → String → String → Caller
  inside principal account_id user_id = record nobody {
    user_id = user_id;
    account_id = account_id;
    actor_name = or_else principal.name principal.email;
  }

  -- The identity that the resolver returns for an account: the core has listed the account for
  -- that user, the role is that of the user's first membership among the account's members, by the core's
  -- number, or none where the list has no such member or is refused for a tolerable reason; and no
  -- grants are made up.
  pub resolve-IsListed :
      (principal : Principal) (account_id raw_token : String) (s : Scope) (w w' : W) (i : Identity)
      → is_empty account_id ≡ false
      → resolve out stub principal account_id raw_token s w ≡ (done i, w')
      → IsListed i.user_id account_id × IsReported i.user_id account_id i.role × (i.grants ≡ [])
  unfolding resolve
  resolve-IsListed principal account_id raw_token s w w' i chosen e =
      let first = ensure_user out stub principal raw_token s w in
      elim (Result-cases first.0) [
        | inr (exc, failed) ↦ absurd (ground arith)
        | inl (user_id, known) ↦
            let second = metadata_for out (inside principal account_id user_id) s first.1 in
            elim (Result-cases second.0) [
              | inr (exc, failed) ↦ absurd (ground arith)
              | inl (md, made) ↦
                  let third = assert_membership out stub user_id account_id md s second.1 in
                  elim (Result-cases third.0) [
                    | inr (exc, failed) ↦ absurd (ground arith)
                    | inl (_, member) ↦
                        let fourth = role_in_account out stub user_id account_id md s third.1 in
                        elim (Result-cases fourth.0) [
                          | inr (exc, failed) ↦ absurd (ground arith)
                          | inl (role, found) ↦
                              let j : Identity = record {
                                user_id = user_id;
                                role = role;
                                grants = [];
                              } in
                              let same : j ≡ i = ground arith in
                              subst
                                (λ k.
                                  IsListed k.user_id account_id
                                  × IsReported k.user_id account_id k.role
                                  × (k.grants ≡ []))
                                same
                                (
                                  assert_membership_inv user_id account_id md s second.1 member,
                                  role_in_account_inv user_id account_id role md s third.1 found,
                                  refl,
                                )
                        ]
                  ]
            ]
      ]
