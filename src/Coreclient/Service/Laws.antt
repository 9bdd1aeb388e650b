-- ===== src/Coreclient/Service/Laws.antt =====
-- When the service's own token is asked for again.
use dop_api.Base.{
  Bool-cases, ltb, ◌⊎◌, inl, inr, refl, sym, ◌*◌, ◌<◌, ◌≡◌, ℕ, ◌+◌, ◌≤◌, String, false, some, [],
  ◌∷◌, nat_eq, string_eq, is_empty, strip, ◌<>◌, arith,
}
use mathlib.Core.Path.{subst}
use dop_api.Platform.Firebase.{second}
use dop_api.Coreclient.Service.{ServiceIdentity, MetadataServer, is_fresh, fresh_token, attach}

-- The cache after an answer that came at a time.
abbrev renewed : ServiceIdentity → String → ℕ → ServiceIdentity
renewed v body now = record v { token = strip body; expires_at = now + 3600 * second }

module _ {V : Type 0} (p : MetadataServer V) where
  fetched :
      (v : ServiceIdentity) (w : V) (body : String)
      → is_fresh v (p.clock w) ≡ false
      → (p.request_token v.audience w).0 ≡ some body
      → fresh_token p (v, w)
        ≡ (some (strip body), renewed v body (p.clock w), (p.request_token v.audience w).1)
  unfolding fresh_token
  fetched v w body stale came = ground arith

  cached :
      (v : ServiceIdentity) (t : ℕ) (u : V)
      → is_empty v.token ≡ false
      → v.expires_at ≡ t + 3600 * second
      → p.clock u < t + 3300 * second
      → attach p (v, u) ≡ (some (("x-serverless-authorization", "Bearer " <> v.token) ∷ []), v, u)
  unfolding attach fresh_token
  cached v t u full until soon = ground arith

  expired :
      (v : ServiceIdentity) (t : ℕ) (u : V)
      → v.expires_at ≡ t + 3600 * second
      → is_empty v.token ≡ false
      → t + 3300 * second ≤ p.clock u
      → (attach p (v, u)).2 ≡ (p.request_token v.audience u).1
  unfolding attach fresh_token
  expired v t u until full late = ground arith

  -- A token that was fetched goes out on every call of the next 55 minutes, and the metadata server
  -- is not asked for it again; from then on, five minutes before the hour of the token is over,
  -- each call asks for a new one. The answer that came was not blank.
  attach-cached :
      (v : ServiceIdentity) (w u : V) (body : String)
      → is_fresh v (p.clock w) ≡ false
      → (p.request_token v.audience w).0 ≡ some body
      → is_empty (strip body) ≡ false
      → let v' = (attach p (v, w)).1 in
        ((p.clock u < p.clock w + 3300 * second)
          × (attach p (v', u)
              ≡ (some (("x-serverless-authorization", "Bearer " <> strip body) ∷ []), v', u)))
        ⊎ ((p.clock w + 3300 * second ≤ p.clock u)
            × ((attach p (v', u)).2 ≡ (p.request_token v.audience u).1))
  unfolding attach
  attach-cached v w u body stale came full =
      let next = renewed v body (p.clock w) in
      let same : (attach p (v, w)).1 ≡ next = ground (arith, fetched v w body stale came) in
      subst
        (λ k.
          ((p.clock u < p.clock w + 3300 * second)
            × (attach p (k, u)
                ≡ (some (("x-serverless-authorization", "Bearer " <> strip body) ∷ []), k, u)))
          ⊎ ((p.clock w + 3300 * second ≤ p.clock u)
              × ((attach p (k, u)).2 ≡ (p.request_token v.audience u).1)))
        (sym same)
        (elim (Bool-cases (ltb (p.clock u) (p.clock w + 3300 * second))) [
          | inl early ↦
              let soon : p.clock u < p.clock w + 3300 * second = ground arith in
              inl (soon, cached next (p.clock w) u full refl soon)
          | inr not_early ↦
              let late : p.clock w + 3300 * second ≤ p.clock u = ground arith in
              inr (late, expired next (p.clock w) u refl full late)
        ])
