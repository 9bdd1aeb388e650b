-- ===== src/Tests/Lease.antt =====
-- The theorems about leases of a token at concrete caches.
use dop_api.Base.{suc, ◌*◌, refl, ◌≡◌, ℕ, none, some, nat_eq, string_eq}
use dop_api.Platform.Lease.{renew}
use dop_api.Platform.Lease.Laws.{
  service_lease, service_grant, fresh_token-renew, admin_lease, admin_grant, IsCell,
  access_token-renew,
}
use dop_api.Platform.Firebase.{second}
use dop_api.Platform.Admin.{AdminWorld, FirebaseAdmin, access_token}
use dop_api.Coreclient.Service.{ServiceIdentity, MetadataServer, fresh_token}

abbrev server : MetadataServer ℕ
server = record { clock = λ n. n; request_token = λ audience n. (some " token ", suc n) }

abbrev identity : ServiceIdentity
identity = record { audience = "https://core"; token = ""; expires_at = 0 }

fresh_token-renew_example :
    (
      (fresh_token server (identity, 7)).0,
      service_lease (fresh_token server (identity, 7)).1,
      (fresh_token server (identity, 7)).2,
    )
    ≡ renew (300 * second) (service_grant server "https://core") (service_lease identity) 7 7
fresh_token-renew_example = fresh_token-renew server identity 7

abbrev empty_cache : FirebaseAdmin
empty_cache = record { project = "dop"; emulator = ""; token = ""; expires_at = 0 }

-- A world that is the one instance and a counter of requests.
abbrev provider : AdminWorld (FirebaseAdmin × ℕ)
provider = record {
  instance_of = λ w. w.0;
  store = λ a w. (a, w.1);
  clock = λ w. 1000;
  request_token = λ w. (some (record { access_token = "tok"; expires_in = none }), (w.0, suc w.1));
  post_link = λ q w. (none, w);
  decimal = λ n. "";
  urlsplit = λ u. record {
    scheme = "";
    netloc = "";
    hostname = none;
    path = "";
    query = "";
    fragment = "";
  };
  urlunsplit = λ u. "";
}

provider-IsCell : IsCell provider
provider-IsCell = record { stored = λ a w. refl; kept = λ w. refl }

access_token-renew_example :
    ((access_token provider (empty_cache, 0)).0
      ≡ (renew
          (300 * second)
          (admin_grant provider)
          (admin_lease empty_cache)
          1000
          (empty_cache, 0)).0)
    × (admin_lease (access_token provider (empty_cache, 0)).1.0
        ≡ (renew
            (300 * second)
            (admin_grant provider)
            (admin_lease empty_cache)
            1000
            (empty_cache, 0)).1)
access_token-renew_example = access_token-renew provider (empty_cache, 0) provider-IsCell refl
