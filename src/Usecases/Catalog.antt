-- ===== src/Usecases/Catalog.antt =====
-- app/usecases/catalog.py: the plans and the providers. The messages Plan and Provider of
-- app/coreclient/gen/dop/v1/catalog_pb2.pyi have one field more, their place in a sorting.
use dop_api.Base.{ℕ, String, Bool, List, map, nat_eq, string_eq}
use dop_api.Platform.Edge.{Edge, ◌>>=◌, pure}
use dop_api.Coreclient.Client.{Rpc, Outside, call}

pub record PlanSummary : Type 0 where
  pub key : String
  pub name : String
  pub tagline : String
  pub features : List String

pub record ProviderSummary : Type 0 where
  pub key : String
  pub category : String
  pub name : String
  pub credential_kind : String
  pub permissions : List String
  pub needs_base_url : Bool
  pub operated : Bool
  pub docs_url : String
  pub brand_color : String

pub record Plan : Type 0 where
  pub key : String
  pub name : String
  pub tagline : String
  pub features : List String
  pub sort : ℕ

pub record Provider : Type 0 where
  pub key : String
  pub category : String
  pub name : String
  pub credential_kind : String
  pub permissions : List String
  pub needs_base_url : Bool
  pub operated : Bool
  pub docs_url : String
  pub brand_color : String
  pub sort : ℕ

pub record CatalogStub (W : Type 0) : Type 0 where
  pub list_plans : Rpc W Unit (List Plan)
  pub list_providers : Rpc W Unit (List Provider)

abbrev pub plan_of : Plan → PlanSummary
plan_of p = record { key = p.key; name = p.name; tagline = p.tagline; features = p.features }

abbrev pub provider_of : Provider → ProviderSummary
provider_of p = record {
  key = p.key;
  category = p.category;
  name = p.name;
  credential_kind = p.credential_kind;
  permissions = p.permissions;
  needs_base_url = p.needs_base_url;
  operated = p.operated;
  docs_url = p.docs_url;
  brand_color = p.brand_color;
}

module _ {W : Type 0} (out : Outside W) (stub : CatalogStub W) where
  unfoldable pub plans : Edge W (List PlanSummary)
  plans = do ps ← call out stub.list_plans tt; pure (map plan_of ps)

  unfoldable pub providers : Edge W (List ProviderSummary)
  providers = do ps ← call out stub.list_providers tt; pure (map provider_of ps)
