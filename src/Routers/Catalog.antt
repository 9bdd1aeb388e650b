-- ===== src/Routers/Catalog.antt =====
-- app/routers/catalog.py: each route is its use case.
use dop_api.Base.{List, nat_eq, string_eq}
use dop_api.Platform.Edge.{Edge}
use dop_api.Coreclient.Client.{Outside}
use dop_api.Usecases.Catalog.{PlanSummary, ProviderSummary, CatalogStub}
use dop_api.Usecases.Catalog

module _ {W : Type 0} (out : Outside W) (stub : CatalogStub W) where
  unfoldable pub list_plans : Edge W (List PlanSummary)
  list_plans = Catalog.plans out stub

  unfoldable pub list_providers : Edge W (List ProviderSummary)
  list_providers = Catalog.providers out stub
