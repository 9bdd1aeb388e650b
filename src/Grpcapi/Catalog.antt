-- ===== src/Grpcapi/Catalog.antt =====
-- app/grpcapi/catalog.py: the plans and the providers on the gRPC port. The messages Plan and Provider
-- of app/grpcapi/gen/dop/bff/v1/catalog_pb2.pyi have the fields of the use case's models.
use dop_api.Base.{List}
use dop_api.Platform.Edge.{Edge}
use dop_api.Coreclient.Client.{Outside}
use dop_api.Usecases.Catalog.{PlanSummary, ProviderSummary, CatalogStub, plans, providers}

module _ {W : Type 0} (out : Outside W) (stub : CatalogStub W) where
  unfoldable pub list_plans_rpc : Edge W (List PlanSummary)
  list_plans_rpc = plans out stub

  unfoldable pub list_providers_rpc : Edge W (List ProviderSummary)
  list_providers_rpc = providers out stub
