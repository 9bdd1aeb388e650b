-- ===== src/Routers/Health.antt =====
-- app/routers/health.py: the route that tells a load balancer that the process answers.
use dop_api.Platform.Json.{Json, Fields}
use dop_api.Platform.Edge.{Edge, pure}

unfoldable pub healthz : {W : Type 0} → Edge W Fields
healthz = pure (Fields.field "status" (Json.text "ok") Fields.end)
