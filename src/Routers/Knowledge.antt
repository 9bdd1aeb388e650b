-- ===== src/Routers/Knowledge.antt =====
-- app/routers/knowledge.py: each route is its use case, after the constraints on its query.
use dop_api.Base.{ℕ, String, Option, List, nat_eq, string_eq}
use dop_api.Base.Int.{ℤ}
use dop_api.Platform.Json.{Json}
use dop_api.Platform.Edge.{Edge, ◌>>=◌, refusing}
use dop_api.Coreclient.Client.{Outside}
use dop_api.Usecases.Knowledge.Models.{
  ArtifactSummary, ContextPackageSummary, MemoryHit, NewArtifact, KnowledgeStub,
}
use dop_api.Usecases.Forms.{given}
use dop_api.Usecases.Knowledge

module _ {W : Type 0} (out : Outside W) (stub : KnowledgeStub W)
    (b64decode : String → Option (List ℕ)) (str : Json → String) where
  unfoldable pub get_context_package : String → Edge W ContextPackageSummary
  get_context_package demand_id = Knowledge.get_context_package out stub b64decode str demand_id

  unfoldable pub list_rules : String → Edge W (List String)
  list_rules project_id = do
    _ ← refusing (given "project_id" project_id)
    Knowledge.list_rules out stub b64decode str project_id

  unfoldable pub search_memory : String → String → ℤ → Edge W (List MemoryHit)
  search_memory q project_id limit = do
    _ ← refusing (given "q" q)
    Knowledge.search_memory out stub b64decode str project_id q limit

  unfoldable pub read_index : String → String → Edge W ArtifactSummary
  read_index project_id repo = do
    _ ← refusing (given "project_id" project_id)
    _ ← refusing (given "repo" repo)
    Knowledge.read_index out stub b64decode str project_id repo

  unfoldable pub put_artifact : NewArtifact → String → Edge W ArtifactSummary
  put_artifact body idempotency_key =
      Knowledge.put_artifact out stub b64decode str body idempotency_key
