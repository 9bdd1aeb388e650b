-- ===== src/Routers/Hierarchy.antt =====
-- app/routers/hierarchy.py: each route is its use case.
use dop_api.Base.{String, List, nat_eq, string_eq}
use dop_api.Platform.Edge.{Edge}
use dop_api.Coreclient.Client.{Outside}
use dop_api.Usecases.Hierarchy.Models.{
  WorkspaceSummary, NewWorkspace, TaskManagerBinding, ProjectSummary, NewProject, TreeNode,
  HierarchyStub,
}
use dop_api.Usecases.Hierarchy

module _ {W : Type 0} (out : Outside W) (stub : HierarchyStub W) where
  unfoldable pub get_tree : Edge W (List TreeNode)
  get_tree = Hierarchy.get_tree out stub

  unfoldable pub list_workspaces : Edge W (List WorkspaceSummary)
  list_workspaces = Hierarchy.list_workspaces out stub

  unfoldable pub create_workspace : NewWorkspace → String → Edge W WorkspaceSummary
  create_workspace body idempotency_key = Hierarchy.create_workspace out stub body idempotency_key

  unfoldable pub list_projects : String → Edge W (List ProjectSummary)
  list_projects workspace_id = Hierarchy.list_projects out stub workspace_id

  unfoldable pub create_project : NewProject → String → Edge W ProjectSummary
  create_project body idempotency_key = Hierarchy.create_project out stub body idempotency_key

  unfoldable pub get_project : String → Edge W ProjectSummary
  get_project project_id = Hierarchy.get_project out stub project_id

  unfoldable pub bind_task_manager : String → TaskManagerBinding → Edge W ProjectSummary
  bind_task_manager project_id body = Hierarchy.bind_task_manager out stub project_id body
