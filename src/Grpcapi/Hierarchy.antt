-- ===== src/Grpcapi/Hierarchy.antt =====
-- app/grpcapi/hierarchy.py: workspaces and projects on the gRPC port. The messages of
-- app/grpcapi/gen/dop/bff/v1/hierarchy_pb2.pyi have the fields of the use case's models, so the copies
-- of `_workspace` and `_project` stand as the models themselves.
use dop_api.Base.{String, List, nat_eq, string_eq}
use dop_api.Platform.Edge.{◌>>=◌, refusing, Edge}
use dop_api.Coreclient.Client.{Outside}
use dop_api.Usecases.Forms.{new_workspace, new_project}
use dop_api.Usecases.Hierarchy.Models.{
  WorkspaceSummary, NewWorkspace, TaskManagerBinding, ProjectSummary, NewProject, TreeNode,
  HierarchyStub,
}
use dop_api.Usecases.Hierarchy.{
  get_tree, list_workspaces, create_workspace, list_projects, get_project, create_project,
  bind_task_manager,
}

module _ {W : Type 0} (out : Outside W) (stub : HierarchyStub W) where
  unfoldable pub get_tree_rpc : Edge W (List TreeNode)
  get_tree_rpc = get_tree out stub

  unfoldable pub list_workspaces_rpc : Edge W (List WorkspaceSummary)
  list_workspaces_rpc = list_workspaces out stub

  unfoldable pub create_workspace_rpc : NewWorkspace → String → Edge W WorkspaceSummary
  create_workspace_rpc request key = do
    body ← refusing (new_workspace request)
    create_workspace out stub body key

  unfoldable pub list_projects_rpc : String → Edge W (List ProjectSummary)
  list_projects_rpc workspace_id = list_projects out stub workspace_id

  unfoldable pub get_project_rpc : String → Edge W ProjectSummary
  get_project_rpc id = get_project out stub id

  unfoldable pub create_project_rpc : NewProject → String → Edge W ProjectSummary
  create_project_rpc request key = do
    body ← refusing (new_project request)
    create_project out stub body key

  unfoldable pub bind_task_manager_rpc : String → TaskManagerBinding → Edge W ProjectSummary
  bind_task_manager_rpc project_id binding = bind_task_manager out stub project_id binding
