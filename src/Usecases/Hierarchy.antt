-- ===== src/Usecases/Hierarchy.antt =====
-- app/usecases/hierarchy.py: workspaces, projects and the binding of a project to a provider's board.
pub mod Models
pub mod Laws
use dop_api.Base.{String, Option, none, some, List, map, nat_eq, string_eq, is_empty, if◌then◌else◌}
use dop_api.Platform.Edge.{Edge, ◌>>=◌, pure}
use dop_api.Platform.Decorator.{account_scoped, require_role, managers}
use dop_api.Coreclient.Client.{Outside, call, idempotency}
use Models.{
  WorkspaceSummary, NewWorkspace, TaskManagerBinding, ProjectSummary, NewProject, TreeNode,
  PbWorkspace, PbTaskManager, PbProject, PbNode, HierarchyStub,
}

-- `_workspace`.
abbrev pub workspace_of : PbWorkspace → WorkspaceSummary
workspace_of w = record {
  id = w.id;
  name = w.name;
  key = w.key;
  description = w.description;
  tags = w.tags;
}

abbrev pub binding_of : Option PbTaskManager → Option TaskManagerBinding
binding_of none = none
binding_of (some tm) = some (record {
  integration_id = tm.integration;
  external_space_id = tm.external_space_id;
  external_project_id = tm.external_project_id;
  card_types = tm.card_types;
})

-- `_project`.
abbrev pub project_of : PbProject → ProjectSummary
project_of p = record {
  id = p.id;
  workspace_id = p.workspace;
  name = p.name;
  description = p.description;
  rules = p.rules;
  task_manager = binding_of p.task_manager;
}

abbrev pub node_of : PbNode → TreeNode
node_of n = record { workspace = workspace_of n.workspace; projects = map project_of n.projects }

abbrev pub task_manager_of : TaskManagerBinding → PbTaskManager
task_manager_of body = record {
  integration = body.integration_id;
  external_space_id = body.external_space_id;
  external_project_id = body.external_project_id;
  card_types = body.card_types;
}

module _ {W : Type 0} (out : Outside W) (stub : HierarchyStub W) where
  unfoldable pub get_tree : Edge W (List TreeNode)
  get_tree = account_scoped do nodes ← call out stub.get_tree tt; pure (map node_of nodes)

  unfoldable pub list_workspaces : Edge W (List WorkspaceSummary)
  list_workspaces =
      account_scoped do ws ← call out stub.list_workspaces tt; pure (map workspace_of ws)

  unfoldable pub create_workspace : NewWorkspace → String → Edge W WorkspaceSummary
  create_workspace body idempotency_key = account_scoped (
      require_role managers do
        key ← idempotency out idempotency_key
        w ← call out stub.create_workspace (record {
          name = body.name;
          key = body.key;
          description = body.description;
          tags = body.tags;
          idempotency_key = key;
        })
        pure (workspace_of w))

  unfoldable pub list_projects : String → Edge W (List ProjectSummary)
  list_projects workspace_id = account_scoped do
    ps ← call out stub.list_projects (if is_empty workspace_id then none else some workspace_id)
    pure (map project_of ps)

  unfoldable pub get_project : String → Edge W ProjectSummary
  get_project project_id =
      account_scoped do p ← call out stub.get_project project_id; pure (project_of p)

  unfoldable pub create_project : NewProject → String → Edge W ProjectSummary
  create_project body idempotency_key = account_scoped (
      require_role managers do
        key ← idempotency out idempotency_key
        p ← call out stub.create_project (record {
          workspace = body.workspace_id;
          name = body.name;
          description = body.description;
          idempotency_key = key;
        })
        pure (project_of p))

  -- Behind the decorators.
  pub rebind : String → TaskManagerBinding → Edge W ProjectSummary
  rebind project_id body = do
    current ← call out stub.get_project project_id
    p ← call out stub.update_project (record current { task_manager = some (task_manager_of body) })
    pure (project_of p)

  pub bind_task_manager : String → TaskManagerBinding → Edge W ProjectSummary
  bind_task_manager project_id body =
      account_scoped (require_role managers (rebind project_id body))
