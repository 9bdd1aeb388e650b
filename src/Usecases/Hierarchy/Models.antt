-- ===== src/Usecases/Hierarchy/Models.antt =====
-- app/usecases/hierarchy.py: the edge's models, with the core's messages. A project is read and sent
-- back whole, so it has all its fields; its audit stamp is a value that the edge does not look into.
use dop_api.Base.{String, Option, List}
use dop_api.Platform.Json.{Json}
use dop_api.Coreclient.Client.{Rpc}

pub record WorkspaceSummary : Type 0 where
  pub id : String
  pub name : String
  pub key : String
  pub description : String
  pub tags : List String

pub record NewWorkspace : Type 0 where
  pub name : String
  pub key : String
  pub description : String
  pub tags : List String

pub record TaskManagerBinding : Type 0 where
  pub integration_id : String
  pub external_space_id : String
  pub external_project_id : String
  pub card_types : List String

pub record ProjectSummary : Type 0 where
  pub id : String
  pub workspace_id : String
  pub name : String
  pub description : String
  pub rules : List String
  pub task_manager : Option TaskManagerBinding

pub record NewProject : Type 0 where
  pub workspace_id : String
  pub name : String
  pub description : String

pub record TreeNode : Type 0 where
  pub workspace : WorkspaceSummary
  pub projects : List ProjectSummary

-- `Workspace`.
pub record PbWorkspace : Type 0 where
  pub id : String
  pub name : String
  pub key : String
  pub description : String
  pub tags : List String

-- `ProjectRepo`.
pub record PbRepo : Type 0 where
  pub id : String
  pub integration : String
  pub external_id : String
  pub name : String
  pub default_branch : String
  pub pr_targets : List String

-- `ProjectTaskManager`.
pub record PbTaskManager : Type 0 where
  pub integration : String
  pub external_space_id : String
  pub external_project_id : String
  pub card_types : List String

-- `Project`.
pub record PbProject : Type 0 where
  pub id : String
  pub workspace : String
  pub name : String
  pub description : String
  pub repos : List PbRepo
  pub task_manager : Option PbTaskManager
  pub resources : List String
  pub rules : List String
  pub audit : Option Json

-- `GetTreeResponse.Node`.
pub record PbNode : Type 0 where
  pub workspace : PbWorkspace
  pub projects : List PbProject

pub record CreateWorkspaceRequest : Type 0 where
  pub name : String
  pub key : String
  pub description : String
  pub tags : List String
  pub idempotency_key : String

pub record CreateProjectRequest : Type 0 where
  pub workspace : String
  pub name : String
  pub description : String
  pub idempotency_key : String

pub record HierarchyStub (W : Type 0) : Type 0 where
  pub get_tree : Rpc W (Unit {0}) (List PbNode)
  pub list_workspaces : Rpc W (Unit {0}) (List PbWorkspace)
  pub create_workspace : Rpc W CreateWorkspaceRequest PbWorkspace
  pub list_projects : Rpc W (Option String) (List PbProject)
  pub get_project : Rpc W String PbProject
  pub create_project : Rpc W CreateProjectRequest PbProject
  pub update_project : Rpc W PbProject PbProject
