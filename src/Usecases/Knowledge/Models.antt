-- ===== src/Usecases/Knowledge/Models.antt =====
-- app/usecases/knowledge.py: the edge's models, with the messages of
-- app/coreclient/gen/dop/v1/knowledge_pb2.pyi that they are made from. A `Struct` stands as the
-- dictionary that it is converted to, a score as its bits.
use dop_api.Base.{ℕ, String, Bool, Option, List, nat_eq, string_eq, Dict}
use dop_api.Base.Int.{ℤ}
use dop_api.Platform.Json.{Fields}
use dop_api.Coreclient.Client.{Rpc}
use dop_api.Usecases.Demand.Messages.{PbFinding}

pub record ArtifactSummary : Type 0 where
  pub id : String
  pub kind : String
  pub project_id : String
  pub name : String
  pub version : ℕ
  pub object_ref : String
  pub meta : Fields
  pub body : String
  pub scope : String

pub record DroppedCounts : Type 0 where
  pub rules : ℤ
  pub findings : ℤ
  pub index : ℤ
  pub memories : ℤ
  pub truncated : Bool

pub record FindingSummary : Type 0 where
  pub id : String
  pub thread_id : String
  pub title : String
  pub payload : Fields

pub record ContextPackageSummary : Type 0 where
  pub demand_id : String
  pub rules : List String
  pub index : List ArtifactSummary
  pub memories : List ArtifactSummary
  pub findings : List FindingSummary
  pub estimated_tokens : ℤ
  pub dropped : Option DroppedCounts

pub record MemoryHit : Type 0 where
  pub artifact : ArtifactSummary
  pub score : Option ℕ

pub record NewArtifact : Type 0 where
  pub kind : String
  pub name : String
  pub project_id : String
  pub content_base64 : String
  pub meta : Fields

-- `KnowledgeArtifact`; the project is its id.
pub record PbArtifact : Type 0 where
  pub id : String
  pub project : String
  pub kind : ℕ
  pub name : String
  pub version : ℕ
  pub object_ref : String
  pub meta : Option Fields

-- `ContextPackage`.
pub record PbContextPackage : Type 0 where
  pub demand : String
  pub rules : List String
  pub index : List PbArtifact
  pub memories : List PbArtifact
  pub findings : List PbFinding
  pub estimated_tokens : ℤ
  pub dropped : Dict ℤ

pub record SearchMemoryRequest : Type 0 where
  pub project : Option String
  pub query : String
  pub limit : ℤ

pub record SearchMemoryResponse : Type 0 where
  pub artifacts : List PbArtifact
  pub scores : List ℕ

pub record ReadIndexRequest : Type 0 where
  pub project : String
  pub repo : String

-- The artifact with its fields that are set; the content is a list of bytes.
pub record PutArtifactRequest : Type 0 where
  pub kind : ℕ
  pub name : String
  pub project : Option String
  pub meta : Option Fields
  pub content : List ℕ
  pub idempotency_key : String

pub record KnowledgeStub (W : Type 0) : Type 0 where
  pub build_context_package : Rpc W String PbContextPackage
  pub search_memory : Rpc W SearchMemoryRequest SearchMemoryResponse
  pub read_index : Rpc W ReadIndexRequest PbArtifact
  pub list_rules : Rpc W String (List String)
  pub put_artifact : Rpc W PutArtifactRequest PbArtifact
