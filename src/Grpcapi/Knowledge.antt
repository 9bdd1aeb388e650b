-- ===== src/Grpcapi/Knowledge.antt =====
-- app/grpcapi/knowledge.py: rules, index and memory on the gRPC port. `base64.b64encode` is a parameter,
-- as the strict `base64.b64decode` of the use case; a `Struct` stands as the dictionary that it is
-- converted to. Dropped counts have the fields of the use case's model.
pub mod Laws
use dop_api.Base.{
  ℕ, String, Option, none, some, List, [], ◌∷◌, map, nat_eq, string_eq, if◌then◌else◌,
}
use dop_api.Base.Int.{ℤ}
use dop_api.Base.Table.{Table, name_of, value_of}
use dop_api.Platform.Json.{Json, Fields}
use dop_api.Platform.Errors.{Error, Result, done, raised}
use dop_api.Platform.Edge.{Edge, ◌>>=◌, pure, refusing}
use dop_api.Coreclient.Client.{Outside}
use dop_api.Usecases.Knowledge.Models.{
  ArtifactSummary, DroppedCounts, FindingSummary, ContextPackageSummary, MemoryHit, NewArtifact,
  KnowledgeStub,
}
use dop_api.Usecases.Knowledge.{
  is_valid_artifact, get_context_package, search_memory, read_index, list_rules, put_artifact,
}
use dop_api.Grpcapi.Demand.Messages.{BffFinding}

-- `_NAME_BY_ENUM` and `_ENUM_BY_NAME`.
abbrev pub name_by_enum : Table
name_by_enum = (1, "rule") ∷ (2, "index") ∷ (3, "memory") ∷ []

-- The messages of app/grpcapi/gen/dop/bff/v1/knowledge_pb2.pyi.
pub record BffArtifact : Type 0 where
  pub id : String
  pub kind : ℕ
  pub project_id : String
  pub name : String
  pub version : ℕ
  pub object_ref : String
  pub meta : Option Fields
  pub body : String
  pub scope : String

pub record BffContextPackage : Type 0 where
  pub demand_id : String
  pub rules : List String
  pub index : List BffArtifact
  pub memories : List BffArtifact
  pub findings : List BffFinding
  pub estimated_tokens : ℤ
  pub dropped : Option DroppedCounts

pub record BffMemoryHit : Type 0 where
  pub artifact : BffArtifact
  pub score : Option ℕ

-- `PutArtifactRequest`; the content is a list of bytes.
pub record BffPutArtifact : Type 0 where
  pub kind : ℕ
  pub project_id : String
  pub name : String
  pub content : List ℕ
  pub meta : Option Fields
  pub idempotency_key : String

-- `_artifact`.
unfoldable pub artifact_message : ArtifactSummary → BffArtifact
artifact_message a = record {
  id = a.id;
  kind = value_of name_by_enum a.kind;
  project_id = a.project_id;
  name = a.name;
  version = a.version;
  object_ref = a.object_ref;
  meta = some a.meta;
  body = a.body;
  scope = a.scope;
}

-- `_finding`.
abbrev pub finding_message : FindingSummary → BffFinding
finding_message f = record {
  id = f.id;
  thread_id = f.thread_id;
  title = f.title;
  payload = some f.payload;
}

-- `_pacote`.
unfoldable pub package_message : ContextPackageSummary → BffContextPackage
package_message p = record {
  demand_id = p.demand_id;
  rules = p.rules;
  index = map artifact_message p.index;
  memories = map artifact_message p.memories;
  findings = map finding_message p.findings;
  estimated_tokens = p.estimated_tokens;
  dropped = p.dropped;
}

-- `_hit`.
abbrev pub hit_message : MemoryHit → BffMemoryHit
hit_message h = record { artifact = artifact_message h.artifact; score = h.score }

-- `MessageToDict(request.meta) if request.HasField("meta") else {}`.
abbrev pub given_meta : Option Fields → Fields
given_meta none = Fields.end
given_meta (some meta) = meta

-- The body of `PutArtifact`.
abbrev pub artifact_body : (List ℕ → String) → BffPutArtifact → NewArtifact
artifact_body b64encode request = record {
  kind = name_of name_by_enum request.kind;
  name = request.name;
  project_id = request.project_id;
  content_base64 = b64encode request.content;
  meta = given_meta request.meta;
}

-- The model, if its fields are valid.
abbrev pub valid_artifact : (String → Option (List ℕ)) → NewArtifact → Result NewArtifact
valid_artifact b64decode body =
    if is_valid_artifact b64decode body then done body else raised (Error.validation "NewArtifact")

module _ {W : Type 0} (out : Outside W) (stub : KnowledgeStub W)
    (b64decode : String → Option (List ℕ)) (str : Json → String) where
  unfoldable pub get_context_package_rpc : String → Edge W BffContextPackage
  get_context_package_rpc demand_id = do
    p ← get_context_package out stub b64decode str demand_id
    pure (package_message p)

  unfoldable pub search_memory_rpc : String → String → ℤ → Edge W (List BffMemoryHit)
  search_memory_rpc project_id query limit = do
    hits ← search_memory out stub b64decode str project_id query limit
    pure (map hit_message hits)

  unfoldable pub read_index_rpc : String → String → Edge W BffArtifact
  read_index_rpc project_id repo = do
    a ← read_index out stub b64decode str project_id repo
    pure (artifact_message a)

  unfoldable pub list_rules_rpc : String → Edge W (List String)
  list_rules_rpc project_id = list_rules out stub b64decode str project_id

  unfoldable pub put_artifact_rpc : (List ℕ → String) → BffPutArtifact → Edge W BffArtifact
  put_artifact_rpc b64encode request = do
    body ← refusing (valid_artifact b64decode (artifact_body b64encode request))
    a ← put_artifact out stub b64decode str body request.idempotency_key
    pure (artifact_message a)
