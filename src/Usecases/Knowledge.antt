-- ===== src/Usecases/Knowledge.antt =====
-- app/usecases/knowledge.py: rules, index and memory. The strict `base64.b64decode`, `none` where it
-- raises, and Python's `str` of a value are parameters.
pub mod Models
pub mod Laws
use dop_api.Base.{
  get_elem?, ℕ, ◌+◌, String, Bool, true, false, Option, none, some, List, [], ◌∷◌, map, not, ◌&&◌,
  ◌==◌, nat_eq, string_eq, any, get_default, Dict, is_empty, or_else, is_in, if◌then◌else◌,
}
use dop_api.Base.Int.{ℤ, pos, ltb_ℤ}
use dop_api.Base.Table.{Table, name_of, value_of, names}
use dop_api.Platform.Json.{entry, Json, Fields}
use dop_api.Platform.Errors.{Error, Result, done, raised}
use dop_api.Platform.Edge.{Edge, ◌>>=◌, pure, refusing}
use dop_api.Platform.Decorator.{account_scoped}
use dop_api.Coreclient.Client.{Outside, call, idempotency}
use dop_api.Usecases.Demand.Messages.{PbFinding}
use Models.{
  ArtifactSummary, DroppedCounts, FindingSummary, ContextPackageSummary, MemoryHit, NewArtifact,
  PbArtifact, PbContextPackage, SearchMemoryResponse, KnowledgeStub,
}

-- `_KIND_BY_NAME` and `_NAME_BY_KIND`.
abbrev pub kind_by_name : Table
kind_by_name = (1, "rule") ∷ (2, "index") ∷ (3, "memory") ∷ []

-- `meta` after `meta.pop(key)`.
abbrev pub without : String → Fields → Fields
without key Fields.end = Fields.end
without key (Fields.field k v fs) =
    let others = without key fs in if k == key then others else Fields.field k v others

-- `str(meta.pop(key, ""))`.
abbrev pub popped : (Json → String) → String → Fields → String
popped str key meta = elim (entry key meta) [ none ↦ "" | some v ↦ str v ]

abbrev pub meta_of : Option Fields → Fields
meta_of none = Fields.end
meta_of (some meta) = meta

-- `_artifact`.
pub artifact_of : (Json → String) → PbArtifact → ArtifactSummary
artifact_of str a =
    let meta = meta_of a.meta in
    let rest_of = without "dop.body" meta in
    record {
      id = a.id;
      kind = name_of kind_by_name a.kind;
      project_id = a.project;
      name = a.name;
      version = a.version;
      object_ref = a.object_ref;
      meta = without "dop.scope" rest_of;
      body = popped str "dop.body" meta;
      scope = popped str "dop.scope" rest_of;
    }

-- `_finding`.
abbrev pub finding_of : PbFinding → FindingSummary
finding_of f = record {
  id = f.id;
  thread_id = f.thread_id;
  title = f.title;
  payload = meta_of f.payload;
}

abbrev pub is_positive : String × ℤ → Bool
is_positive e = ltb_ℤ (pos 0) e.1

-- `_drops`.
pub drops : Dict ℤ → Option DroppedCounts
drops [] = none
drops (e ∷ es) = some (record {
  rules = get_default (e ∷ es) "rules" (pos 0);
  findings = get_default (e ∷ es) "findings" (pos 0);
  index = get_default (e ∷ es) "index" (pos 0);
  memories = get_default (e ∷ es) "memories" (pos 0);
  truncated = any is_positive (e ∷ es);
})

-- The hits from a place on, each with the score of its place.
abbrev pub hits_from : (Json → String) → List ℕ → ℕ → List PbArtifact → List MemoryHit
hits_from str scores i [] = []
hits_from str scores i (a ∷ others) =
    record { artifact = artifact_of str a; score = get_elem? scores i }
    ∷ hits_from str scores (i + 1) others

pub hits_of : (Json → String) → SearchMemoryResponse → List MemoryHit
hits_of str resp = hits_from str resp.scores 0 resp.artifacts

-- `NewArtifact`, as the validation of its fields leaves it.
unfoldable pub is_valid_artifact : (String → Option (List ℕ)) → NewArtifact → Bool
is_valid_artifact b64decode body =
    is_in body.kind (names kind_by_name)
    && not (is_empty body.name)
    && not (is_empty body.content_base64)
    && elim (b64decode body.content_base64) [ none ↦ false | some bytes ↦ true ]

-- `_KIND_BY_NAME[kind]`.
abbrev pub kind_value : String → Result ℕ
kind_value kind =
    if is_in kind (names kind_by_name)
    then done (value_of kind_by_name kind)
    else raised (Error.failure "KeyError")

-- `NewArtifact.content`.
abbrev pub content : (String → Option (List ℕ)) → NewArtifact → Result (List ℕ)
content b64decode body = elim (b64decode body.content_base64) [
  | none ↦ raised (Error.failure "binascii.Error")
  | some bytes ↦ done bytes
]

abbrev pub set_meta : Fields → Option Fields
set_meta Fields.end = none
set_meta (Fields.field k v fs) = some (Fields.field k v fs)

abbrev pub set_project : String → Option String
set_project project_id = if is_empty project_id then none else some project_id

abbrev pub package_of : (Json → String) → String → PbContextPackage → ContextPackageSummary
package_of str demand_id p = record {
  demand_id = or_else p.demand demand_id;
  rules = p.rules;
  index = map (artifact_of str) p.index;
  memories = map (artifact_of str) p.memories;
  findings = map finding_of p.findings;
  estimated_tokens = p.estimated_tokens;
  dropped = drops p.dropped;
}

module _ {W : Type 0} (out : Outside W) (stub : KnowledgeStub W)
    (b64decode : String → Option (List ℕ)) (str : Json → String) where
  unfoldable pub get_context_package : String → Edge W ContextPackageSummary
  get_context_package demand_id =
      account_scoped
        do p ← call out stub.build_context_package demand_id; pure (package_of str demand_id p)

  unfoldable pub search_memory : String → String → ℤ → Edge W (List MemoryHit)
  unfolding hits_of
  search_memory project_id query limit = account_scoped do
    resp ←
        call out stub.search_memory
          (record { project = set_project project_id; query = query; limit = limit })
    pure (hits_of str resp)

  unfoldable pub read_index : String → String → Edge W ArtifactSummary
  read_index project_id repo = account_scoped do
    a ← call out stub.read_index (record { project = project_id; repo = repo })
    pure (artifact_of str a)

  unfoldable pub list_rules : String → Edge W (List String)
  list_rules project_id = account_scoped do rs ← call out stub.list_rules project_id; pure rs

  unfoldable pub put_artifact : NewArtifact → String → Edge W ArtifactSummary
  put_artifact body idempotency_key = account_scoped do
    kind ← refusing (kind_value body.kind)
    bytes ← refusing (content b64decode body)
    key ← idempotency out idempotency_key
    a ← call out stub.put_artifact (record {
      kind = kind;
      name = body.name;
      project = set_project body.project_id;
      meta = set_meta body.meta;
      content = bytes;
      idempotency_key = key;
    })
    pure (artifact_of str a)
