-- ===== src/Grpcapi/Knowledge/Laws.antt =====
-- An artifact on its way from a client of the gRPC port to the core.
use dop_api.Usecases.Knowledge.{put_artifact, set_meta, set_project}
use dop_api.Base.{◌≡◌, nat_eq, string_eq}
use dop_api.Platform.Json.{Json}
use dop_api.Coreclient.Client.{Metadata}
use dop_api.Usecases.Knowledge.Models.{PutArtifactRequest, KnowledgeStub}
use dop_api.Grpcapi.Knowledge.{BffPutArtifact, given_meta}

-- The two stubs answer alike to a request to write just this artifact.
abbrev pub ArtifactAlike :
    {W : Type 0} → BffPutArtifact → KnowledgeStub W → KnowledgeStub W → Type 0
ArtifactAlike {W} request stub other =
    (md : Metadata) (q : PutArtifactRequest) (w : W)
    → q.kind ≡ request.kind
    → q.name ≡ request.name
    → q.project ≡ set_project request.project_id
    → q.meta ≡ set_meta (given_meta request.meta)
    → q.content ≡ request.content
    → stub.put_artifact md q w ≡ other.put_artifact md q w
