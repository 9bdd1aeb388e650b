-- ===== src/Tests/Store.antt =====
-- The theorems about resources and knowledge at concrete values.
use dop_api.Base.{◌↔◌, get_elem?, ◌≡◌, String, true, none, some, [], ◌∷◌, nat_eq, string_eq, Dict}
use dop_api.Base.Int.{ℤ, pos}
use dop_api.Platform.Json.{Json, Fields}
use dop_api.Usecases.Knowledge.Models.{PbArtifact, DroppedCounts, SearchMemoryResponse}
use dop_api.Usecases.Knowledge.{artifact_of, drops, hits_of}
use dop_api.Usecases.Knowledge.Laws.{Dropped, drops_truncated, hits_of-at}

abbrev artifact : PbArtifact
artifact = record {
  id = "a1";
  project = "p1";
  kind = 3;
  name = "note";
  version = 1;
  object_ref = "";
  meta = some (
      Fields.field "dop.body" (Json.text "hello")
        (Fields.field "author" (Json.text "ana") Fields.end));
}

abbrev str : Json → String
str (Json.text t) = t
str _ = ""

abbrev counts : Dict ℤ
counts = ("rules", pos 0) ∷ ("new_layer", pos 2) ∷ []

drops_truncated_example :
    ((drops counts ≡ none) ↔ (counts ≡ []))
    × ((c : DroppedCounts) → drops counts ≡ some c → (c.truncated ≡ true) ↔ Dropped counts)
drops_truncated_example = drops_truncated counts

abbrev found : SearchMemoryResponse
found = record { artifacts = artifact ∷ artifact ∷ []; scores = 7 ∷ [] }

hits_of-at_example :
    get_elem? (hits_of str found) 1
    ≡ some (record { artifact = artifact_of str artifact; score = none })
hits_of-at_example = hits_of-at str found 1
