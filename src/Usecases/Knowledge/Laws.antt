-- ===== src/Usecases/Knowledge/Laws.antt =====
-- What was dropped, what is shown of an artifact, and which score belongs to which hit.
use dop_api.Base.{
  sym, ◌∙◌, suc, zero, ◌↔◌, get_elem?, ap, refl, ◌≡◌, inl, inr, ℕ, ◌+◌, String, true, Option, none,
  some, List, [], ◌∷◌, ◌||◌, ◌==◌, nat_eq, string_eq, any, Dict, arith, eq_iff, Bool-cases,
  if◌then◌else◌,
}
use dop_api.Base.Int.{ℤ, pos, ltb_ℤ}
use dop_api.Platform.Json.{entry, Json, Fields}
use dop_api.Usecases.Knowledge.Models.{DroppedCounts, MemoryHit, PbArtifact, SearchMemoryResponse}
use dop_api.Usecases.Knowledge.{
  without, popped, meta_of, artifact_of, is_positive, drops, hits_from, hits_of,
}

entry-without :
    (key other : String) (fs : Fields)
    → entry key (without other fs) ≡ (if key == other then none else entry key fs)
entry-without key other Fields.end = ground arith
entry-without key other (Fields.field k v fs) =
    ground (arith, entry-without key other fs, eq_iff k key, eq_iff k other, eq_iff key other)

-- The keys that the core keeps for itself are not shown in an artifact's meta, every other entry is
-- shown as it stands, and what the two keys held is the body and the scope, empty where absent.
artifact_of-meta :
    (str : Json → String) (a : PbArtifact) (key : String)
    → let shown = artifact_of str a in
      (entry key shown.meta
        ≡ (if key == "dop.body" || key == "dop.scope" then none else entry key (meta_of a.meta)))
      × (shown.body ≡ popped str "dop.body" (meta_of a.meta))
      × (shown.scope ≡ popped str "dop.scope" (meta_of a.meta))
unfolding artifact_of
artifact_of-meta str a key =
    let meta = meta_of a.meta in
    (
      ground (
        arith,
        entry-without key "dop.scope" (without "dop.body" meta),
        entry-without key "dop.body" meta,
      ),
      refl,
      ap (λ e. elim e [ none ↦ "" | some v ↦ str v ]) (entry-without "dop.scope" "dop.body" meta),
    )

-- Something was left out in this layer.
abbrev pub Dropped : Dict ℤ → Type 0
Dropped d =
    (i : ℕ) × (layer : String) × (n : ℤ) × (get_elem? d i ≡ some (layer, n))
    × (ltb_ℤ (pos 0) n ≡ true)

any-at : (d : Dict ℤ) → any is_positive d ≡ true → Dropped d
any-at [] h = absurd (ground arith)
any-at ((layer, n) ∷ d) h = elim (Bool-cases (ltb_ℤ (pos 0) n)) [
  | inl here ↦ (0, layer, n, refl, here)
  | inr elsewhere ↦
      let found = any-at d (ground arith) in (suc found.0, found.1, found.2, found.3, found.4)
]

at-any :
    (d : Dict ℤ) (i : ℕ) (layer : String) (n : ℤ)
    → get_elem? d i ≡ some (layer, n)
    → ltb_ℤ (pos 0) n ≡ true
    → any is_positive d ≡ true
at-any [] i layer n h p = absurd (ground arith)
at-any ((l, m) ∷ d) zero layer n h p = ground arith
at-any ((l, m) ∷ d) (suc i) layer n h p = ground (arith, at-any d i layer n h p)

-- A package whose drops the core did not report, exactly one with an empty map, has no counts, which
-- is not the same as zeroes; and reported counts say that the context was truncated exactly if some
-- layer, whether the edge knows it or not, lost something.
pub drops_truncated :
    (d : Dict ℤ)
    → ((drops d ≡ none) ↔ (d ≡ []))
      × ((c : DroppedCounts) → drops d ≡ some c → (c.truncated ≡ true) ↔ Dropped d)
unfolding drops
drops_truncated [] = ((λ _. refl, λ _. refl), λ c given. absurd (ground arith))
drops_truncated (e ∷ es) = (
  (λ unsaid. absurd (ground arith), λ empty. absurd (ground (arith, empty))),
  λ c given.
      let shown : c.truncated ≡ any is_positive (e ∷ es) = ground arith in
      (
        λ cut. any-at (e ∷ es) (sym shown ∙ cut),
        λ found. shown ∙ at-any (e ∷ es) found.0 found.1 found.2 found.3 found.4,
      ),
)

-- The hit for an artifact at a place, with the score that came for that place, if one came.
abbrev pub hit_at :
    (Json → String) → SearchMemoryResponse → ℕ → Option PbArtifact → Option MemoryHit
hit_at str resp i none = none
hit_at str resp i (some a) =
    some (record { artifact = artifact_of str a; score = get_elem? resp.scores i })

hits_from-at :
    (str : Json → String) (resp : SearchMemoryResponse) (artifacts : List PbArtifact) (start i : ℕ)
    → get_elem? (hits_from str resp.scores start artifacts) i
      ≡ hit_at str resp (start + i) (get_elem? artifacts i)
hits_from-at str resp [] start i = refl
hits_from-at str resp (a ∷ others) start zero = ground arith
hits_from-at str resp (a ∷ others) start (suc i) =
    ground (arith, hits_from-at str resp others (start + 1) i)

-- Every hit is the artifact of its place, in the core's order and none more, with the score of the
-- same place; where the core sent fewer scores the score is absent, not zero.
pub hits_of-at :
    (str : Json → String) (resp : SearchMemoryResponse) (i : ℕ)
    → get_elem? (hits_of str resp) i ≡ hit_at str resp i (get_elem? resp.artifacts i)
unfolding hits_of
hits_of-at str resp i =
    let from_here : 0 + i ≡ i = omega arith in
    hits_from-at str resp resp.artifacts 0 i
    ∙ ap (λ k. hit_at str resp k (get_elem? resp.artifacts i)) from_here
