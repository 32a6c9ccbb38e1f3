-- ===== src/Writeback/Yaml/Target.antt =====
-- matchesTarget of internal/writeback/yaml.go.
use argocd_tag_updater.Base.{
  ℕ, ◌<>◌, String, Bool, false, ◌&&◌, ◌||◌, not, none, some, List, [], ◌∷◌, Result, ok, err, ◌==◌,
  if◌then◌else◌,
}
use argocd_tag_updater.Base.Dict.{Dict, insert}
use argocd_tag_updater.Api.{TargetSpec}
use argocd_tag_updater.Writeback.Yaml.{Library}
use argocd_tag_updater.Writeback.Yaml.Nodes.{Heap, at, map_value, scalar_at}

-- The loop over the keys and values of the labels.
unfoldable pub label_set : Heap → List ℕ → Dict String → Dict String
unfolding at insert
label_set heap [] labels = labels
label_set heap (k ∷ []) labels = labels
label_set heap (k ∷ v ∷ rest) labels =
    label_set heap rest (insert (at heap k).value (at heap v).value labels)

unfoldable pub labels_of : Heap → ℕ → Dict String
unfolding at map_value label_set
labels_of heap metadata = elim (map_value heap metadata "labels") [
  | none ↦ []
  | some node ↦ label_set heap (at heap node).content []
]

-- `target.Selector`, which may be nil.
unfoldable pub matches_selector : Library → Heap → ℕ → TargetSpec → Result String Bool
unfolding labels_of
matches_selector lib heap metadata target = elim target.selector [
  | none ↦ ok (not (target.name == ""))
  | some selector ↦ elim (lib.select selector) [
    | err e ↦ err ("target " <> target.kind <> " selector: " <> e)
    | ok matches ↦ ok (matches (labels_of heap metadata))
  ]
]

unfoldable pub matches_metadata : Library → Heap → ℕ → TargetSpec → Result String Bool
unfolding scalar_at matches_selector
matches_metadata lib heap metadata target =
    if not (target.name == "") && not (scalar_at heap metadata "name" == target.name)
    then ok false
    else if not (target.namespace == "")
        && not (scalar_at heap metadata "namespace" == target.namespace)
    then ok false
    else matches_selector lib heap metadata target

unfoldable pub matches_target : Library → Heap → ℕ → TargetSpec → Result String Bool
unfolding scalar_at map_value matches_metadata
matches_target lib heap root target =
    if not (scalar_at heap root "apiVersion" == target.api_version)
      || not (scalar_at heap root "kind" == target.kind)
    then ok false
    else elim (map_value heap root "metadata") [
      | none ↦ ok false
      | some metadata ↦ matches_metadata lib heap metadata target
    ]
