-- ===== src/Writeback/Message.antt =====
-- `commitMessage` of internal/writeback/git.go.
use Prim.Native.String.{String}
use argocd_tag_updater.Base.{◌<>◌, List, [], ◌∷◌, ◌++◌, ◌==◌, if◌then◌else◌}
use argocd_tag_updater.Base.Text.{join}
use argocd_tag_updater.Base.Dict.{value}
use argocd_tag_updater.Api.{TargetSpec, PatchSpec}
use argocd_tag_updater.Matcher.{text_gt}
use argocd_tag_updater.Matcher.Sort.{insertion_sort}
use argocd_tag_updater.Writeback.{Writer}

-- The fields of one target's patches.
unfoldable pub patch_names : TargetSpec → List PatchSpec → List String
patch_names target [] = []
patch_names target (patch ∷ patches) =
    (target.kind <> "/" <> target.name <> ":" <> patch.field) ∷ patch_names target patches

unfoldable pub field_names : List TargetSpec → List String
unfolding patch_names
field_names [] = []
field_names (target ∷ targets) = patch_names target target.patches ++ field_names targets

-- `sort.Strings`: texts in the order of their bytes, where equal texts are the same text.
unfoldable pub sort_strings : List String → List String
unfolding insertion_sort text_gt
sort_strings fields = insertion_sort (λ a b. text_gt b a) fields

unfoldable pub commit_message : Writer → String
unfolding value field_names sort_strings join
commit_message w =
    let tag = value "tag" w.values in
    "chore: update "
    <> (if tag == "" then "rendered values" else tag)
    <> " via argocd-tag-updater [skip-ci]\n\nFields: "
    <> join ", " (sort_strings (field_names w.targets))
