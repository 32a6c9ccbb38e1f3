-- ===== src/Writeback/Yaml/Update.antt =====
-- UpdateManifest of internal/writeback/yaml.go.
use argocd_tag_updater.Base.{
  ℕ, suc, ◌<>◌, String, Bool, false, ◌&&◌, not, List, [], ◌∷◌, Result, ok, err, ◌==◌, eqb, ltb,
  length, if◌then◌else◌, ◌>>=◌, ◌>>◌, return, stop, lift, gets, modify, map_error, branch,
  on_result,
}
use argocd_tag_updater.Base.Dict.{Dict}
use argocd_tag_updater.Base.Text.{split, trim_space}
use argocd_tag_updater.Api.{TargetSpec, PatchSpec}
use argocd_tag_updater.Writeback.Yaml.{Failure, error, panic, Library}
use argocd_tag_updater.Writeback.Yaml.Bytes.{equal_bytes}
use argocd_tag_updater.Writeback.Yaml.Nodes.{Heap, at, store, document_map}
use argocd_tag_updater.Writeback.Yaml.Fields.{Editing, Edit, set_scalar}
use argocd_tag_updater.Writeback.Yaml.Target.{matches_target}
use argocd_tag_updater.Writeback.Yaml.Apply.{lift_error, apply_yaml_edits}

-- The loop over the calls of `Decode` in front of the end of the input.
unfoldable pub documents : Heap → List (Result String ℕ) → Result Failure (List ℕ)
unfolding at
documents heap [] = ok []
documents heap (err e ∷ rest) = err (error ("decode manifest: " <> e))
documents heap (ok doc ∷ rest) = elim (documents heap rest) [
  | err e ↦ err e
  | ok docs ↦ ok (elim (at heap doc).content [ [] ↦ docs | root ∷ more ↦ doc ∷ docs ])
]

-- `edits[node] = value`
unfoldable pub put_edit : ℕ → String → List (ℕ × String) → List (ℕ × String)
put_edit node value [] = (node, value) ∷ []
put_edit node value ((n, old) ∷ rest) =
    let further = put_edit node value rest in
    if eqb n node then (node, value) ∷ rest else (n, old) ∷ further

unfoldable pub record_edit : ℕ → String → Editing → Editing
unfolding at store put_edit
record_edit node value s = record s {
  heap = store s.heap node (record (at s.heap node) { value = value; tag = "!!str" });
  edits = if ltb 0 (at s.heap node).line then put_edit node value s.edits else s.edits;
}

unfoldable pub in_field : Library → TargetSpec → PatchSpec → Failure → Failure
in_field lib target patch (panic e) = panic e
in_field lib target patch (error e) = error (
    "target "
    <> target.kind
    <> "/"
    <> target.name
    <> " field "
    <> lib.quote patch.field
    <> ": "
    <> e)

unfoldable pub apply_patch : Library → Dict String → ℕ → TargetSpec → PatchSpec → Edit (Unit {0})
unfolding trim_space split set_scalar record_edit in_field ◌>>=◌
apply_patch lib values root target patch =
    on_result (lib.execute patch.template values)
      (λ value. branch (trim_space value == "") (return tt) (do
        node ←
            map_error (in_field lib target patch)
              (set_scalar lib.quote root [] (split b'.' patch.field) value)
        modify (record_edit node value)))
      (λ e. stop (error ("render template for field " <> lib.quote patch.field <> ": " <> e)))

unfoldable pub apply_patches :
    Library → Dict String → ℕ → TargetSpec → List PatchSpec → Edit (Unit {0})
unfolding apply_patch ◌>>=◌
apply_patches lib values root target [] = return tt
apply_patches lib values root target (patch ∷ patches) =
    apply_patch lib values root target patch >> apply_patches lib values root target patches

-- One document: the number of documents that matched, itself included.
unfoldable pub edit_document : Library → Dict String → TargetSpec → ℕ → ℕ → Edit ℕ
unfolding document_map matches_target lift_error apply_patches ◌>>=◌
edit_document lib values target matched doc = do
  heap ← gets (λ s. s.heap)
  root ← lift (lift_error (document_map heap doc))
  matches ← lift (lift_error (matches_target lib heap root target))
  branch matches (do apply_patches lib values root target target.patches; return (suc matched))
      (return matched)

unfoldable pub edit_documents : Library → Dict String → TargetSpec → ℕ → List ℕ → Edit ℕ
unfolding edit_document ◌>>=◌
edit_documents lib values target matched [] = return matched
edit_documents lib values target matched (doc ∷ docs) = do
  matched' ← edit_document lib values target matched doc
  edit_documents lib values target matched' docs

unfoldable pub edit_targets : Library → Dict String → List ℕ → List TargetSpec → Edit (Unit {0})
unfolding edit_documents ◌>>=◌
edit_targets lib values docs [] = return tt
edit_targets lib values docs (target ∷ targets) = do
  matched ← edit_documents lib values target 0 docs
  branch (eqb matched 0)
      (stop (error ("target " <> target.kind <> "/" <> target.name <> " not found in manifest")))
      (edit_targets lib values docs targets)

unfoldable pub with_change : List ℕ → Result Failure (List ℕ) → Result Failure (List ℕ × Bool)
unfolding equal_bytes
with_change input (err e) = err e
with_change input (ok output) = ok (output, not (equal_bytes output input))

-- `len(edits) == 0 && len(insertions) == 0`
unfoldable pub is_untouched : Editing → Bool
is_untouched s = eqb (length s.edits) 0 && eqb (length s.insertions) 0

-- Behind the loop over the targets.
unfoldable pub finish : Library → List ℕ → Editing → Result Failure (List ℕ × Bool)
unfolding apply_yaml_edits with_change is_untouched
finish lib input s =
    if is_untouched s
    then ok (input, false)
    else with_change input (apply_yaml_edits lib s.heap input s.edits s.insertions)

unfoldable pub update_manifest :
    Library → List ℕ → List TargetSpec → Dict String → Result Failure (List ℕ × Bool)
unfolding documents edit_targets finish
update_manifest lib input targets values =
    let heap = (lib.decode input).0 in
    elim (documents heap (lib.decode input).1) [
      | err e ↦ err e
      | ok docs ↦
          let edited =
            edit_targets lib values docs targets
              (record { heap = heap; edits = []; insertions = [] }) in
          elim edited.0 [ err e ↦ err e | ok _ ↦ finish lib input edited.1 ]
    ]
