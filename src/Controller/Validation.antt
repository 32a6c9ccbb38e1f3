-- ===== src/Controller/Validation.antt =====
-- `validateWriteBack` and `validateFieldOwnership`. `none` is no error.
pub mod Required
pub mod Ownership
pub mod Refusals
use Prim.Native.Char.{nul}
use argocd_tag_updater.Base.{
  String, ◌<>◌, Option, none, some, List, [], ◌∷◌, ◌++◌, Result, ok, err, ◌==◌, if◌then◌else◌,
}
use argocd_tag_updater.Base.Text.{is_blank, join}
use argocd_tag_updater.Base.Dict
use argocd_tag_updater.Base.Dict.{Dict}
use argocd_tag_updater.Api.{WriteBackSpec, TargetSpec, PatchSpec, LabelSelector, TagUpdater}

unfoldable pub missing_fields : WriteBackSpec → List String
unfolding is_blank
missing_fields spec =
    (if is_blank spec.repo then "repo" ∷ [] else [])
    ++ (if is_blank spec.branch then "branch" ∷ [] else [])
    ++ (if is_blank spec.path then "path" ∷ [] else [])

unfoldable pub validate_write_back : WriteBackSpec → Option String
unfolding missing_fields join
validate_write_back spec = elim (missing_fields spec) [
  | [] ↦ none
  | field ∷ more ↦ some (
      "spec.writeBack is required with non-empty repo, branch, and path; add missing field(s): "
      <> join ", " (field ∷ more))
]

-- The separator "\x00".
abbrev pub separator : String
separator = String.◌∷◌ nul ""

-- What stands for a scalar of a manifest: the names by which an updater reaches it, as they are spelled.
unfoldable pub field_key : WriteBackSpec → TargetSpec → String → PatchSpec → String
unfolding join
field_key w target selector patch = join separator (
    w.repo ∷ w.branch ∷ w.path ∷ target.api_version ∷ target.kind ∷ target.namespace ∷ target.name
    ∷ selector ∷ patch.field ∷ [])

abbrev pub Owners : Type 0
Owners = Dict String

abbrev pub owner_of : TagUpdater → String
owner_of updater = updater.namespace <> "/" <> updater.name

-- One turn of the innermost loop.
unfoldable pub claim_field : String → String → String → Owners → Result String Owners
unfolding Dict.lookup Dict.insert
claim_field message key owner owners = elim (Dict.lookup key owners) [
  | none ↦ ok (Dict.insert key owner owners)
  | some previous ↦
      if previous == owner
      then ok (Dict.insert key owner owners)
      else err (message <> previous <> " and " <> owner <> "; consolidate it into one TagUpdater")
]

abbrev pub conflict_message : TargetSpec → PatchSpec → String
conflict_message target patch =
    "manifest field " <> patch.field <> " on " <> target.kind <> "/" <> target.name
    <> " is owned by both "

unfoldable pub claim_patches :
    TagUpdater → TargetSpec → String → List PatchSpec → Owners → Result String Owners
unfolding claim_field field_key
claim_patches updater target selector [] owners = ok owners
claim_patches updater target selector (patch ∷ patches) owners =
    elim (claim_field (conflict_message target patch)
      (field_key updater.spec.write_back target selector patch) (owner_of updater) owners) [
        | err e ↦ err e
        | ok owners' ↦ claim_patches updater target selector patches owners'
      ]

module _ (marshal : Option LabelSelector → Result String String) where
  unfoldable pub claim_targets : TagUpdater → List TargetSpec → Owners → Result String Owners
  unfolding claim_patches
  claim_targets updater [] owners = ok owners
  claim_targets updater (target ∷ targets) owners = elim (marshal target.selector) [
    | err e ↦ err ("serialize selector for " <> owner_of updater <> ": " <> e)
    | ok selector ↦ elim (claim_patches updater target selector target.patches owners) [
      | err e ↦ err e
      | ok owners' ↦ claim_targets updater targets owners'
    ]
  ]

  unfoldable pub claim_updaters : List TagUpdater → Owners → Result String Owners
  unfolding claim_targets
  claim_updaters [] owners = ok owners
  claim_updaters (updater ∷ updaters) owners =
      elim (claim_targets updater updater.spec.targets owners) [
        | err e ↦ err e
        | ok owners' ↦ claim_updaters updaters owners'
      ]

  unfoldable pub validate_field_ownership : List TagUpdater → Option String
  unfolding claim_updaters
  validate_field_ownership updaters = elim (claim_updaters updaters []) [
    | ok owners ↦ none
    | err e ↦ some e
  ]
