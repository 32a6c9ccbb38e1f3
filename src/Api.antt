-- ===== src/Api.antt =====
-- The custom resource, api/v1alpha1/tagupdater_types.go. A pointer field is an `Option`. Of the
-- Kubernetes metadata the program reads the namespace, the name and the generation.
use argocd_tag_updater.Base.{String, Bool, Option, List}
use argocd_tag_updater.Base.Int.{ℤ}
use argocd_tag_updater.Base.Time.{Time, Duration}

pub record LocalObjectReference : Type 0 where
  pub name : String

-- `SourceType` is a string: the API server does not stop other values, and `sourceFor` refuses them.
abbrev pub SourceType : Type 0
SourceType = String

abbrev pub source_type_git : SourceType
source_type_git = "git"

abbrev pub source_type_oci : SourceType
source_type_oci = "oci"

abbrev pub source_type_nix : SourceType
source_type_nix = "nix"

pub record SourceSpec : Type 0 where
  pub digest_auth_realm : String
  pub resolve_digest : Bool
  pub digest_repo : String
  pub type : SourceType
  pub repo : String
  pub tag_pattern : String
  pub image_pull_secret_ref : Option LocalObjectReference

pub record PatchSpec : Type 0 where
  pub field : String
  pub template : String

-- `metav1.LabelSelector`, the Kubernetes type.
pub record LabelSelectorRequirement : Type 0 where
  pub key : String
  pub operator : String
  pub values : List String

pub record LabelSelector : Type 0 where
  pub match_labels : List (String × String)
  pub match_expressions : List LabelSelectorRequirement

pub record TargetSpec : Type 0 where
  pub api_version : String
  pub kind : String
  pub name : String
  pub namespace : String
  pub selector : Option LabelSelector
  pub patches : List PatchSpec

pub record ArgoCdAppRef : Type 0 where
  pub name : String
  pub namespace : String

pub record RollbackSpec : Type 0 where
  pub enabled : Bool
  pub timeout : Duration

pub record WriteBackSpec : Type 0 where
  pub repo : String
  pub branch : String
  pub path : String
  pub credentials_secret_ref : LocalObjectReference

pub record TagUpdaterSpec : Type 0 where
  pub source : SourceSpec
  pub targets : List TargetSpec
  pub interval : Duration
  pub write_back : WriteBackSpec
  pub argo_cd_app : Option ArgoCdAppRef
  pub managing_app : Option ArgoCdAppRef
  pub rollback : Option RollbackSpec

-- `metav1.ConditionStatus` and `metav1.Condition`. The transition time is left out: the library sets
-- it, and the program never reads it.
pub data ConditionStatus : Type 0 where
  condition_true condition_false condition_unknown : ConditionStatus

pub record Condition : Type 0 where
  pub type : String
  pub status : ConditionStatus
  pub reason : String
  pub message : String

pub record TagUpdaterStatus : Type 0 where
  pub last_image_digest : String
  pub previous_image_digest : String
  pub observed_generation : ℤ
  pub last_tag : String
  pub last_updated : Option Time
  pub conditions : List Condition
  pub last_write_commit : String
  pub previous_tag : String
  pub skipped_tags : List String
  pub watching_tag : String
  pub watching_commit : String
  pub watching_armed_at : Option Time
  pub watching_since : Option Time

pub record TagUpdater : Type 0 where
  pub namespace : String
  pub name : String
  pub generation : ℤ
  pub spec : TagUpdaterSpec
  pub status : TagUpdaterStatus

abbrev pub TagUpdaterList : Type 0
TagUpdaterList = List TagUpdater
