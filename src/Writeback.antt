-- ===== src/Writeback.antt =====
-- internal/writeback: the git write-back. These are its types.
pub mod Urls
pub mod Paths
pub mod Message
pub mod Yaml
pub mod Git
pub mod TempDir
use argocd_tag_updater.Base.{String, Bool, List}
use argocd_tag_updater.Base.Dict.{Dict}
use argocd_tag_updater.Api.{WriteBackSpec, TargetSpec}

pub record Credentials : Type 0 where
  pub token : String
  pub username : String
  pub password : String
  pub ssh_private_key : String
  pub known_hosts : String
  pub insecure_ignore_host_key : Bool

pub record Writer : Type 0 where
  pub spec : WriteBackSpec
  pub credentials : Credentials
  pub targets : List TargetSpec
  pub values : Dict String

pub record WriteResult : Type 0 where
  pub committed : Bool
  pub commit_sha : String
