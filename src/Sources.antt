-- ===== src/Sources.antt =====
-- internal/source: where an updater's tags come from. The interface `Source` is the data type of its
-- three implementations. Which of them also resolve a release record (`TagResolver`) or commits
-- (`TagRevResolver`) is written out where the controller asks for it.
pub mod Digest
pub mod Http
pub mod NixCache
pub mod Registry
pub mod GitTags
pub mod Bearer
pub mod Lookup
use argocd_tag_updater.Base.{String, Bool}

pub record Git : Type 0 where
  pub repo : String
  pub ssh_key_file : String
  pub token : String
  pub known_hosts_file : String
  pub insecure_ignore_host_key : Bool

pub record Oci : Type 0 where
  pub repo : String
  pub basic_auth : String
  pub auth_realm : String

pub record Nix : Type 0 where
  pub repo : String
  pub token : String

pub data Source : Type 0 where
  git : Git → Source
  oci : Oci → Source
  nix : Nix → Source
