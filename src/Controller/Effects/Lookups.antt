-- ===== src/Controller/Effects/Lookups.antt =====
-- Lookups: they call outside and change nothing else of the state.
use argocd_tag_updater.Base.{String, Option, none, some}
use argocd_tag_updater.Base.Dict.{Dict}
use argocd_tag_updater.Base.Flow.Respects.{Respects, respects_rules}
use argocd_tag_updater.Api.{TagUpdater, ArgoCdAppRef}
use argocd_tag_updater.Sources.{Git, Source, git, oci, nix}
use argocd_tag_updater.Controller.Env.{Env, State}
use argocd_tag_updater.Controller.Effects.Rules.{Allows, effect_rules}
use argocd_tag_updater.Controller.ArgoCd.{argo_cd_app_state, get_application}
use argocd_tag_updater.Controller.Credentials.{
  credentials_from_secret, read_mounted, mounted_credentials, resolve_write_back_credentials,
  resolve_docker_auth,
}
use argocd_tag_updater.Controller.Release.{
  list_tags, add_record, add_git_rev, add_rev, digest_auth, look_up_digest, add_image_digest,
}

module _ {env : Env} {R : State → State → Type 0} (L : Allows env R) where
  pub Respects-credentials_from_secret :
      (namespace name : String) → Respects R (credentials_from_secret env namespace name)
  unfolding credentials_from_secret
  Respects-credentials_from_secret namespace name =
      search (respects_rules, effect_rules, L.preorder) depth 30

  pub Respects-read_mounted :
      (key_file known_hosts_file : String) → Respects R (read_mounted env key_file known_hosts_file)
  unfolding read_mounted
  Respects-read_mounted key_file known_hosts_file =
      search (respects_rules, effect_rules, L.preorder) depth 30

  pub Respects-mounted_credentials : Respects R (mounted_credentials env)
  unfolding mounted_credentials
  Respects-mounted_credentials =
      search (respects_rules, effect_rules, L.preorder, Respects-read_mounted) depth 30

  pub Respects-resolve_write_back_credentials :
      (namespace name : String) → Respects R (resolve_write_back_credentials env namespace name)
  unfolding resolve_write_back_credentials
  Respects-resolve_write_back_credentials namespace name =
      search
        (
          respects_rules, effect_rules, L.preorder, Respects-mounted_credentials,
          Respects-credentials_from_secret,
        )
        depth 30

  pub Respects-resolve_docker_auth :
      (namespace name repo : String) → Respects R (resolve_docker_auth env namespace name repo)
  unfolding resolve_docker_auth
  Respects-resolve_docker_auth namespace name repo =
      search (respects_rules, effect_rules, L.preorder) depth 30

  pub Respects-get_application : (ref : ArgoCdAppRef) → Respects R (get_application env ref)
  unfolding get_application
  Respects-get_application ref = search (respects_rules, effect_rules, L.preorder) depth 30

  pub Respects-argo_cd_app_state :
      (ref : Option ArgoCdAppRef) → Respects R (argo_cd_app_state env ref)
  unfolding argo_cd_app_state
  Respects-argo_cd_app_state none = search (respects_rules, L.preorder)
  Respects-argo_cd_app_state (some ref) =
      search (respects_rules, effect_rules, L.preorder, Respects-get_application) depth 30

  pub Respects-list_tags : (src : Source) → Respects R (list_tags env src)
  unfolding list_tags
  Respects-list_tags (git g) = search effect_rules
  Respects-list_tags (oci o) = search effect_rules
  Respects-list_tags (nix n) = search effect_rules

  pub Respects-add_record :
      (src : Source) (what tag : String) (fields : Dict String)
      → Respects R (add_record env src what tag fields)
  unfolding add_record
  Respects-add_record (git g) what tag fields = search (respects_rules, L.preorder)
  Respects-add_record (oci o) what tag fields = search (respects_rules, L.preorder)
  Respects-add_record (nix n) what tag fields =
      search (respects_rules, effect_rules, L.preorder) depth 30

  pub Respects-add_git_rev :
      (g : Git) (tag : String) (fields : Dict String) → Respects R (add_git_rev env g tag fields)
  unfolding add_git_rev
  Respects-add_git_rev g tag fields =
      search (respects_rules, effect_rules, L.preorder, L.tries_rev, L.finds_rev) depth 30

  pub Respects-add_rev :
      (src : Source) (tag : String) (fields : Dict String) → Respects R (add_rev env src tag fields)
  unfolding add_rev
  Respects-add_rev (git g) tag fields = Respects-add_git_rev g tag fields
  Respects-add_rev (oci o) tag fields = search (respects_rules, L.preorder)
  Respects-add_rev (nix n) tag fields = search (respects_rules, L.preorder)

  pub Respects-digest_auth : (tu : TagUpdater) → Respects R (digest_auth env tu)
  unfolding digest_auth
  Respects-digest_auth tu =
      search (respects_rules, effect_rules, L.preorder, Respects-resolve_docker_auth) depth 30

  pub Respects-look_up_digest :
      (tu : TagUpdater) (tag : String) (fields : Dict String)
      → Respects R (look_up_digest env tu tag fields)
  unfolding look_up_digest
  Respects-look_up_digest tu tag fields =
      search (respects_rules, effect_rules, L.preorder, Respects-digest_auth) depth 30

  pub Respects-add_image_digest :
      (tu : TagUpdater) (tag : String) (fields : Dict String)
      → Respects R (add_image_digest env tu tag fields)
  unfolding add_image_digest
  Respects-add_image_digest tu tag fields =
      search (respects_rules, effect_rules, L.preorder, Respects-look_up_digest) depth 30

pub ruleset lookup_rules = (
  Respects-credentials_from_secret, Respects-read_mounted, Respects-mounted_credentials,
  Respects-resolve_write_back_credentials, Respects-resolve_docker_auth, Respects-get_application,
  Respects-argo_cd_app_state, Respects-list_tags, Respects-add_record, Respects-add_git_rev,
  Respects-add_rev, Respects-digest_auth, Respects-look_up_digest, Respects-add_image_digest,
)
