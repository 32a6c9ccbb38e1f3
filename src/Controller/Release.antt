-- ===== src/Controller/Release.antt =====
-- Tag sources and the template fields of one release: `sourceFor`, the calls through the interfaces
-- of internal/source, `addRev`, the health of the revision lookups, and image_digest.go.
use argocd_tag_updater.Base.{
  return, stop, gets, modify, map_error, when, branch, on_option, ◌+◌, ◌-◌, String, ◌<>◌, Bool,
  false, not, List, Result, ok, err, ◌>>=◌, ◌>>◌, ◌==◌, if◌then◌else◌, eqb,
}
use argocd_tag_updater.Base.Int.{ℤ, pos, negsuc, sub_ℕ, wrap64, ltb_ℤ}
use argocd_tag_updater.Base.Time.{Time, Duration, sub, minutes}
use argocd_tag_updater.Base.Text.{equal_fold}
use argocd_tag_updater.Base.Dict
use argocd_tag_updater.Base.Dict.{Dict, value, merge}
use argocd_tag_updater.Api.{
  SourceSpec, TagUpdater, source_type_git, source_type_oci, source_type_nix,
}
use argocd_tag_updater.Matcher.{Match}
use argocd_tag_updater.Sources.{Git, Source, git, oci, nix}
use argocd_tag_updater.Controller.Env.{Env, Go, call, try_call}
use argocd_tag_updater.Controller.Credentials.{resolve_docker_auth}
use argocd_tag_updater.Controller.Repo.{parse_repo}

-- `t.UnixNano()` and `time.Unix(0, n)`.
abbrev pub unix_epoch : Time
unix_epoch = 62_135_596_800_000_000_000

unfoldable pub unix_nano : Time → ℤ
unfolding wrap64
unix_nano t = wrap64 (sub_ℕ t unix_epoch)

unfoldable pub from_unix_nano : ℤ → Time
from_unix_nano (pos n) = unix_epoch + n
from_unix_nano (negsuc n) = unix_epoch - (n + 1)

abbrev pub is_zero_ℤ : ℤ → Bool
is_zero_ℤ (pos n) = eqb n 0
is_zero_ℤ (negsuc n) = false

abbrev pub rev_stale_after : Duration
rev_stale_after = minutes 5

-- The two atomic fields: the first attempt and the last success.
unfoldable pub rev_resolution_stale : ℤ → ℤ → Time → Bool
unfolding sub from_unix_nano
rev_resolution_stale first_attempt last_success now =
    let last = if is_zero_ℤ last_success then first_attempt else last_success in
    if is_zero_ℤ last then false else ltb_ℤ rev_stale_after (sub now (from_unix_nano last))

-- The fields that need no lookup: the captures, the tag, and those of the repository.
unfoldable pub release_fields : TagUpdater → Match → Dict String
unfolding Dict.insert merge parse_repo
release_fields tu m = merge (Dict.insert "tag" m.tag m.captures) (parse_repo tu.spec.source.repo)

module _ (env : Env) where
  unfoldable pub source_for : SourceSpec → String → Result String Source
  unfolding equal_fold
  source_for spec oci_basic_auth =
      if spec.type == source_type_git
      then ok (
          git (record {
            repo = spec.repo;
            ssh_key_file = env.getenv "GIT_SSH_KEY_FILE";
            token = env.getenv "GIT_TOKEN";
            known_hosts_file = env.getenv "GIT_KNOWN_HOSTS_FILE";
            insecure_ignore_host_key =
                equal_fold (env.getenv "GIT_INSECURE_IGNORE_HOST_KEY") "true";
          }))
      else if spec.type == source_type_oci
      then ok (oci (record { repo = spec.repo; basic_auth = oci_basic_auth; auth_realm = "" }))
      else if spec.type == source_type_nix
      then ok (nix (record { repo = spec.repo; token = env.getenv "NIX_CACHE_TOKEN" }))
      else err ("unknown source type " <> env.quote spec.type)

  -- `src.Tags(ctx)`
  unfoldable pub list_tags : Source → Go (List String)
  list_tags (git g) = try_call (λ k. env.git_tags k g)
  list_tags (oci o) = try_call (λ k. env.oci_tags k o)
  list_tags (nix n) = try_call (λ k. env.nix_tags k n)

  -- The part for a `TagResolver`: only the nix source is one.
  unfoldable pub add_record : Source → String → String → Dict String → Go (Dict String)
  unfolding merge
  add_record (git g) what tag fields = return fields
  add_record (oci o) what tag fields = return fields
  add_record (nix n) what tag fields = do
    extra ←
        map_error (λ e. "resolve release record for " <> what <> " " <> tag <> ": " <> e)
          (try_call (λ k. env.nix_resolve k n tag))
    return (merge fields extra)

  -- `addRev` for a `TagRevResolver`: only the git source is one.
  unfoldable pub add_git_rev : Git → String → Dict String → Go (Dict String)
  unfolding value Dict.insert unix_nano
  add_git_rev g tag fields = do
    attempted ← call env.now
    first ← gets (λ s. s.first_rev_attempt)
    when (is_zero_ℤ first) (modify (λ s. record s { first_rev_attempt = unix_nano attempted }))
    revs ←
        map_error (λ e. "resolve tag " <> env.quote tag <> " to commit sha: " <> e)
          (try_call (λ k. env.git_tag_revs k g))
    let sha = value tag revs
    when (sha == "") (
        stop (
          "tag "
          <> env.quote tag
          <> " resolved to no commit sha; refusing impure tag-only flakeRef"))
    succeeded ← call env.now
    modify (λ s. record s { last_rev_success = unix_nano succeeded })
    return (Dict.insert "rev" sha fields)

  unfoldable pub add_rev : Source → String → Dict String → Go (Dict String)
  add_rev (git g) tag fields = add_git_rev g tag fields
  add_rev (oci o) tag fields = return fields
  add_rev (nix n) tag fields = return fields

  -- The registry credentials of a digest lookup.
  unfoldable pub digest_auth : TagUpdater → Go String
  digest_auth tu = on_option tu.spec.source.image_pull_secret_ref (return "") (λ secret.
      map_error (λ e. "resolve digest registry credentials: " <> e)
        (resolve_docker_auth env tu.namespace secret.name tu.spec.source.digest_repo))

  -- `addImageDigest`, once the updater asks for it.
  unfoldable pub look_up_digest : TagUpdater → String → Dict String → Go (Dict String)
  unfolding Dict.insert
  look_up_digest tu tag fields = do
    let spec = tu.spec.source
    when (not (spec.type == source_type_git))
        (stop "digest resolution requires a git release source")
    when (spec.digest_repo == "") (stop "git digest resolution requires source.digestRepo")
    authentication ← digest_auth tu
    digest ← try_call (λ k.
        env.oci_digest k
          (record {
            repo = spec.digest_repo;
            basic_auth = authentication;
            auth_realm = spec.digest_auth_realm;
          })
          tag)
    return (Dict.insert "image_digest" digest fields)

  unfoldable pub add_image_digest : TagUpdater → String → Dict String → Go (Dict String)
  add_image_digest tu tag fields =
      branch tu.spec.source.resolve_digest (look_up_digest tu tag fields) (return fields)
