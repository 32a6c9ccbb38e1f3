-- ===== src/Controller/Select.antt =====
-- The part of `Reconcile` that picks a release and collects its template fields.
pub mod Unskipped
use argocd_tag_updater.Base.{
  return, stop, lift, gets, attempt, branch, on_option, on_result, String, ◌<>◌, ◌>>=◌, ◌>>◌, ◌==◌,
}
use argocd_tag_updater.Base.Dict
use argocd_tag_updater.Base.Dict.{Dict}
use argocd_tag_updater.Api.{TagUpdater, condition_false, source_type_oci}
use argocd_tag_updater.Matcher
use argocd_tag_updater.Matcher.{Match, Matcher, latest}
use argocd_tag_updater.Progress.{attempt as attempt_progress}
use argocd_tag_updater.Sources.{Source}
use argocd_tag_updater.Controller.Env.{Env, update_status, set_condition}
use argocd_tag_updater.Controller.Conditions.{
  mark_reconcile_succeeded, set_write_back_not_attempted,
}
use argocd_tag_updater.Controller.Credentials.{resolve_docker_auth}
use argocd_tag_updater.Controller.Release.{
  list_tags, release_fields, add_record, add_rev, add_image_digest,
}
use argocd_tag_updater.Controller.Skips.{filter_skipped}
use argocd_tag_updater.Controller.Outcome.{Rec, requeue, or_fail, interval_of, before_write_back}

module _ (env : Env) (key : String) (tu : TagUpdater) where
  -- The pull secret of an OCI source; the controller goes on without one that cannot be read.
  unfoldable pub oci_basic_auth : Rec String
  oci_basic_auth = on_option tu.spec.source.image_pull_secret_ref (return "") (λ secret.
      branch (tu.spec.source.type == source_type_oci)
        (do
          auth ← attempt (resolve_docker_auth env tu.namespace secret.name tu.spec.source.repo)
          on_result auth return (λ e. return ""))
        (return ""))

  unfoldable pub no_matching_tags : {A : Type 0} → Rec A
  no_matching_tags = do
    let message =
        "no tag in " <> tu.spec.source.repo <> " matched pattern " <> tu.spec.source.tag_pattern
    ready ← set_condition env "Ready" condition_false "NoMatchingTags" message
    write_back ← set_write_back_not_attempted env key message
    or_fail (update_status env)
    mark_reconcile_succeeded env key
    stop (requeue (interval_of tu))

  -- The source and the latest match that no rollback has ruled out.
  unfoldable pub select_release : Source → Rec Match
  select_release src = do
    tags ← before_write_back env key tu (list_tags env src)
    m ←
        before_write_back env key tu
          (lift (Matcher.new env.compile env.quote tu.spec.source.tag_pattern))
    skipped ← gets (λ s. s.status.skipped_tags)
    on_option (latest env.sort_slice m (filter_skipped tags skipped)) no_matching_tags return

  unfoldable pub collect_fields : Source → Match → Rec (Dict String)
  collect_fields src found = do
    described ←
        before_write_back env key tu (add_record env src "tag" found.tag (release_fields tu found))
    resolved ← before_write_back env key tu (add_rev env src found.tag described)
    before_write_back env key tu (add_image_digest env tu found.tag resolved)
