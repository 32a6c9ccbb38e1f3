-- ===== src/Controller/Guards.antt =====
-- The first half of `Reconcile`: configuration checks, the watch of a deployed tag, and field
-- ownership.
use argocd_tag_updater.Base.{
  return, stop, gets, map_error, when, on_option, String, ◌<>◌, ◌&&◌, not, some, ◌>>=◌, ◌>>◌, ◌==◌,
}
use argocd_tag_updater.Base.Int.{pos, ltb_ℤ}
use argocd_tag_updater.Base.Time.{Duration}
use argocd_tag_updater.Api.{TagUpdater, condition_false, source_type_git}
use argocd_tag_updater.Controller.Env.{Env, try_call, set_condition, event}
use argocd_tag_updater.Controller.Conditions.{
  try_update_status, set_stalled, mark_reconcile_succeeded, set_failed_before_write_back,
}
use argocd_tag_updater.Controller.Rollback.{rollback_enabled}
use argocd_tag_updater.Controller.Health.{check_health_and_maybe_rollback}
use argocd_tag_updater.Controller.Validation.{validate_write_back, validate_field_ownership}
use argocd_tag_updater.Controller.Outcome.{Rec, requeue, or_fail, interval_of, refuse}

module _ (env : Env) (key : String) (tu : TagUpdater) where
  unfoldable pub check_digest_source : Rec (Unit {0})
  check_digest_source =
      when (tu.spec.source.resolve_digest && not (tu.spec.source.type == source_type_git)) (do
        set_failed_before_write_back env key "resolveDigest is supported only for Git sources"
        stop (record {
          requeue_after = interval_of tu;
          error = some "resolveDigest is supported only for Git sources";
        }))

  unfoldable pub check_rollback_app : Rec (Unit {0})
  check_rollback_app =
      on_option tu.spec.argo_cd_app
        (when (rollback_enabled tu) (
          refuse env key tu "RollbackReady" "MissingArgoCDApp"
            "spec.rollback.enabled requires spec.argoCDApp for read-only sync revision and health observation"))
        (λ app. return tt)

  -- A watched tag comes first. Only a watch whose commit was observed counts as progress.
  unfoldable pub continue_watch : Duration → Rec (Unit {0})
  continue_watch after = when (ltb_ℤ (pos 0) after) (do
    since ← gets (λ s. s.status.watching_since)
    on_option since (return tt) (λ t. mark_reconcile_succeeded env key)
    stop (requeue after))

  unfoldable pub watch_phase : Rec (Unit {0})
  watch_phase = do
    watching ← gets (λ s. not (s.status.watching_tag == ""))
    when (rollback_enabled tu && watching)
        (do after ← or_fail (check_health_and_maybe_rollback env tu); continue_watch after)

  unfoldable pub refuse_write_back : String → Rec (Unit {0})
  refuse_write_back message = do
    first ← set_condition env "WriteBackReady" condition_false "MissingWriteBackConfig" message
    ready ← set_condition env "Ready" condition_false "MissingWriteBackConfig" message
    stalled ← set_stalled env key
    try_update_status env
    event env "MissingWriteBackConfig"
    stop (requeue (interval_of tu))

  unfoldable pub check_write_back : Rec (Unit {0})
  check_write_back =
      on_option (validate_write_back tu.spec.write_back) (return tt) refuse_write_back

  unfoldable pub check_ownership : Rec (Unit {0})
  check_ownership = do
    updaters ←
        or_fail (
          map_error (λ e. "list TagUpdaters to validate field ownership: " <> e)
            (try_call env.list))
    on_option (validate_field_ownership env.marshal_selector updaters) (return tt)
        (refuse env key tu "WriteBackReady" "ConflictingFieldOwner")
