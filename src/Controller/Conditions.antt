-- ===== src/Controller/Conditions.antt =====
-- The conditions that several of the reconciler's paths set: `stalledCondition`,
-- `markReconcileSucceeded`, `setWriteBackNotAttempted`, `setFailed`, `setFailedBeforeWriteBack`.
use argocd_tag_updater.Base.{
  return, gets, modify, attempt, when, branch, String, ◌<>◌, Bool, M, ◌>>=◌, ◌>>◌,
}
use argocd_tag_updater.Progress.{is_stale, success}
use argocd_tag_updater.Api.{condition_true, condition_false, condition_unknown}
use argocd_tag_updater.Controller.Env.{Env, State, call, update_status, set_condition}

module _ (env : Env) where
  -- `_ = r.Status().Update(ctx, tu)`
  unfoldable pub try_update_status : {E : Type 0} → M State E (Unit {0})
  try_update_status = do attempted ← attempt (update_status env); return tt

module _ (env : Env) (key : String) where
  -- Sets the condition that `stalledCondition` makes.
  unfoldable pub set_stalled : {E : Type 0} → M State E Bool
  unfolding is_stale
  set_stalled = do
    now ← call env.now
    stale ← gets (λ s. is_stale s.progress key now)
    branch stale
        (set_condition env "Stalled" condition_true "ReconcileStale"
          "no successful reconcile within the staleness window; deploys for this updater may be frozen")
        (set_condition env "Stalled" condition_false "Progressing"
          "reconciles are completing within the staleness window")

  unfoldable pub mark_reconcile_succeeded : {E : Type 0} → M State E (Unit {0})
  unfolding success
  mark_reconcile_succeeded = do
    now ← call env.now
    modify (λ s. record s { progress = success key now s.progress })
    changed ← set_stalled
    when changed (try_update_status env)

  unfoldable pub set_write_back_not_attempted : {E : Type 0} → String → M State E Bool
  set_write_back_not_attempted cause =
      set_condition env "WriteBackReady" condition_unknown "NotAttempted"
        ("write-back not attempted this reconcile: " <> cause)

  unfoldable pub set_failed : {E : Type 0} → String → M State E (Unit {0})
  set_failed cause = do
    ready ← set_condition env "Ready" condition_false "Error" cause
    stalled ← set_stalled
    try_update_status env

  unfoldable pub set_failed_before_write_back : {E : Type 0} → String → M State E (Unit {0})
  set_failed_before_write_back cause = do
    changed ← set_write_back_not_attempted cause
    set_failed cause
