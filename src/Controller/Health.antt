-- ===== src/Controller/Health.antt =====
-- `checkHealthAndMaybeRollback` and `abandonWatch`: what a reconcile does while a tag is watched.
use argocd_tag_updater.Base.{
  return, gets, attempt, when, branch, on_option, on_result, String, ◌<>◌, Bool, true, false, ◌&&◌,
  not, Option, none, some, [], ◌>>=◌, ◌>>◌, ◌==◌,
}
use argocd_tag_updater.Base.Int.{pos, leb_ℤ}
use argocd_tag_updater.Base.Time.{Time, Duration, sub, seconds}
use argocd_tag_updater.Api.{
  TagUpdater, TagUpdaterStatus, ArgoCdAppRef, condition_true, condition_false,
}
use argocd_tag_updater.Controller.Env.{
  Env, State, Go, call, set_status, update_status, set_condition, event,
}
use argocd_tag_updater.Controller.ArgoCd.{ArgoCdState, observes, sync_in_flight, argo_cd_app_state}
use argocd_tag_updater.Controller.Conditions.{try_update_status}
use argocd_tag_updater.Controller.Rollback.{rollback_timeout, clear_watch, rollback_with_status}

unfoldable pub revision_observer : TagUpdater → Option ArgoCdAppRef
revision_observer tu = elim tu.spec.managing_app [
  | some ref ↦ some ref
  | none ↦ tu.spec.argo_cd_app
]

abbrev pub poll_again : Duration
poll_again = seconds 15

-- Has so much time gone by since the instant? `false` where there is none.
abbrev pub deadline_exceeded : Option Time → Time → Duration → Bool
deadline_exceeded none now timeout = false
deadline_exceeded (some since) now timeout = leb_ℤ timeout (sub now since)

-- The application's name in a message. The code reads it behind a pointer that is not nil here: the
-- application's state was just read through it.
abbrev ref_name : Option ArgoCdAppRef → String
ref_name none = ""
ref_name (some ref) = ref.name

unfoldable pub deployment_healthy : TagUpdaterStatus → TagUpdaterStatus
unfolding clear_watch
deployment_healthy st = record (clear_watch st) { skipped_tags = [] }

module _ (env : Env) (tu : TagUpdater) where
  unfoldable pub abandon_message : State → String
  abandon_message s =
      "ArgoCD application "
      <> ref_name (revision_observer tu)
      <> " did not report commit "
      <> s.status.watching_commit
      <> " within "
      <> env.show_duration (rollback_timeout tu)
      <> "; abandoning health watch for tag "
      <> s.status.watching_tag
      <> " so tag updates resume (check the application exists, its repo credentials, and that it tracks branch "
      <> tu.spec.write_back.branch
      <> ")"

  unfoldable pub abandon_watch : Go (Unit {0})
  unfolding clear_watch
  abandon_watch = do
    message ← gets abandon_message
    set_status clear_watch
    rollback_ready ← set_condition env "RollbackReady" condition_false "CommitNeverObserved" message
    ready ← set_condition env "Ready" condition_false "CommitNeverObserved" message
    event env "CommitNeverObserved"
    update_status env

  -- An application cannot be read: try again later.
  unfoldable pub read_failed : Bool → String → Go Duration
  read_failed with_event message = do
    rollback_ready ← set_condition env "RollbackReady" condition_false "HealthReadFailed" message
    try_update_status env
    when with_event (event env "HealthReadFailed")
    return poll_again

  -- The commit was not observed yet.
  unfoldable pub await_observation : Go Duration
  await_observation = do
    armed_at ← gets (λ s. s.status.watching_armed_at)
    now ← call env.now
    branch (deadline_exceeded armed_at now (rollback_timeout tu)) (abandon_watch >> return (pos 0))
        (return poll_again)

  -- The deployment is healthy: the watch ends, and the failed tags get another chance.
  unfoldable pub finish_watch : Go Duration
  unfolding deployment_healthy
  finish_watch = do
    set_status deployment_healthy
    rollback_ready ←
        set_condition env "RollbackReady" condition_true "DeploymentHealthy"
          "ArgoCD reports the written commit Healthy"
    update_status env
    return (pos 0)

  -- Neither healthy nor failed: wait, unless the timeout has passed.
  unfoldable pub await_health : Go Duration
  await_health = do
    since ← gets (λ s. s.status.watching_since)
    now ← call env.now
    branch (deadline_exceeded since now (rollback_timeout tu))
        (rollback_with_status env tu >> return (pos 0)) (return poll_again)

  -- What the state of the application means for the watched tag.
  unfoldable pub judge_health : ArgoCdState → Go Duration
  judge_health state = branch (state.health == "Healthy") finish_watch (
      branch (state.health == "Degraded" && not (sync_in_flight state))
        (rollback_with_status env tu >> return (pos 0)) await_health)

  -- The commit is observed: read the health of the application.
  unfoldable pub observe_health : Go Duration
  observe_health = do
    reading ← attempt (argo_cd_app_state env tu.spec.argo_cd_app)
    on_result reading judge_health (read_failed false)

  -- The health timeout starts now.
  unfoldable pub start_clock : Go Duration
  start_clock = do
    now ← call env.now
    set_status (λ st. record st { watching_since = some now })
    update_status env
    observe_health

  -- What the state of the revision observer means.
  unfoldable pub judge_revision : ArgoCdState → Go Duration
  judge_revision revision_state = do
    st ← gets (λ s. s.status)
    on_option st.watching_since
        (branch (observes revision_state st.watching_commit st.watching_armed_at) start_clock
          await_observation)
        (λ since. observe_health)

  unfoldable pub check_health_and_maybe_rollback : Go Duration
  check_health_and_maybe_rollback = do
    reading ← attempt (argo_cd_app_state env (revision_observer tu))
    on_result reading judge_revision (read_failed true)
