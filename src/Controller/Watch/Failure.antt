-- ===== src/Controller/Watch/Failure.antt =====
-- What a failed rollout is, as `checkHealthAndMaybeRollback` must have seen it.
use argocd_tag_updater.Base.{◌≡◌, ◌≢◌, ◌⊎◌, ℕ, ◌<◌, true, false, Option, none, some, ok, ◌≤◌}
use argocd_tag_updater.Base.Time.{Time}
use argocd_tag_updater.Api.{TagUpdater}
use argocd_tag_updater.Controller.Env.{Env, State}
use argocd_tag_updater.Controller.ArgoCd.{ArgoCdState, observes, sync_in_flight, argo_cd_app_state}
use argocd_tag_updater.Controller.Rollback.{rollback_timeout}
use argocd_tag_updater.Controller.Health.{
  revision_observer, deadline_exceeded, observe_health, check_health_and_maybe_rollback,
}

-- The application failed, as read before the state `s`: degraded with no sync under way, or not
-- healthy in time, where the health timeout runs from `since`.
pub record IsFailed (env : Env) (tu : TagUpdater) (app : ArgoCdState) (since : Option Time)
    (s : State) : Type 0 where
  pub unhealthy : app.health ≢ "Healthy"
  pub cause :
      ((app.health ≡ "Degraded") × (sync_in_flight app ≡ false))
      ⊎ (deadline_exceeded since (env.now s.calls) (rollback_timeout tu) ≡ true)

-- The health timeout was started by this check: the time recorded in `before` is what the clock gave
-- between the two states.
pub record IsStarted (env : Env) (s before : State) : Type 0 where
  pub unset : s.status.watching_since ≡ none
  pub instant : ℕ
  pub not_before : s.calls ≤ instant
  pub not_after : instant < before.calls
  pub since : before.status.watching_since ≡ some (env.now instant)

-- The observed rollout of the watched commit failed: the observer had the commit, now or on an earlier
-- reconcile, and the check ended with a reading, in the state `before`, that found the application
-- failed. The health timeout ran from the time recorded in `s`, or from an instant of this check where
-- there was none.
pub record IsFailedRollout (env : Env) (tu : TagUpdater) (s : State) : Type 0 where
  pub observer : ArgoCdState
  pub observer_read : (argo_cd_app_state env (revision_observer tu) s).0 ≡ ok observer
  pub observed :
      (s.status.watching_since ≢ none)
      ⊎ (observes observer s.status.watching_commit s.status.watching_armed_at ≡ true)
  pub before : State
  pub ends : check_health_and_maybe_rollback env tu s ≡ observe_health env tu before
  pub later : s.calls ≤ before.calls
  pub clock :
      ((s.status.watching_since ≢ none) × (before.status.watching_since ≡ s.status.watching_since))
      ⊎ IsStarted env s before
  pub app : ArgoCdState
  pub app_read : (argo_cd_app_state env tu.spec.argo_cd_app before).0 ≡ ok app
  pub failed :
      IsFailed env tu app before.status.watching_since
        (argo_cd_app_state env tu.spec.argo_cd_app before).1
