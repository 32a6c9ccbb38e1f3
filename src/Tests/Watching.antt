-- ===== src/Tests/Watching.antt =====
-- The watch of a tag, at concrete states.
use argocd_tag_updater.Base.{
  ok, err, ◌+◌, ◌≡◌, ◌≢◌, ◌↔◌, ◌⊎◌, refl, ◌∷◌, [], String, true, false, none, some,
}
use argocd_tag_updater.Controller.ArgoCd.{ArgoCdState, observes, argo_cd_app_state}
use argocd_tag_updater.Controller.ArgoCd.Observes.{IsNamed, IsOvertaken, observes_iff}
use argocd_tag_updater.Controller.Watch.Abandoned.{
  IsAbandoned, behind_reading, check_health_unobserved-IsAbandoned,
}
use argocd_tag_updater.Controller.Health.{
  deadline_exceeded, poll_again, revision_observer, check_health_and_maybe_rollback,
}
use argocd_tag_updater.Controller.Rollback.{rollback_timeout, do_rollback}
use argocd_tag_updater.Controller.Rollback.GivesUp.{IsGivenUp, do_rollback-IsGivenUp}
use argocd_tag_updater.Controller.Reconcile.{reconcile_found}
use argocd_tag_updater.Controller.Reconcile.Ledger.{IsAccounted}
use argocd_tag_updater.Controller.Reconcile.Accounts.{reconcile_found-IsAccounted}
use argocd_tag_updater.Controller.Env.{Env, State}
use argocd_tag_updater.Controller.Watch.Unreadable.{watch_of, check_health_unreadable}
use argocd_tag_updater.Controller.Watch.Failure.{IsFailedRollout}
use argocd_tag_updater.Controller.Watch.Verdict.{check_health_and_maybe_rollback-IsFailedRollout}
use argocd_tag_updater.Tests.World.{world, updater, start, clock}
use argocd_tag_updater.Tests.Run.{checked}

-- ArgoCD reports the observed commit degraded, so the previous tag is written back.
rolled_back_tag : (check_health_and_maybe_rollback world updater start).1.status.last_tag ≡ "v1"
unfolding checked
rolled_back_tag = refl

rolled_back_writes : (check_health_and_maybe_rollback world updater start).1.writes ≢ start.writes
unfolding checked
rolled_back_writes p = cc

check_health_and_maybe_rollback-IsFailedRollout_example : IsFailedRollout world updater start
check_health_and_maybe_rollback-IsFailedRollout_example =
    check_health_and_maybe_rollback-IsFailedRollout world updater start rolled_back_writes

abbrev synced : ArgoCdState
synced = record {
  revision = "c3";
  revisions = [];
  deployments = record { revisions = "c2" ∷ []; started_at = 7 } ∷ [];
  health = "Progressing";
  operation = "Running";
}

observes_iff_example :
    (observes synced "c2" (some 9) ≡ true)
    ↔ ((◌≢◌ {A = String} "c2" "") × (IsNamed synced "c2" ⊎ IsOvertaken synced (some 9)))
observes_iff_example = observes_iff synced "c2" (some 9)

rolled_back_ok : (do_rollback world updater start).0 ≡ ok tt
unfolding checked
rolled_back_ok = refl

do_rollback-IsGivenUp_example : IsGivenUp "v2" (do_rollback world updater start).1.status
do_rollback-IsGivenUp_example = do_rollback-IsGivenUp world updater start rolled_back_ok

-- The watched tag was rolled back, and then the reconcile writes what it selects from the other tags.
reconcile_found-IsAccounted_example :
    IsAccounted updater start (reconcile_found world "shop/web" updater start).1
reconcile_found-IsAccounted_example = reconcile_found-IsAccounted world updater "shop/web" start

-- The application is gone.
abbrev dark : Env
dark = record world { get_application = λ k namespace name. err "not found" }

unread :
    (argo_cd_app_state dark (revision_observer updater) start).0
    ≡ err "get application argocd/web: not found"
unfolding checked
unread = refl

check_health_unreadable_example :
    ((check_health_and_maybe_rollback dark updater start).0 ≡ ok poll_again)
    × (watch_of (check_health_and_maybe_rollback dark updater start).1.status
        ≡ watch_of start.status)
check_health_unreadable_example =
    check_health_unreadable dark updater start "get application argocd/web: not found" unread

-- The watch was armed at the clock's first instant, and now it is a day later.
abbrev tomorrow : Env
tomorrow = record world { now = λ k. clock + 86_400_000_000_000 }

-- ArgoCD names another commit, and no rollout began after the push.
abbrev waiting : State
waiting = record start {
  status = record start.status {
    watching_commit = "c9";
    watching_armed_at = some clock;
    watching_since = none;
  };
}

answered :
    (observer : ArgoCdState) × ((argo_cd_app_state tomorrow (revision_observer updater) waiting).0
      ≡ ok observer)
unfolding checked
answered = (_, refl)

unseen : observes answered.0 waiting.status.watching_commit waiting.status.watching_armed_at ≡ false
unfolding checked answered
unseen = refl

late :
    deadline_exceeded waiting.status.watching_armed_at
      (tomorrow.now (behind_reading tomorrow updater waiting).calls)
      (rollback_timeout updater)
    ≡ true
unfolding checked
late = refl

check_health_unobserved-IsAbandoned_example :
    IsAbandoned waiting (check_health_and_maybe_rollback tomorrow updater waiting).1
check_health_unobserved-IsAbandoned_example =
    check_health_unobserved-IsAbandoned tomorrow updater answered.0 waiting answered.1 refl unseen
      late
