-- ===== src/Controller/Watch/Verdict.antt =====
-- `checkHealthAndMaybeRollback`: what must be so before it writes to git.
use argocd_tag_updater.Base.{
  ◌≡◌, ◌≢◌, ◌⊎◌, inl, inr, refl, ap, ◌∙◌, sym, ok_injective, Result, String, Bool, true, false,
  ◌&&◌, not, Option, none, some, ok, arith, ◌≤◌, ◌==◌, eq_iff, Bool-cases, ◌>>=◌, branch, on_option,
}
use mathlib.Core.Path.{subst}
use argocd_tag_updater.Base.Time.{Time, Duration}
use argocd_tag_updater.Api.{TagUpdater}
use argocd_tag_updater.Controller.Env.{
  Env, State, Go, tick, call, with_status, set_status, update_status,
}
use argocd_tag_updater.Controller.ArgoCd.{ArgoCdState, observes, argo_cd_app_state}
use argocd_tag_updater.Controller.Effects.Rules.{
  Respects-call, Respects-set_status, Respects-update_status,
}
use argocd_tag_updater.Controller.Effects.Lookups.{Respects-argo_cd_app_state}
use argocd_tag_updater.Controller.Effects.Watch.{
  Respects-finish_watch, Respects-read_failed, Respects-await_observation,
}
use argocd_tag_updater.Controller.Watch.Failure.{IsFailed, IsStarted, IsFailedRollout}
use argocd_tag_updater.Controller.Watch.Quiet.{
  quiet, quiet_watch, IsLater, later, Writes, Writes-branch, Writes-bind, Writes-attempt,
}
use argocd_tag_updater.Controller.Rollback.{rollback_timeout}
use argocd_tag_updater.Controller.Health.{
  revision_observer, deadline_exceeded, await_observation, await_health, judge_health,
  observe_health, start_clock, judge_revision, check_health_and_maybe_rollback,
}

failed_test : (b c : Bool) → b && not c ≡ true → (b ≡ true) × (c ≡ false)
failed_test b c h = ground arith

differs : (a b : String) → a == b ≡ false → a ≢ b
differs a b h = ground (arith, eq_iff a b)

branch_true : {A : Type 0} (b : Bool) (m n : Go A) (s : State) → b ≡ true → branch b m n s ≡ m s
unfolding branch
branch_true b m n s e = rw e refl

module _ (env : Env) (tu : TagUpdater) where
  Writes-await_health :
      (s : State)
      → Writes (await_health env tu) s
      → deadline_exceeded s.status.watching_since (env.now s.calls) (rollback_timeout tu) ≡ true
  unfolding await_health ◌>>=◌ call
  Writes-await_health s w =
      elim (Bool-cases
        (deadline_exceeded s.status.watching_since (env.now s.calls) (rollback_timeout tu))) [
          | inl late ↦ late
          | inr early ↦ absurd (w (rw (early) refl))
        ]

  Writes-judge_health :
      (app : ArgoCdState) (s : State)
      → Writes (judge_health env tu app) s
      → IsFailed env tu app s.status.watching_since s
  unfolding judge_health
  Writes-judge_health app s w = elim (Writes-branch _ _ _ s w) [
    | inl (healthy, w) ↦ absurd (w ((Respects-finish_watch (quiet env) tu quiet_watch).at s))
    | inr (unhealthy, w) ↦ elim (Writes-branch _ _ _ s w) [
      | inl (degraded, w) ↦ record {
        unhealthy = differs _ _ unhealthy;
        cause = let (p, q) = failed_test _ _ degraded in inl ((eq_iff _ _).0 p, q);
      }
      | inr (_, w) ↦ record {
        unhealthy = differs _ _ unhealthy;
        cause = inr (Writes-await_health s w);
      }
    ]
  ]

  -- A reading of the application, and what was made of it.
  record IsFailedReading (before : State) : Type 0 where
    app : ArgoCdState
    app_read : (argo_cd_app_state env tu.spec.argo_cd_app before).0 ≡ ok app
    failed :
        IsFailed env tu app before.status.watching_since
          (argo_cd_app_state env tu.spec.argo_cd_app before).1

  Writes-observe_health : (s : State) → Writes (observe_health env tu) s → IsFailedReading s
  unfolding observe_health
  Writes-observe_health s w =
      let reading =
        Writes-attempt _ _ _ s (Respects-argo_cd_app_state (quiet env) _)
          (Respects-read_failed (quiet env) tu false) w in
      let read : IsLater s _ = (Respects-argo_cd_app_state (later env) tu.spec.argo_cd_app).at s in
      record {
        app = reading.value;
        app_read = reading.returned;
        failed =
            subst
              (λ since.
                IsFailed env tu reading.value since (argo_cd_app_state env tu.spec.argo_cd_app s).1)
              read.since (Writes-judge_health reading.value _ reading.writes);
      }

  -- The rest of the check ended with a failed reading, whose clock ran before or was started.
  record IsFailedEnd (ended : Result String Duration × State) (s : State) : Type 0 where
    before : State
    ends : ended ≡ observe_health env tu before
    not_before : s.calls ≤ before.calls
    clock :
        ((s.status.watching_since ≢ none)
          × (before.status.watching_since ≡ s.status.watching_since))
        ⊎ IsStarted env s before
    failed : IsFailedReading before

  Writes-start_clock :
      (s : State)
      → s.status.watching_since ≡ none
      → Writes (start_clock env tu) s
      → IsFailedEnd (start_clock env tu s) s
  unfolding start_clock call set_status
  Writes-start_clock s unset w =
      let now = Writes-bind (call env.now) _ s (Respects-call (quiet env) env.now) w in
      let started =
        Writes-bind (set_status (λ st. record st { watching_since = some now.value })) _ (tick s)
          (Respects-set_status _ (λ s. refl)) now.writes in
      let s' = with_status (λ st. record st { watching_since = some now.value }) (tick s) in
      let saving =
        Writes-bind (update_status env) _ s' (Respects-update_status (quiet env)) started.writes in
      let saved : IsLater s' _ = (Respects-update_status (later env)).at s' in
      record {
        before = _;
        ends = now.goes_on ∙ started.goes_on ∙ saving.goes_on;
        not_before = omega (arith, saved.calls);
        clock = inr (record {
          unset = unset;
          instant = s.calls;
          not_before = omega arith;
          not_after = omega (arith, saved.calls);
          since = saved.since ∙ ap some (sym (ok_injective now.returned));
        });
        failed = Writes-observe_health _ saving.writes;
      }

  -- The commit is observed in the state `s`, or was before, and the check ends with a failed reading.
  record IsFailedCommit (observer : ArgoCdState) (s : State) : Type 0 where
    observed :
        (s.status.watching_since ≢ none)
        ⊎ (observes observer s.status.watching_commit s.status.watching_armed_at ≡ true)
    end : IsFailedEnd (judge_revision env tu observer s) s

  Writes-judge_revision :
      (observer : ArgoCdState) (s : State)
      → Writes (judge_revision env tu observer) s
      → IsFailedCommit observer s
  unfolding judge_revision ◌>>=◌
  Writes-judge_revision observer s w = go _ refl w
    where
      seen : Bool
      seen = observes observer s.status.watching_commit s.status.watching_armed_at

      judged : Option Time → Go Duration
      judged since =
          on_option since (branch seen (start_clock env tu) (await_observation env tu))
            (λ since. observe_health env tu)

      go :
          (since : Option Time)
          → s.status.watching_since ≡ since
          → Writes (judged since) s
          → IsFailedCommit observer s
      go (some since) e w = record {
        observed = inl (λ p. ground (arith, e, p));
        end = record {
          before = s;
          ends = ap (λ since. judged since s) e;
          not_before = omega arith;
          clock = inl (λ p. ground (arith, e, p), refl);
          failed = Writes-observe_health s w;
        };
      }
      go none e w = elim (Writes-branch seen (start_clock env tu) (await_observation env tu) s w) [
        | inl (observed, w) ↦
            let end = Writes-start_clock s e w in
            record {
              observed = inr observed;
              end = record {
                before = end.before;
                ends =
                    ap (λ since. judged since s) e
                    ∙ branch_true seen (start_clock env tu) (await_observation env tu) s observed
                    ∙ end.ends;
                not_before = end.not_before;
                clock = end.clock;
                failed = end.failed;
              };
            }
        | inr (_, w) ↦ absurd (w ((Respects-await_observation (quiet env) tu quiet_watch).at s))
      ]

  failed_rollout :
      (s t : State) (observer : ArgoCdState)
      → (argo_cd_app_state env (revision_observer tu) s).0 ≡ ok observer
      → check_health_and_maybe_rollback env tu s ≡ judge_revision env tu observer t
      → IsLater s t
      → IsFailedCommit observer t
      → IsFailedRollout env tu s
  failed_rollout s t observer observer_read goes_on read found = record {
    observer = observer;
    observer_read = observer_read;
    observed = elim found.observed [
      | inl started ↦ inl (λ p. started (read.since ∙ p))
      | inr seen ↦ inr (rw (sym read.commit, sym read.armed_at) seen)
    ];
    before = found.end.before;
    ends = goes_on ∙ found.end.ends;
    later = omega (arith, read.calls, found.end.not_before);
    clock = elim found.end.clock [
      | inl (running, same) ↦ inl (λ p. running (read.since ∙ p), same ∙ read.since)
      | inr fresh ↦ inr (record {
        unset = sym read.since ∙ fresh.unset;
        instant = fresh.instant;
        not_before = omega (arith, read.calls, fresh.not_before);
        not_after = fresh.not_after;
        since = fresh.since;
      })
    ];
    app = found.end.failed.app;
    app_read = found.end.failed.app_read;
    failed = found.end.failed.failed;
  }

-- If the health check of a watched tag calls the writer, then the revision observer was read; it had
-- the watched commit, now or before; and the check ends with a reading of the watched application that
-- found it failed: not healthy, and degraded with no sync under way or past the timeout. The timeout
-- runs from the recorded time, or, where none was, from an instant that the clock gave in this check.
pub check_health_and_maybe_rollback-IsFailedRollout :
    (env : Env) (tu : TagUpdater) (s : State)
    → (check_health_and_maybe_rollback env tu s).1.writes ≢ s.writes
    → IsFailedRollout env tu s
unfolding check_health_and_maybe_rollback
check_health_and_maybe_rollback-IsFailedRollout env tu s w =
    let reading =
      Writes-attempt _ _ _ s (Respects-argo_cd_app_state (quiet env) _)
        (Respects-read_failed (quiet env) tu true) w in
    failed_rollout env tu s _ reading.value reading.returned reading.goes_on
      ((Respects-argo_cd_app_state (later env) _).at s)
      (Writes-judge_revision env tu reading.value _ reading.writes)
