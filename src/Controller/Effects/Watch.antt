-- ===== src/Controller/Effects/Watch.antt =====
-- The health check and the rollback.
use argocd_tag_updater.Base.{some, String, Bool}
use argocd_tag_updater.Base.Time.{Time}
use argocd_tag_updater.Base.Flow.Respects.{
  Respects-bind, Respects-branch, Respects-attempt, Respects-on_result, Respects, respects_rules,
}
use argocd_tag_updater.Api.{TagUpdater}
use argocd_tag_updater.Controller.Env.{Env, State, with_status}
use argocd_tag_updater.Controller.ArgoCd.{ArgoCdState}
use argocd_tag_updater.Controller.Effects.Rules.{Allows, effect_rules}
use argocd_tag_updater.Controller.Effects.Lookups.{lookup_rules}
use argocd_tag_updater.Controller.Effects.Endings.{ending_rules}
use argocd_tag_updater.Controller.Rollback.{
  clear_watch, give_up_tag, rollback_unavailable, previous_fields, rollback_to, do_rollback,
  rollback_failed, rollback_with_status,
}
use argocd_tag_updater.Controller.Health.{
  deployment_healthy, abandon_watch, read_failed, await_observation, finish_watch, await_health,
  judge_health, observe_health, start_clock, judge_revision, check_health_and_maybe_rollback,
}

-- The relation allows what the watch of a tag may do to the status, short of a rollback.
pub record AllowsWatch (R : State → State → Type 0) : Type 0 where
  pub clears : (s : State) → R s (with_status clear_watch s)
  pub recovers : (s : State) → R s (with_status deployment_healthy s)
  pub starts :
      (now : Time) (s : State) → R s (with_status (λ st. record st { watching_since = some now }) s)

module _ {env : Env} {R : State → State → Type 0} (L : Allows env R) (tu : TagUpdater)
    (V : AllowsWatch R) where
  pub Respects-abandon_watch : Respects R (abandon_watch env tu)
  unfolding abandon_watch
  Respects-abandon_watch =
      search (respects_rules, effect_rules, lookup_rules, ending_rules, L, L.preorder, V.clears)
        depth 30

  pub Respects-await_observation : Respects R (await_observation env tu)
  unfolding await_observation
  Respects-await_observation =
      search
        (
          respects_rules, effect_rules, lookup_rules, ending_rules, L, L.preorder,
          Respects-abandon_watch,
        )
        depth 30

  pub Respects-finish_watch : Respects R (finish_watch env tu)
  unfolding finish_watch
  Respects-finish_watch =
      search (respects_rules, effect_rules, lookup_rules, ending_rules, L, L.preorder, V.recovers)
        depth 30

module _ {env : Env} {R : State → State → Type 0} (L : Allows env R) (tu : TagUpdater) where
  pub Respects-read_failed :
      (with_event : Bool) (message : String) → Respects R (read_failed env tu with_event message)
  unfolding read_failed
  Respects-read_failed with_event message =
      search (respects_rules, effect_rules, lookup_rules, ending_rules, L, L.preorder) depth 30

  pub Respects-previous_fields : (previous : String) → Respects R (previous_fields env tu previous)
  unfolding previous_fields
  Respects-previous_fields previous =
      search (respects_rules, effect_rules, lookup_rules, ending_rules, L, L.preorder) depth 30

  pub Respects-rollback_unavailable :
      (bad : String)
      → ((s : State) → R s (with_status (give_up_tag bad) s))
      → Respects R (rollback_unavailable env tu bad)
  unfolding rollback_unavailable
  Respects-rollback_unavailable bad allowed =
      search (respects_rules, effect_rules, lookup_rules, ending_rules, L, L.preorder, allowed)
        depth 30

  pub Respects-rollback_failed : (message : String) → Respects R (rollback_failed env tu message)
  unfolding rollback_failed
  Respects-rollback_failed message =
      search (respects_rules, effect_rules, lookup_rules, ending_rules, L, L.preorder) depth 30

-- Given that the relation allows a tag to be ruled out, and the way back to the previous tag.
module _ {env : Env} {R : State → State → Type 0} (L : Allows env R) (tu : TagUpdater)
    (gives_up : (bad : String) (s : State) → R s (with_status (give_up_tag bad) s))
    (going_back : (bad previous : String) → Respects R (rollback_to env tu bad previous)) where
  pub Respects-do_rollback : Respects R (do_rollback env tu)
  unfolding do_rollback
  Respects-do_rollback = Respects-bind L.preorder _ _ (search (respects_rules, L.preorder)) (λ bad.
      Respects-bind L.preorder _ _ (search (respects_rules, L.preorder)) (λ previous.
        Respects-branch _ _ _ (λ e. Respects-rollback_unavailable L tu bad (gives_up bad))
          (λ e. going_back bad previous)))

  pub Respects-rollback_with_status : Respects R (rollback_with_status env tu)
  unfolding rollback_with_status
  Respects-rollback_with_status =
      Respects-bind L.preorder _ _ (Respects-attempt _ Respects-do_rollback) (λ outcome.
        Respects-on_result outcome _ _ (λ done e. search (respects_rules, L.preorder))
          (λ message e. Respects-rollback_failed L tu message))

module _ {env : Env} {R : State → State → Type 0} (L : Allows env R) (tu : TagUpdater)
    (V : AllowsWatch R) (rolling_back : Respects R (rollback_with_status env tu)) where
  given : Respects R (rollback_with_status env tu)
  given = rolling_back

  finishing : Respects R (finish_watch env tu)
  finishing = Respects-finish_watch L tu V

  awaiting : Respects R (await_observation env tu)
  awaiting = Respects-await_observation L tu V

  reading_failed :
      (with_event : Bool) (message : String) → Respects R (read_failed env tu with_event message)
  reading_failed = Respects-read_failed L tu

  pub Respects-await_health : Respects R (await_health env tu)
  unfolding await_health
  Respects-await_health =
      search (respects_rules, effect_rules, lookup_rules, ending_rules, L, L.preorder, given) depth
        30

  pub Respects-judge_health : (state : ArgoCdState) → Respects R (judge_health env tu state)
  unfolding judge_health
  Respects-judge_health state =
      search
        (
          respects_rules, effect_rules, lookup_rules, ending_rules, L, L.preorder, given, finishing,
          Respects-await_health,
        )
        depth 30

  pub Respects-observe_health : Respects R (observe_health env tu)
  unfolding observe_health
  Respects-observe_health =
      search
        (
          respects_rules, effect_rules, lookup_rules, ending_rules, L, L.preorder,
          Respects-judge_health, reading_failed,
        )
        depth 30

  pub Respects-start_clock : Respects R (start_clock env tu)
  unfolding start_clock
  Respects-start_clock =
      search
        (
          respects_rules, effect_rules, lookup_rules, ending_rules, L, L.preorder,
          Respects-observe_health, V.starts,
        )
        depth 30

  pub Respects-judge_revision : (state : ArgoCdState) → Respects R (judge_revision env tu state)
  unfolding judge_revision
  Respects-judge_revision state =
      search
        (
          respects_rules, effect_rules, lookup_rules, ending_rules, L, L.preorder,
          Respects-start_clock, Respects-observe_health, awaiting,
        )
        depth 30

  pub Respects-check_health_and_maybe_rollback : Respects R (check_health_and_maybe_rollback env tu)
  unfolding check_health_and_maybe_rollback
  Respects-check_health_and_maybe_rollback =
      search
        (
          respects_rules, effect_rules, lookup_rules, ending_rules, L, L.preorder,
          Respects-judge_revision, reading_failed,
        )
        depth 30
