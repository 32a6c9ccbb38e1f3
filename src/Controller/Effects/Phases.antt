-- ===== src/Controller/Effects/Phases.antt =====
-- A whole reconcile, given the health check and the release phase.
use argocd_tag_updater.Base.{String}
use argocd_tag_updater.Base.Flow.Respects.{Respects, respects_rules}
use argocd_tag_updater.Api.{TagUpdater}
use argocd_tag_updater.Controller.Env.{Env, State}
use argocd_tag_updater.Controller.Effects.Rules.{Allows, effect_rules}
use argocd_tag_updater.Controller.Effects.Lookups.{lookup_rules}
use argocd_tag_updater.Controller.Effects.Endings.{ending_rules}
use argocd_tag_updater.Controller.Effects.Guards.{
  Respects-check_digest_source, Respects-check_rollback_app, Respects-watch_phase,
  Respects-check_write_back, Respects-check_ownership,
}
use argocd_tag_updater.Controller.Health.{check_health_and_maybe_rollback}
use argocd_tag_updater.Controller.Guards.{watch_phase}
use argocd_tag_updater.Controller.Reconcile.{release_phase, reconcile_found}

module _ {env : Env} {R : State → State → Type 0} (L : Allows env R) (tu : TagUpdater)
    (key : String) (health : Respects R (check_health_and_maybe_rollback env tu))
    (release : Respects R (release_phase env key tu)) where
  watching : Respects R (watch_phase env key tu)
  watching = Respects-watch_phase L tu key health

  releasing : Respects R (release_phase env key tu)
  releasing = release

  pub Respects-reconcile_found : Respects R (reconcile_found env key tu)
  unfolding reconcile_found
  Respects-reconcile_found =
      search
        (
          respects_rules, effect_rules, lookup_rules, ending_rules, L, L.preorder, L.progresses,
          Respects-check_digest_source, Respects-check_rollback_app, watching,
          Respects-check_write_back, Respects-check_ownership, releasing,
        )
        depth 30
