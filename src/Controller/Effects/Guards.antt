-- ===== src/Controller/Effects/Guards.antt =====
-- The checks ahead of a release.
use argocd_tag_updater.Base.{String}
use argocd_tag_updater.Base.Time.{Duration}
use argocd_tag_updater.Base.Flow.Respects.{
  Respects, respects_rules, Respects-bind, Respects-when, Respects-map_error,
}
use argocd_tag_updater.Api.{TagUpdater}
use argocd_tag_updater.Controller.Env.{Env, State}
use argocd_tag_updater.Controller.Effects.Rules.{Allows, effect_rules}
use argocd_tag_updater.Controller.Effects.Lookups.{lookup_rules}
use argocd_tag_updater.Controller.Effects.Endings.{ending_rules}
use argocd_tag_updater.Controller.Health.{check_health_and_maybe_rollback}
use argocd_tag_updater.Controller.Guards.{
  check_digest_source, check_rollback_app, continue_watch, watch_phase, refuse_write_back,
  check_write_back, check_ownership,
}

module _ {env : Env} {R : State → State → Type 0} (L : Allows env R) (tu : TagUpdater)
    (key : String) where
  pub Respects-check_digest_source : Respects R (check_digest_source env key tu)
  unfolding check_digest_source
  Respects-check_digest_source =
      search (respects_rules, effect_rules, lookup_rules, ending_rules, L, L.preorder) depth 30

  pub Respects-check_rollback_app : Respects R (check_rollback_app env key tu)
  unfolding check_rollback_app
  Respects-check_rollback_app =
      search (respects_rules, effect_rules, lookup_rules, ending_rules, L, L.preorder) depth 30

  pub Respects-continue_watch : (after : Duration) → Respects R (continue_watch env key tu after)
  unfolding continue_watch
  Respects-continue_watch after =
      search (respects_rules, effect_rules, lookup_rules, ending_rules, L, L.preorder) depth 30

  pub Respects-watch_phase :
      Respects R (check_health_and_maybe_rollback env tu) → Respects R (watch_phase env key tu)
  unfolding watch_phase
  Respects-watch_phase health =
      Respects-bind L.preorder _ _ (search (respects_rules, L.preorder)) (λ watching.
        Respects-when L.preorder _ _ (λ e.
          Respects-bind L.preorder _ _ (Respects-map_error _ _ health)
            (λ after. Respects-continue_watch after)))

  pub Respects-refuse_write_back :
      (message : String) → Respects R (refuse_write_back env key tu message)
  unfolding refuse_write_back
  Respects-refuse_write_back message =
      search (respects_rules, effect_rules, lookup_rules, ending_rules, L, L.preorder) depth 30

  pub Respects-check_write_back : Respects R (check_write_back env key tu)
  unfolding check_write_back
  Respects-check_write_back =
      search
        (
          respects_rules, effect_rules, lookup_rules, ending_rules, L, L.preorder,
          Respects-refuse_write_back,
        )
        depth 30

  pub Respects-check_ownership : Respects R (check_ownership env key tu)
  unfolding check_ownership
  Respects-check_ownership =
      search (respects_rules, effect_rules, lookup_rules, ending_rules, L, L.preorder) depth 30
