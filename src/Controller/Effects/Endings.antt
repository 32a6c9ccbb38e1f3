-- ===== src/Controller/Effects/Endings.antt =====
-- The conditions that end a reconcile.
use argocd_tag_updater.Base.{String}
use argocd_tag_updater.Base.Flow.Respects.{Respects, respects_rules}
use argocd_tag_updater.Api.{TagUpdater}
use argocd_tag_updater.Controller.Env.{Env, State, Go}
use argocd_tag_updater.Controller.Effects.Rules.{Allows, effect_rules}
use argocd_tag_updater.Controller.Conditions.{
  try_update_status, set_stalled, mark_reconcile_succeeded, set_write_back_not_attempted,
  set_failed, set_failed_before_write_back,
}
use argocd_tag_updater.Controller.Outcome.{refuse, before_write_back}

module _ {env : Env} {R : State → State → Type 0} (L : Allows env R) where
  pub Respects-try_update_status : {E : Type 0} → Respects R (try_update_status env {E = E})
  unfolding try_update_status
  Respects-try_update_status = search (respects_rules, effect_rules, L.preorder) depth 30

  pub Respects-set_stalled : {E : Type 0} (key : String) → Respects R (set_stalled env key {E = E})
  unfolding set_stalled
  Respects-set_stalled key = search (respects_rules, effect_rules, L.preorder) depth 30

  pub Respects-mark_reconcile_succeeded :
      {E : Type 0} (key : String) → Respects R (mark_reconcile_succeeded env key {E = E})
  unfolding mark_reconcile_succeeded
  Respects-mark_reconcile_succeeded key =
      search
        (
          respects_rules, effect_rules, L.preorder, L.progresses, Respects-set_stalled,
          Respects-try_update_status,
        )
        depth 30

  pub Respects-set_write_back_not_attempted :
      {E : Type 0} (key cause : String)
      → Respects R (set_write_back_not_attempted env key {E = E} cause)
  unfolding set_write_back_not_attempted
  Respects-set_write_back_not_attempted key cause =
      search (respects_rules, effect_rules, L.preorder) depth 30

  pub Respects-set_failed :
      {E : Type 0} (key cause : String) → Respects R (set_failed env key {E = E} cause)
  unfolding set_failed
  Respects-set_failed key cause =
      search
        (respects_rules, effect_rules, L.preorder, Respects-set_stalled, Respects-try_update_status)
        depth 30

  pub Respects-set_failed_before_write_back :
      {E : Type 0} (key cause : String)
      → Respects R (set_failed_before_write_back env key {E = E} cause)
  unfolding set_failed_before_write_back
  Respects-set_failed_before_write_back key cause =
      search
        (
          respects_rules, effect_rules, L.preorder, Respects-set_write_back_not_attempted,
          Respects-set_failed,
        )
        depth 30

  pub Respects-refuse :
      {A : Type 0} (key : String) (tu : TagUpdater) (condition reason message : String)
      → Respects R (refuse env key tu {A = A} condition reason message)
  unfolding refuse
  Respects-refuse key tu condition reason message =
      search (respects_rules, effect_rules, L.preorder, Respects-try_update_status) depth 30

  pub Respects-before_write_back :
      {A : Type 0} (key : String) (tu : TagUpdater) (m : Go A)
      → Respects R m
      → Respects R (before_write_back env key tu m)
  unfolding before_write_back
  Respects-before_write_back key tu m allowed =
      search (respects_rules, effect_rules, L.preorder, Respects-set_failed_before_write_back) depth
        30

pub ruleset ending_rules = (
  Respects-try_update_status, Respects-set_stalled, Respects-mark_reconcile_succeeded,
  Respects-set_write_back_not_attempted, Respects-set_failed, Respects-set_failed_before_write_back,
  Respects-refuse, Respects-before_write_back,
)
