-- ===== src/Controller/Effects/Select.antt =====
-- The choice of a release and of its fields.
use argocd_tag_updater.Base.{String}
use argocd_tag_updater.Base.Flow.Respects.{Respects, respects_rules}
use argocd_tag_updater.Api.{TagUpdater}
use argocd_tag_updater.Matcher.{Match}
use argocd_tag_updater.Sources.{Source}
use argocd_tag_updater.Controller.Env.{Env, State}
use argocd_tag_updater.Controller.Effects.Rules.{Allows, effect_rules}
use argocd_tag_updater.Controller.Effects.Lookups.{lookup_rules}
use argocd_tag_updater.Controller.Effects.Endings.{ending_rules}
use argocd_tag_updater.Controller.Select.{
  oci_basic_auth, no_matching_tags, select_release, collect_fields,
}
use argocd_tag_updater.Controller.Write.{check_digest}

module _ {env : Env} {R : State → State → Type 0} (L : Allows env R) (tu : TagUpdater)
    (key : String) where
  pub Respects-oci_basic_auth : Respects R (oci_basic_auth env key tu)
  unfolding oci_basic_auth
  Respects-oci_basic_auth =
      search (respects_rules, effect_rules, lookup_rules, ending_rules, L, L.preorder) depth 30

  pub Respects-no_matching_tags : {A : Type 0} → Respects R (no_matching_tags env key tu {A = A})
  unfolding no_matching_tags
  Respects-no_matching_tags =
      search (respects_rules, effect_rules, lookup_rules, ending_rules, L, L.preorder) depth 30

  pub Respects-select_release : (src : Source) → Respects R (select_release env key tu src)
  unfolding select_release
  Respects-select_release src =
      search
        (
          respects_rules, effect_rules, lookup_rules, ending_rules, L, L.preorder,
          Respects-no_matching_tags,
        )
        depth 30

  pub Respects-collect_fields :
      (src : Source) (release : Match) → Respects R (collect_fields env key tu src release)
  unfolding collect_fields
  Respects-collect_fields src release =
      search (respects_rules, effect_rules, lookup_rules, ending_rules, L, L.preorder) depth 30

  pub Respects-check_digest :
      (tag digest : String) → Respects R (check_digest env key tu tag digest)
  unfolding check_digest
  Respects-check_digest tag digest =
      search (respects_rules, effect_rules, lookup_rules, ending_rules, L, L.preorder) depth 30
