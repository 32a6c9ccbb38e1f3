-- ===== src/Controller/Select/Unskipped.antt =====
-- What `select_release` selects.
use argocd_tag_updater.Base.{
  ◌≡◌, ◌∙◌, ap, refl, sym, String, Option, none, some, List, Result, ok, err, ok_injective, stop,
  attempt, lift, gets, return, on_result, on_option, ◌>>=◌, ◌>>◌, Member,
}
use mathlib.Core.Path.{subst}
use argocd_tag_updater.Base.Flow.Success.{bind_ok, Stops, Stops-stop, Stops-bind, stops_rules}
use argocd_tag_updater.Api.{TagUpdater}
use argocd_tag_updater.Matcher
use argocd_tag_updater.Matcher.{Match, Matcher, latest}
use argocd_tag_updater.Matcher.Sort.{IsSortSlice}
use argocd_tag_updater.Matcher.Latest.{latest-IsMatchOf}
use argocd_tag_updater.Sources.{Source}
use argocd_tag_updater.Controller.Env.{Env, State, Go, put_condition}
use argocd_tag_updater.Controller.Effects.Kept.{IsKept, kept}
use argocd_tag_updater.Controller.Effects.Rules.{Allows}
use argocd_tag_updater.Controller.Effects.Lookups.{Respects-list_tags}
use argocd_tag_updater.Controller.Conditions.{set_failed_before_write_back}
use argocd_tag_updater.Controller.Outcome.{Outcome, before_write_back, fail}
use argocd_tag_updater.Controller.Release.{list_tags}
use argocd_tag_updater.Controller.Select.{select_release, no_matching_tags}
use argocd_tag_updater.Controller.Skips.{filter_skipped, Member-filter_skipped}

Stops-no_matching_tags :
    {A : Type 0} (env : Env) (key : String) (tu : TagUpdater)
    → Stops (no_matching_tags env key tu {A = A})
unfolding no_matching_tags
Stops-no_matching_tags env key tu = search stops_rules depth 20

before_write_back_ok :
    {A : Type 0} (env : Env) (key : String) (tu : TagUpdater) (m : Go A) (s : State) {a : A}
    → (before_write_back env key tu m s).0 ≡ ok a
    → ((m s).0 ≡ ok a) × ((before_write_back env key tu m s).1 ≡ (m s).1)
unfolding before_write_back attempt ◌>>=◌
before_write_back_ok {A = A} env key tu m s {a} h = go (m s).0 refl h
  where
    go :
        (r : Result String A)
        → (m s).0 ≡ r
        → (on_result r
            (return {E = Outcome})
            (λ cause. set_failed_before_write_back env key cause >> stop (fail cause))
            (m s).1).0
          ≡ ok a
        → ((m s).0 ≡ ok a)
          × ((on_result r
                (return {E = Outcome})
                (λ cause. set_failed_before_write_back env key cause >> stop (fail cause))
                (m s).1).1
              ≡ (m s).1)
    go (ok b) e h = (rw (← ok_injective h) e, refl)
    go (err cause) e h =
        absurd
          ((Stops-bind (set_failed_before_write_back env key cause) _ (λ t. Stops-stop _)).at _ _ h)

-- The selected release: the latest match of the tags that were listed and that no rollback ruled out.
pub record IsSelected (env : Env) (tu : TagUpdater) (src : Source) (s : State) (found : Match)
    : Type 0 where
  pub tags : List String
  pub listed : (list_tags env src s).0 ≡ ok tags
  pub matcher : Matcher
  pub compiled : Matcher.new env.compile env.quote tu.spec.source.tag_pattern ≡ ok matcher
  pub chosen :
      latest env.sort_slice matcher (filter_skipped tags s.status.skipped_tags) ≡ some found

chosen_some :
    (env : Env) (key : String) (tu : TagUpdater) (o : Option Match) (s : State) (found : Match)
    → (on_option o (no_matching_tags env key tu) return s).0 ≡ ok found
    → o ≡ some found
unfolding on_option return
chosen_some env key tu none s found h = absurd ((Stops-no_matching_tags env key tu).at s found h)
chosen_some env key tu (some x) s found h = ap some (ok_injective h)

keeps_skipped : (env : Env) → Allows env (IsKept (λ st. st.skipped_tags))
unfolding put_condition
keeps_skipped env = kept env (λ st. st.skipped_tags) (λ c st. refl)

selected :
    (env : Env) (key : String) (tu : TagUpdater) (src : Source) (s : State) (found : Match)
    → (select_release env key tu src s).0 ≡ ok found
    → IsSelected env tu src s found
unfolding select_release lift gets
selected env key tu src s found h =
    let (tags, tags_ok, h, _) = bind_ok (before_write_back env key tu (list_tags env src)) _ s h in
    let (listed, same) = before_write_back_ok env key tu (list_tags env src) s tags_ok in
    let (m, m_ok, h, _) =
      bind_ok
        (before_write_back env key tu
          (lift (Matcher.new env.compile env.quote tu.spec.source.tag_pattern)))
        _ _ h in
    let (compiled, same') =
      before_write_back_ok env key tu
        (lift (Matcher.new env.compile env.quote tu.spec.source.tag_pattern)) _ m_ok in
    let (skipped, e, h, _) = bind_ok (gets (λ s. s.status.skipped_tags)) _ _ h in
    let unread : skipped ≡ s.status.skipped_tags =
      sym (ok_injective e)
      ∙ ap (λ (t : State). t.status.skipped_tags) (same' ∙ same)
      ∙ (Respects-list_tags (keeps_skipped env) src).at s in
    record {
      tags = tags;
      listed = listed;
      matcher = m;
      compiled = compiled;
      chosen =
          subst (λ k. latest env.sort_slice m (filter_skipped tags k) ≡ some found) unread
            (chosen_some env key tu (latest env.sort_slice m (filter_skipped tags skipped)) _ found
              h);
    }

-- A release that is selected is one of the tags that the source listed, the latest match of those that
-- no rollback ruled out, and no ruled-out tag itself. The sort is one that keeps the contract of
-- `sort.Slice`.
pub select_release-IsSelected :
    (env : Env) (key : String) (tu : TagUpdater) (src : Source) (s : State) (found : Match)
    → IsSortSlice env.sort_slice
    → (select_release env key tu src s).0 ≡ ok found
    → IsSelected env tu src s found × ¬ Member found.tag s.status.skipped_tags
select_release-IsSelected env key tu src s found S h =
    let chosen = selected env key tu src s found h in
    let among = latest-IsMatchOf env.sort_slice S chosen.matcher _ found chosen.chosen in
    (chosen, ((Member-filter_skipped chosen.tags s.status.skipped_tags found.tag).0 among.0).1)
