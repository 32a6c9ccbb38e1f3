-- ===== src/Controller/Rollback/GivesUp.antt =====
-- What a rollback that succeeds leaves behind.
use argocd_tag_updater.Base.{◌≡◌, ◌∙◌, ap, refl, inr, String, ok, Member, ◌==◌, ◌||◌, ◌>>=◌}
use argocd_tag_updater.Base.Dict.{value}
use argocd_tag_updater.Base.Time.{Time}
use argocd_tag_updater.Base.Flow.Respects.{respects_rules}
use argocd_tag_updater.Base.Flow.Gains.{Gains, Outlasts, Gains-then, Gains-first, Gains-branch}
use argocd_tag_updater.Api.{TagUpdater, TagUpdaterStatus}
use argocd_tag_updater.Controller.Env.{Env, State, put_condition, set_status}
use argocd_tag_updater.Controller.Effects.Rules.{Allows, Respects-apply, effect_rules}
use argocd_tag_updater.Controller.Effects.Lookups.{lookup_rules}
use argocd_tag_updater.Controller.Effects.Watch.{Respects-previous_fields}
use argocd_tag_updater.Controller.Rollback.{
  clear_watch, give_up_tag, rolled_back, rollback_unavailable, rollback_to, do_rollback,
}
use argocd_tag_updater.Controller.Skips.{Member-append_unique}

-- The tag is ruled out, and no tag is watched.
pub record IsGivenUp (bad : String) (st : TagUpdaterStatus) : Type 0 where
  pub ruled_out : Member bad st.skipped_tags
  pub unwatched : (st.watching_tag ≡ "") × (st.watching_commit ≡ "")

-- What `IsGivenUp` reads.
record IsSame (s t : State) : Type 0 where
  skipped : t.status.skipped_tags ≡ s.status.skipped_tags
  tag : t.status.watching_tag ≡ s.status.watching_tag
  commit : t.status.watching_commit ≡ s.status.watching_commit

abbrev same : {s t : State} → t.status ≡ s.status → IsSame s t
same e = record {
  skipped = ap (λ (st : TagUpdaterStatus). st.skipped_tags) e;
  tag = ap (λ (st : TagUpdaterStatus). st.watching_tag) e;
  commit = ap (λ (st : TagUpdaterStatus). st.watching_commit) e;
}

keeping : (env : Env) → Allows env IsSame
unfolding put_condition
keeping env = record {
  preorder = record {
    reflexive = λ s. same refl;
    transitive = λ s t u p q. record {
      skipped = q.skipped ∙ p.skipped;
      tag = q.tag ∙ p.tag;
      commit = q.commit ∙ p.commit;
    };
  };
  ticks = λ s. same refl;
  saves = λ s. same refl;
  tells = λ s events. same refl;
  judges = λ s c. record { skipped = refl; tag = refl; commit = refl };
  progresses = λ s p. same refl;
  tries_rev = λ s n. same refl;
  finds_rev = λ s n. same refl;
}

-- Steps before a tag is given up do not matter, and those behind keep it so.
lasting : (bad : String) → Outlasts IsSame (λ s t. IsGivenUp bad t.status)
lasting bad = record {
  before = λ s t u p q. q;
  after = λ s t u q p. record {
    ruled_out = rw p.skipped q.ruled_out;
    unwatched = (p.tag ∙ q.unwatched.0, p.commit ∙ q.unwatched.1);
  };
}

gives_up : (bad : String) (st : TagUpdaterStatus) → IsGivenUp bad (give_up_tag bad st)
unfolding give_up_tag clear_watch
gives_up bad st = record {
  ruled_out = (Member-append_unique st.skipped_tags bad bad).1 (inr refl);
  unwatched = (refl, refl);
}

rolls_back :
    (tu : TagUpdater) (bad previous digest commit : String) (now : Time) (st : TagUpdaterStatus)
    → IsGivenUp bad (rolled_back tu bad previous digest commit now st)
unfolding rolled_back clear_watch
rolls_back tu bad previous digest commit now st = record {
  ruled_out = (Member-append_unique st.skipped_tags bad bad).1 (inr refl);
  unwatched = (refl, refl);
}

Gains-set_status :
    {E : Type 0} (bad : String) (f : TagUpdaterStatus → TagUpdaterStatus)
    → ((st : TagUpdaterStatus) → IsGivenUp bad (f st))
    → Gains (λ s t. IsGivenUp bad t.status) (set_status {E = E} f)
unfolding set_status
Gains-set_status bad f h = record { at = λ s a e. h s.status }

module _ (env : Env) (tu : TagUpdater) where
  L : Allows env IsSame
  L = keeping env

  Gains-rollback_unavailable :
      (bad : String) → Gains (λ s t. IsGivenUp bad t.status) (rollback_unavailable env tu bad)
  unfolding rollback_unavailable
  Gains-rollback_unavailable bad =
      Gains-first (lasting bad) _ _ (Gains-set_status bad (give_up_tag bad) (gives_up bad))
        (λ done. search (respects_rules, effect_rules, L, L.preorder) depth 30)

  Gains-rollback_to :
      (bad previous : String)
      → Gains (λ s t. IsGivenUp bad t.status) (rollback_to env tu bad previous)
  unfolding rollback_to
  Gains-rollback_to bad previous =
      Gains-then (lasting bad) _ _ (Respects-previous_fields L tu previous) (λ fields.
        Gains-then (lasting bad) _ _ (search (lookup_rules, L)) (λ credentials.
          Gains-then (lasting bad) _ _ (Respects-apply L _ (λ s. same refl)) (λ result.
            Gains-then (lasting bad) _ _ (search (effect_rules, L)) (λ now.
              Gains-first (lasting bad) _ _
                (Gains-set_status bad _
                  (rolls_back tu bad previous (value "image_digest" fields) result.commit_sha now))
                (λ done. search (respects_rules, effect_rules, L, L.preorder) depth 30)))))

-- A rollback that returns without an error, whether or not there was a tag to go back to, has ruled out
-- the watched tag and ended its watch.
pub do_rollback-IsGivenUp :
    (env : Env) (tu : TagUpdater) (s : State)
    → (do_rollback env tu s).0 ≡ ok tt
    → IsGivenUp s.status.watching_tag (do_rollback env tu s).1.status
unfolding do_rollback ◌>>=◌
do_rollback-IsGivenUp env tu s h =
    (Gains-branch (lasting s.status.watching_tag)
        (s.status.previous_tag == "" || s.status.previous_tag == s.status.watching_tag) _ _
        (Gains-rollback_unavailable env tu s.status.watching_tag)
        (Gains-rollback_to env tu s.status.watching_tag s.status.previous_tag)).at
      s tt h
