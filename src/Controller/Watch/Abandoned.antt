-- ===== src/Controller/Watch/Abandoned.antt =====
-- The watch of a commit that ArgoCD does not pick up in time.
use argocd_tag_updater.Base.{
  ◌≡◌, ◌∙◌, ap, sym, refl, Option, Result, on_option, String, true, false, none, ok, return, branch,
  ◌>>=◌,
}
use mathlib.Core.Path.{subst}
use argocd_tag_updater.Base.Time.{Time, Duration}
use argocd_tag_updater.Base.Int.{pos}
use argocd_tag_updater.Base.Flow.Respects.{Respects, respects_rules}
use argocd_tag_updater.Base.Flow.Gains.{Respects-established, Respects-read}
use argocd_tag_updater.Api.{TagUpdater, TagUpdaterStatus}
use argocd_tag_updater.Controller.Env.{Env, State, tick, put_condition, call, set_status}
use argocd_tag_updater.Controller.Effects.Rules.{Allows, effect_rules}
use argocd_tag_updater.Controller.Rollback.{clear_watch, rollback_timeout}
use argocd_tag_updater.Controller.Health.{
  deadline_exceeded, revision_observer, abandon_watch, await_observation, start_clock,
  observe_health, judge_revision, check_health_and_maybe_rollback,
}
use argocd_tag_updater.Controller.ArgoCd.{ArgoCdState, observes, argo_cd_app_state}
use argocd_tag_updater.Controller.Effects.Lookups.{Respects-argo_cd_app_state}

-- The status after the watch of the first one was abandoned: nothing is watched, and the released and
-- the ruled-out tags are as before.
pub record IsAbandoned (s t : State) : Type 0 where
  pub unwatched : (t.status.watching_tag ≡ "") × (t.status.watching_commit ≡ "")
  pub released : t.status.last_tag ≡ s.status.last_tag
  pub ruled_out : t.status.skipped_tags ≡ s.status.skipped_tags
  pub unwritten : t.writes ≡ s.writes

-- What `IsAbandoned` reads is the same.
record IsSame (s t : State) : Type 0 where
  tag : t.status.watching_tag ≡ s.status.watching_tag
  commit : t.status.watching_commit ≡ s.status.watching_commit
  last : t.status.last_tag ≡ s.status.last_tag
  skipped : t.status.skipped_tags ≡ s.status.skipped_tags
  writes : t.writes ≡ s.writes

abbrev same : {s t : State} → t.status ≡ s.status → t.writes ≡ s.writes → IsSame s t
same e w = record {
  tag = ap (λ (st : TagUpdaterStatus). st.watching_tag) e;
  commit = ap (λ (st : TagUpdaterStatus). st.watching_commit) e;
  last = ap (λ (st : TagUpdaterStatus). st.last_tag) e;
  skipped = ap (λ (st : TagUpdaterStatus). st.skipped_tags) e;
  writes = w;
}

keeping : (env : Env) → Allows env IsSame
unfolding put_condition
keeping env = record {
  preorder = record {
    reflexive = λ s. same refl refl;
    transitive = λ s t u p q. record {
      tag = q.tag ∙ p.tag;
      commit = q.commit ∙ p.commit;
      last = q.last ∙ p.last;
      skipped = q.skipped ∙ p.skipped;
      writes = q.writes ∙ p.writes;
    };
  };
  ticks = λ s. same refl refl;
  saves = λ s. same refl refl;
  tells = λ s events. same refl refl;
  judges = λ s c. record { tag = refl; commit = refl; last = refl; skipped = refl; writes = refl };
  progresses = λ s p. same refl refl;
  tries_rev = λ s n. same refl refl;
  finds_rev = λ s n. same refl refl;
}

lasts : (s t u : State) → IsAbandoned s t → IsSame t u → IsAbandoned s u
lasts s t u p q = record {
  unwatched = (q.tag ∙ p.unwatched.0, q.commit ∙ p.unwatched.1);
  released = q.last ∙ p.released;
  ruled_out = q.skipped ∙ p.ruled_out;
  unwritten = q.writes ∙ p.unwritten;
}

Respects-clearing : {E : Type 0} → Respects IsAbandoned (set_status {E = E} clear_watch)
unfolding set_status clear_watch
Respects-clearing = record {
  at =
      λ s. record { unwatched = (refl, refl); released = refl; ruled_out = refl; unwritten = refl };
}

from_tick : {s t : State} → IsAbandoned (tick s) t → IsAbandoned s t
from_tick p = record {
  unwatched = p.unwatched;
  released = p.released;
  ruled_out = p.ruled_out;
  unwritten = p.unwritten;
}

begins : (s t u : State) → IsSame s t → IsAbandoned t u → IsAbandoned s u
begins s t u p q = record {
  unwatched = q.unwatched;
  released = q.released ∙ p.last;
  ruled_out = q.ruled_out ∙ p.skipped;
  unwritten = q.unwritten ∙ p.writes;
}

-- A reading leaves the watch and what `IsAbandoned` reads.
record IsRead (s t : State) : Type 0 where
  kept : IsSame s t
  since : t.status.watching_since ≡ s.status.watching_since
  commit : t.status.watching_commit ≡ s.status.watching_commit
  armed_at : t.status.watching_armed_at ≡ s.status.watching_armed_at

abbrev unread : {s t : State} → t.status ≡ s.status → t.writes ≡ s.writes → IsRead s t
unread e w = record {
  kept = same e w;
  since = ap (λ (st : TagUpdaterStatus). st.watching_since) e;
  commit = ap (λ (st : TagUpdaterStatus). st.watching_commit) e;
  armed_at = ap (λ (st : TagUpdaterStatus). st.watching_armed_at) e;
}

reads : (env : Env) → Allows env IsRead
unfolding put_condition
reads env = record {
  preorder = record {
    reflexive = λ s. unread refl refl;
    transitive = λ s t u p q. record {
      kept = (keeping env).preorder.transitive s t u p.kept q.kept;
      since = q.since ∙ p.since;
      commit = q.commit ∙ p.commit;
      armed_at = q.armed_at ∙ p.armed_at;
    };
  };
  ticks = λ s. unread refl refl;
  saves = λ s. unread refl refl;
  tells = λ s events. unread refl refl;
  judges = λ s c. record {
    kept = (keeping env).judges s c;
    since = refl;
    commit = refl;
    armed_at = refl;
  };
  progresses = λ s p. unread refl refl;
  tries_rev = λ s n. unread refl refl;
  finds_rev = λ s n. unread refl refl;
}

module _ (env : Env) (tu : TagUpdater) where
  L : Allows env IsSame
  L = keeping env

  Respects-abandoning : Respects IsAbandoned (abandon_watch env tu)
  unfolding abandon_watch
  Respects-abandoning = Respects-read _ _ (λ message.
      Respects-established {P = IsSame} {Q = IsAbandoned} _ _ Respects-clearing
        (λ done. search (respects_rules, effect_rules, L, L.preorder) depth 30) lasts)

  Respects-giving_up :
      Respects {E = String} IsAbandoned (abandon_watch env tu >>= λ done. return (pos 0))
  Respects-giving_up =
      Respects-established {P = IsSame} {Q = IsAbandoned} _ _ Respects-abandoning
        (λ done. search (respects_rules, L.preorder)) lasts

  late_awaiting :
      (s : State)
      → deadline_exceeded s.status.watching_armed_at (env.now s.calls) (rollback_timeout tu) ≡ true
      → IsAbandoned s (await_observation env tu s).1
  unfolding await_observation ◌>>=◌ call
  late_awaiting s late = rw late (from_tick (Respects-giving_up.at (tick s)))

  -- The state behind the reading of the revision observer.
  abbrev pub behind_reading : State → State
  behind_reading s = (argo_cd_app_state env (revision_observer tu) s).1

  -- With no clock and no observation, the check waits for the observation.
  awaits :
      (observer : ArgoCdState) (t : State)
      → t.status.watching_since ≡ none
      → observes observer t.status.watching_commit t.status.watching_armed_at ≡ false
      → judge_revision env tu observer t ≡ await_observation env tu t
  unfolding judge_revision branch ◌>>=◌
  awaits observer t unset unseen =
      ap judged unset
      ∙ ap (λ seen. branch seen (start_clock env tu) (await_observation env tu) t) unseen
    where
      judged : Option Time → Result String Duration × State
      judged since =
          on_option since
            (branch (observes observer t.status.watching_commit t.status.watching_armed_at)
              (start_clock env tu) (await_observation env tu))
            (λ since. observe_health env tu) t

  judged_late :
      (observer : ArgoCdState) (s t : State)
      → IsRead s t
      → s.status.watching_since ≡ none
      → observes observer s.status.watching_commit s.status.watching_armed_at ≡ false
      → deadline_exceeded s.status.watching_armed_at (env.now t.calls) (rollback_timeout tu) ≡ true
      → IsAbandoned s (judge_revision env tu observer t).1
  judged_late observer s t read unset unseen late =
      subst (λ (p : Result String Duration × State). IsAbandoned s p.1)
        (sym (awaits observer t (read.since ∙ unset) (rw (read.commit, read.armed_at) unseen)))
        (begins s t _ read.kept (late_awaiting t (rw read.armed_at late)))

  -- A health check that reads the revision observer, whose clock is not started, and that finds the
  -- watched commit not observed and the deadline passed, ends the watch with no write to git: the
  -- released tag stays, and no tag is ruled out.
  pub check_health_unobserved-IsAbandoned :
      (observer : ArgoCdState) (s : State)
      → (argo_cd_app_state env (revision_observer tu) s).0 ≡ ok observer
      → s.status.watching_since ≡ none
      → observes observer s.status.watching_commit s.status.watching_armed_at ≡ false
      → deadline_exceeded s.status.watching_armed_at
          (env.now (behind_reading s).calls)
          (rollback_timeout tu)
        ≡ true
      → IsAbandoned s (check_health_and_maybe_rollback env tu s).1
  unfolding check_health_and_maybe_rollback ◌>>=◌
  check_health_unobserved-IsAbandoned observer s answered unset unseen late = rw answered (
      judged_late observer s (behind_reading s)
        ((Respects-argo_cd_app_state (reads env) (revision_observer tu)).at s) unset unseen late)
