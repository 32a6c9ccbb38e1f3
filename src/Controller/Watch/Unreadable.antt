-- ===== src/Controller/Watch/Unreadable.antt =====
-- The watch of a tag while the revision observer cannot be read.
use argocd_tag_updater.Base.{◌≡◌, ◌∙◌, refl, String, true, Option, ok, err, ◌>>=◌}
use argocd_tag_updater.Base.Time.{Time}
use argocd_tag_updater.Api.{TagUpdater, TagUpdaterStatus}
use argocd_tag_updater.Controller.Env.{Env, State, put_condition, set_condition, event}
use argocd_tag_updater.Controller.ArgoCd.{argo_cd_app_state}
use argocd_tag_updater.Controller.Conditions.{try_update_status}
use argocd_tag_updater.Controller.Effects.Rules.{Allows}
use argocd_tag_updater.Controller.Effects.Kept.{IsKept, kept}
use argocd_tag_updater.Controller.Effects.Lookups.{Respects-argo_cd_app_state}
use argocd_tag_updater.Controller.Effects.Watch.{Respects-read_failed}
use argocd_tag_updater.Controller.Health.{
  poll_again, revision_observer, read_failed, check_health_and_maybe_rollback,
}

-- The four fields of the watch.
abbrev pub watch_of : TagUpdaterStatus → String × String × Option Time × Option Time
watch_of st = (st.watching_tag, st.watching_commit, st.watching_armed_at, st.watching_since)

keeping : (env : Env) → Allows env (IsKept watch_of)
unfolding put_condition
keeping env = kept env watch_of (λ c st. refl)

polls :
    (env : Env) (tu : TagUpdater) (message : String) (s : State)
    → (read_failed env tu true message s).0 ≡ ok poll_again
unfolding read_failed try_update_status set_condition event ◌>>=◌
polls env tu message s = refl

-- While the revision observer cannot be read, the health check asks to be called again and keeps the
-- watch as it is, however long ago the watch was armed.
pub check_health_unreadable :
    (env : Env) (tu : TagUpdater) (s : State) (e : String)
    → (argo_cd_app_state env (revision_observer tu) s).0 ≡ err e
    → ((check_health_and_maybe_rollback env tu s).0 ≡ ok poll_again)
      × (watch_of (check_health_and_maybe_rollback env tu s).1.status ≡ watch_of s.status)
unfolding check_health_and_maybe_rollback ◌>>=◌
check_health_unreadable env tu s e h = rw h (
  polls env tu e _,
  (Respects-read_failed (keeping env) tu true e).at _
      ∙ (Respects-argo_cd_app_state (keeping env) _).at s,
)
