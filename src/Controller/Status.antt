-- ===== src/Controller/Status.antt =====
-- What `Reconcile` asks of the recorded status, and how it changes that status once a release is in
-- git (tagupdater_controller.go).
use argocd_tag_updater.Base.{String, Bool, false, ◌&&◌, ◌||◌, not, none, some, ◌==◌, if◌then◌else◌}
use argocd_tag_updater.Base.Int.{ℤ, leb_ℤ}
use argocd_tag_updater.Base.Time.{Time}
use argocd_tag_updater.Api.{TagUpdater, TagUpdaterStatus}
use argocd_tag_updater.Sources.Digest.{valid_digest}
use argocd_tag_updater.Controller.Rollback.{rollback_enabled}

unfoldable pub write_back_current : String → TagUpdaterStatus → String → Bool
write_back_current tag st remote_head =
    tag == st.last_tag && not (st.last_write_commit == "") && remote_head == st.last_write_commit

abbrev pub same_generation : ℤ → ℤ → Bool
same_generation a b = leb_ℤ a b && leb_ℤ b a

-- Were the recorded tag, configuration and digest the ones of this pass?
unfoldable pub is_unchanged : TagUpdater → String → String → TagUpdaterStatus → Bool
is_unchanged tu tag digest st =
    tag == st.last_tag
    && not (st.last_write_commit == "")
    && same_generation st.observed_generation tu.generation
    && (not tu.spec.source.resolve_digest || st.last_image_digest == digest)

-- The recorded release tag now resolves to another digest.
unfoldable pub digest_replaced : TagUpdater → String → String → TagUpdaterStatus → Bool
digest_replaced tu tag digest st =
    tu.spec.source.resolve_digest
    && tag == st.last_tag
    && valid_digest st.last_image_digest
    && not (st.last_image_digest == digest)

-- The status once the values of the tag are in git.
unfoldable pub arm_watch : String → String → Time → TagUpdaterStatus → TagUpdaterStatus
arm_watch tag commit now st = record st {
  watching_tag = tag;
  watching_commit = commit;
  watching_since = none;
  watching_armed_at = some now;
}

-- Rollback is on, and there is an application to watch.
unfoldable pub watches : TagUpdater → Bool
watches tu = elim tu.spec.argo_cd_app [ none ↦ false | some app ↦ rollback_enabled tu ]

unfoldable pub advance_tag :
    TagUpdater → String → String → Time → TagUpdaterStatus → TagUpdaterStatus
unfolding arm_watch
advance_tag tu tag commit now st =
    let moved = record st {
      previous_tag = st.last_tag;
      previous_image_digest = st.last_image_digest;
      last_tag = tag;
      last_updated = some now;
    } in
    if watches tu then arm_watch tag commit now moved else moved

unfoldable pub record_release :
    TagUpdater → String → String → String → Time → TagUpdaterStatus → TagUpdaterStatus
unfolding advance_tag
record_release tu tag digest commit now st =
    let st' = if tag == st.last_tag then st else advance_tag tu tag commit now st in
    record st' {
      last_image_digest = digest;
      observed_generation = tu.generation;
      last_write_commit = commit;
    }
