-- ===== src/Controller/Rollback.antt =====
-- `doRollback`, `rollbackWithStatus` and the parts of a watch that they share with the health check.
pub mod GivesUp
use argocd_tag_updater.Base.{
  return, stop, lift, gets, attempt, branch, on_result, String, ◌<>◌, Bool, false, ◌||◌, none, some,
  [], ◌∷◌, Result, ok, err, ◌>>=◌, ◌>>◌, ◌==◌, if◌then◌else◌,
}
use argocd_tag_updater.Base.Int.{pos, ltb_ℤ}
use argocd_tag_updater.Base.Time.{Time, Duration, minutes}
use argocd_tag_updater.Base.Dict
use argocd_tag_updater.Base.Dict.{Dict, value}
use argocd_tag_updater.Api.{TagUpdater, TagUpdaterStatus, condition_true, condition_false}
use argocd_tag_updater.Matcher
use argocd_tag_updater.Matcher.{Match, latest}
use argocd_tag_updater.Sources.Digest.{valid_digest}
use argocd_tag_updater.Writeback.{Credentials, Writer}
use argocd_tag_updater.Controller.Env.{
  Env, Go, call, set_status, update_status, set_condition, event, apply,
}
use argocd_tag_updater.Controller.Conditions.{try_update_status}
use argocd_tag_updater.Controller.Credentials.{resolve_write_back_credentials}
use argocd_tag_updater.Controller.Release.{source_for, release_fields, add_record, add_rev}
use argocd_tag_updater.Controller.Skips.{append_unique}

abbrev pub default_rollback_timeout : Duration
default_rollback_timeout = minutes 20

-- `tu.Spec.Rollback != nil && tu.Spec.Rollback.Enabled`
unfoldable pub rollback_enabled : TagUpdater → Bool
rollback_enabled tu = elim tu.spec.rollback [ none ↦ false | some r ↦ r.enabled ]

unfoldable pub rollback_timeout : TagUpdater → Duration
rollback_timeout tu = elim tu.spec.rollback [
  | none ↦ default_rollback_timeout
  | some r ↦ if ltb_ℤ (pos 0) r.timeout then r.timeout else default_rollback_timeout
]

-- The four fields of a watch, emptied.
unfoldable pub clear_watch : TagUpdaterStatus → TagUpdaterStatus
clear_watch st = record st {
  watching_tag = "";
  watching_commit = "";
  watching_armed_at = none;
  watching_since = none;
}

-- The tag is ruled out, and its watch ends.
unfoldable pub give_up_tag : String → TagUpdaterStatus → TagUpdaterStatus
unfolding clear_watch append_unique
give_up_tag bad st = record (clear_watch st) { skipped_tags = append_unique st.skipped_tags bad }

-- The status after the previous tag was written.
unfoldable pub rolled_back :
    TagUpdater → String → String → String → String → Time → TagUpdaterStatus → TagUpdaterStatus
unfolding give_up_tag
rolled_back tu bad previous digest commit now st = record (give_up_tag bad st) {
  last_tag = previous;
  last_image_digest = digest;
  observed_generation = tu.generation;
  last_updated = some now;
  last_write_commit = commit;
}

-- The writer for the updater's targets.
unfoldable pub writer_of : TagUpdater → Credentials → Dict String → Writer
writer_of tu credentials fields = record {
  spec = tu.spec.write_back;
  credentials = credentials;
  targets = tu.spec.targets;
  values = fields;
}

module _ (env : Env) (tu : TagUpdater) where
  -- There is no other tag to go back to.
  unfoldable pub rollback_unavailable : String → Go (Unit {0})
  unfolding give_up_tag
  rollback_unavailable bad = do
    set_status (give_up_tag bad)
    let message = "tag " <> bad <> " failed but no previous tag is available to write back"
    ready ← set_condition env "Ready" condition_false "RollbackUnavailable" message
    rollback_ready ← set_condition env "RollbackReady" condition_false "NoPreviousTag" message
    update_status env

  -- The match of the previous tag.
  unfoldable pub previous_match : String → Result String Match
  previous_match previous = elim (Matcher.new env.compile env.quote tu.spec.source.tag_pattern) [
    | err e ↦ err e
    | ok m ↦ elim (latest env.sort_slice m (previous ∷ [])) [
      | some found ↦ ok found
      | none ↦ err ("previous tag " <> previous <> " no longer matches spec.source.tagPattern")
    ]
  ]

  -- The digest that was recorded for the previous tag, where the updater pins digests.
  unfoldable pub restore_digest : String → Dict String → Result String (Dict String)
  restore_digest digest fields =
      if tu.spec.source.resolve_digest
      then if valid_digest digest
        then ok (Dict.insert "image_digest" digest fields)
        else err "rollback requires recorded previous image digest"
      else ok fields

  -- The fields for the previous tag's values.
  unfoldable pub previous_fields : String → Go (Dict String)
  previous_fields previous = do
    found ← lift (previous_match previous)
    src ← lift (source_for env tu.spec.source "")
    described ← add_record env src "rollback tag" previous (release_fields tu found)
    resolved ← add_rev env src previous described
    digest ← gets (λ s. s.status.previous_image_digest)
    lift (restore_digest digest resolved)

  -- Writes the previous tag's values back.
  unfoldable pub rollback_to : String → String → Go (Unit {0})
  unfolding rolled_back
  rollback_to bad previous = do
    fields ← previous_fields previous
    credentials ←
        resolve_write_back_credentials env tu.namespace
          tu.spec.write_back.credentials_secret_ref.name
    result ← apply env (writer_of tu credentials fields)
    now ← call env.now
    set_status (rolled_back tu bad previous (value "image_digest" fields) result.commit_sha now)
    let message =
        "tag "
        <> bad
        <> " failed; wrote previous tag "
        <> previous
        <> " to git"
        <> (if result.committed
            then ""
            else " (manifest was already rolled back; no commit created)")
    ready ← set_condition env "Ready" condition_false "RolledBack" message
    rollback_ready ← set_condition env "RollbackReady" condition_true "RollbackWritten" message
    event env "RolledBack"
    update_status env

  unfoldable pub do_rollback : Go (Unit {0})
  do_rollback = do
    bad ← gets (λ s. s.status.watching_tag)
    previous ← gets (λ s. s.status.previous_tag)
    branch (previous == "" || previous == bad) (rollback_unavailable bad) (rollback_to bad previous)

  -- An error of the rollback is recorded, and handed on.
  unfoldable pub rollback_failed : String → Go (Unit {0})
  rollback_failed message = do
    rollback_ready ← set_condition env "RollbackReady" condition_false "RollbackWriteFailed" message
    try_update_status env
    event env "RollbackWriteFailed"
    stop message

  unfoldable pub rollback_with_status : Go (Unit {0})
  rollback_with_status = do
    outcome ← attempt do_rollback
    on_result outcome (λ done. return tt) rollback_failed
