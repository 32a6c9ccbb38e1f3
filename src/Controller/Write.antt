-- ===== src/Controller/Write.antt =====
-- The part of `Reconcile` that writes a release to git and records it.
use argocd_tag_updater.Base.{
  return, stop, gets, attempt, when, branch, on_result, String, ◌<>◌, ◌>>=◌, ◌>>◌,
}
use argocd_tag_updater.Base.Dict.{Dict, value}
use argocd_tag_updater.Api.{TagUpdater, condition_true, condition_false}
use argocd_tag_updater.Writeback.{Writer, WriteResult}
use argocd_tag_updater.Controller.Env.{
  Env, call, try_call, set_status, update_status, set_condition, event, apply,
}
use argocd_tag_updater.Controller.Conditions.{mark_reconcile_succeeded, set_failed}
use argocd_tag_updater.Controller.Credentials.{resolve_write_back_credentials}
use argocd_tag_updater.Controller.Rollback.{writer_of}
use argocd_tag_updater.Controller.Outcome.{Outcome, Rec, requeue, fail, or_fail, interval_of}
use argocd_tag_updater.Controller.Status.{
  write_back_current, is_unchanged, digest_replaced, record_release,
}

module _ (env : Env) (key : String) (tu : TagUpdater) where
  -- The digest of a recorded tag changed: fail closed.
  unfoldable pub check_digest : String → String → Rec (Unit {0})
  unfolding digest_replaced
  check_digest tag digest = do
    replaced ← gets (λ s. digest_replaced tu tag digest s.status)
    when replaced (do
      let message : String =
          "registry digest changed for the recorded release tag; refusing to replace the known-good image"
      ready ← set_condition env "Ready" condition_false "RegistryDigestChanged" message
      write_back ←
          set_condition env "WriteBackReady" condition_false "RegistryDigestChanged" message
      or_fail (update_status env)
      stop (requeue (interval_of tu)))

  unfoldable pub written_message : String → String
  written_message tag = "manifest values for tag " <> tag <> " are present in git"

  -- Tag and branch are as recorded: no clone.
  unfoldable pub finish_unchanged : String → Rec (Unit {0})
  finish_unchanged tag = do
    write_back ←
        set_condition env "WriteBackReady" condition_true "RemoteUnchanged"
          "tag and manifest branch head are unchanged; clone skipped"
    ready ← set_condition env "Ready" condition_true "WrittenToGit" (written_message tag)
    or_fail (update_status env)
    mark_reconcile_succeeded env key
    stop (requeue (interval_of tu))

  -- Is the remote branch still at the recorded commit? A failure to ask counts as no.
  unfoldable pub check_remote : Writer → String → String → Rec (Unit {0})
  unfolding is_unchanged write_back_current
  check_remote writer tag digest = do
    unchanged ← gets (λ s. is_unchanged tu tag digest s.status)
    when unchanged (do
      head ← attempt (try_call (λ k. env.writer_remote_head k writer))
      st ← gets (λ s. s.status)
      on_result head
          (λ remote_head. when (write_back_current tag st remote_head) (finish_unchanged tag))
          (λ e. return tt))

  unfoldable pub write_back_failed : {A : Type 0} → String → Rec A
  write_back_failed message = do
    write_back ← set_condition env "WriteBackReady" condition_false "WriteBackFailed" message
    event env "WriteBackFailed"
    set_failed env key message
    stop (fail message)

  -- The condition that tells what was written.
  unfoldable pub tell_written : String → WriteResult → Rec WriteResult
  tell_written tag result = do
    when result.committed (event env "WriteBackCommitted")
    changed ←
        branch result.committed
          (set_condition env "WriteBackReady" condition_true "Committed" (
            "committed tag " <> tag <> " to " <> tu.spec.write_back.path <> " on branch "
            <> tu.spec.write_back.branch))
          (set_condition env "WriteBackReady" condition_true "UpToDate"
            "manifest already contains the rendered values; no commit created")
    return result

  -- `writer.Apply` and the condition that tells its result.
  unfoldable pub apply_writer : Writer → String → Rec WriteResult
  apply_writer writer tag = do
    outcome ← attempt (apply env writer)
    on_result outcome (tell_written tag) write_back_failed

  unfoldable pub write_fields : Writer → String → String → Rec WriteResult
  write_fields writer tag digest = do check_remote writer tag digest; apply_writer writer tag

  unfoldable pub write_phase : String → Dict String → Rec WriteResult
  write_phase tag fields = do
    outcome ← attempt (
        resolve_write_back_credentials env tu.namespace
          tu.spec.write_back.credentials_secret_ref.name)
    on_result outcome
        (λ credentials.
          write_fields (writer_of tu credentials fields) tag (value "image_digest" fields))
        write_back_failed

  -- The values of the tag are in git.
  unfoldable pub finish_release : String → String → String → Rec Outcome
  unfolding record_release
  finish_release tag digest commit = do
    now ← call env.now
    set_status (record_release tu tag digest commit now)
    ready ← set_condition env "Ready" condition_true "WrittenToGit" (written_message tag)
    or_fail (update_status env)
    mark_reconcile_succeeded env key
    return (requeue (interval_of tu))
