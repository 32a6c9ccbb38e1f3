-- ===== src/Tests/Run.antt =====
-- Whole runs in the world of the tests.
use argocd_tag_updater.Base.{◌>>=◌}
use argocd_tag_updater.Base.Text.{
  strip_prefix, has_prefix, trim_prefix, strip_suffix, trim_suffix, cut, cut_last, replace_first,
  contains_char, contains, is_space, is_blank, trim_left, trim_right, trim_space, to_lower,
  equal_fold, join,
}
use argocd_tag_updater.Base.Dict.{lookup, insert, erase, merge, value}
use argocd_tag_updater.Base.Int.{◌*ℤ◌, wrap64}
use argocd_tag_updater.Base.Time.{sub}
use argocd_tag_updater.Base.Numbers.{is_digit, digits_from, digits, atoi}
use argocd_tag_updater.Matcher.{new, captures_of, all, text_gt, build_number, less, latest}
use argocd_tag_updater.Matcher.Sort.{insertion_sort}
use argocd_tag_updater.Progress.{
  stale_window, attempt, success, forget, stale_at, is_stale, staleness, reconcile_progress_healthz,
  collect,
}
use argocd_tag_updater.Sources.Digest.{valid_digest, valid_tag}
use argocd_tag_updater.Controller.Env.{
  State, call, try_call, set_status, update_status, put_condition, set_condition, event, apply,
}
use argocd_tag_updater.Controller.ArgoCd.{
  observes, sync_in_flight, parse_timestamp, revisions_of, deployment_of, started_of,
  history_deployments, deployments_from, state_of, get_application, argo_cd_app_state,
}
use argocd_tag_updater.Controller.Skips.{is_skipped, keep_unskipped, filter_skipped, append_unique}
use argocd_tag_updater.Controller.Repo.{
  set_owner_repo, parse_url, parse_short, parse_scp, parse_repo,
}
use argocd_tag_updater.Controller.Validation.{
  missing_fields, validate_write_back, field_key, claim_field, claim_patches, claim_targets,
  claim_updaters, validate_field_ownership,
}
use argocd_tag_updater.Controller.Credentials.{
  secret_credentials, is_unusable, auth_of, registry_host, credentials_from_secret, read_mounted,
  mounted_credentials, resolve_write_back_credentials, resolve_docker_auth,
}
use argocd_tag_updater.Controller.Release.{
  unix_nano, from_unix_nano, rev_resolution_stale, release_fields, source_for, list_tags,
  add_record, add_git_rev, add_rev, digest_auth, look_up_digest, add_image_digest,
}
use argocd_tag_updater.Controller.Conditions.{
  try_update_status, set_stalled, mark_reconcile_succeeded, set_write_back_not_attempted,
  set_failed, set_failed_before_write_back,
}
use argocd_tag_updater.Controller.Rollback.{
  rollback_enabled, rollback_timeout, clear_watch, give_up_tag, rolled_back, writer_of,
  rollback_unavailable, previous_match, restore_digest, previous_fields, rollback_to, do_rollback,
  rollback_failed, rollback_with_status,
}
use argocd_tag_updater.Controller.Health.{
  revision_observer, deployment_healthy, abandon_message, abandon_watch, read_failed,
  await_observation, finish_watch, await_health, judge_health, observe_health, start_clock,
  judge_revision, check_health_and_maybe_rollback,
}
use argocd_tag_updater.Controller.Outcome.{Outcome, interval_of, refuse, before_write_back}
use argocd_tag_updater.Controller.Status.{
  write_back_current, is_unchanged, digest_replaced, arm_watch, watches, advance_tag,
  record_release,
}
use argocd_tag_updater.Controller.Guards.{
  check_digest_source, check_rollback_app, continue_watch, watch_phase, refuse_write_back,
  check_write_back, check_ownership,
}
use argocd_tag_updater.Controller.Select.{
  oci_basic_auth, no_matching_tags, select_release, collect_fields,
}
use argocd_tag_updater.Controller.Write.{
  check_digest, written_message, finish_unchanged, check_remote, write_back_failed, tell_written,
  apply_writer, write_fields, write_phase, finish_release,
}
use argocd_tag_updater.Controller.Reconcile.{release_phase, reconcile_found, reconcile}
use argocd_tag_updater.Tests.World.{world, updater, start}

-- The state after one health check, and after one whole reconcile.
unfoldable pub checked : State
unfolding ◌>>=◌ strip_prefix has_prefix trim_prefix strip_suffix trim_suffix cut cut_last
    replace_first contains_char contains is_space is_blank trim_left trim_right trim_space to_lower
    equal_fold join lookup insert erase merge value ◌*ℤ◌ wrap64 sub is_digit digits_from digits atoi
    new captures_of all text_gt build_number less latest insertion_sort stale_window attempt success
    forget stale_at is_stale staleness reconcile_progress_healthz collect valid_digest valid_tag
    call try_call set_status update_status put_condition set_condition event apply observes
    sync_in_flight parse_timestamp revisions_of deployment_of started_of history_deployments
    deployments_from state_of get_application argo_cd_app_state is_skipped keep_unskipped
    filter_skipped append_unique set_owner_repo parse_url parse_short parse_scp parse_repo
    missing_fields validate_write_back field_key claim_field claim_patches claim_targets
    claim_updaters validate_field_ownership secret_credentials is_unusable auth_of registry_host
    credentials_from_secret read_mounted mounted_credentials resolve_write_back_credentials
    resolve_docker_auth unix_nano from_unix_nano rev_resolution_stale release_fields source_for
    list_tags add_record add_git_rev add_rev digest_auth look_up_digest add_image_digest
    try_update_status set_stalled mark_reconcile_succeeded set_write_back_not_attempted set_failed
    set_failed_before_write_back rollback_enabled rollback_timeout clear_watch give_up_tag
    rolled_back writer_of rollback_unavailable previous_match restore_digest previous_fields
    rollback_to do_rollback rollback_failed rollback_with_status revision_observer
    deployment_healthy abandon_message abandon_watch read_failed await_observation finish_watch
    await_health judge_health observe_health start_clock judge_revision
    check_health_and_maybe_rollback interval_of refuse before_write_back write_back_current
    is_unchanged digest_replaced arm_watch watches advance_tag record_release check_digest_source
    check_rollback_app continue_watch watch_phase refuse_write_back check_write_back check_ownership
    oci_basic_auth no_matching_tags select_release collect_fields check_digest written_message
    finish_unchanged check_remote write_back_failed tell_written apply_writer write_fields
    write_phase finish_release release_phase reconcile_found reconcile
checked = (check_health_and_maybe_rollback world updater start).1

unfoldable pub reconciled : State → Outcome × State
unfolding checked
reconciled s = reconcile world "shop/web" s
