-- ===== src/Controller/Reconcile.antt =====
-- `Reconcile`, phase by phase.
pub mod Ledger
pub mod Accounts
use argocd_tag_updater.Base.{lift, modify, String, Result, ok, err, ◌>>=◌, ◌>>◌}
use argocd_tag_updater.Base.Int.{pos}
use argocd_tag_updater.Base.Dict.{value}
use argocd_tag_updater.Api.{TagUpdater}
use argocd_tag_updater.Progress.{attempt as attempt_progress, forget}
use argocd_tag_updater.Controller.Env.{Env, State, got, not_found, get_failed, call}
use argocd_tag_updater.Controller.Release.{source_for}
use argocd_tag_updater.Controller.Outcome.{
  Outcome, Rec, requeue, fail, interval_of, before_write_back,
}
use argocd_tag_updater.Controller.Guards.{
  check_digest_source, check_rollback_app, watch_phase, check_write_back, check_ownership,
}
use argocd_tag_updater.Controller.Select.{oci_basic_auth, select_release, collect_fields}
use argocd_tag_updater.Controller.Write.{check_digest, write_phase, finish_release}

module _ (env : Env) (key : String) (tu : TagUpdater) where
  -- From the tag source to git.
  unfoldable pub release_phase : Rec Outcome
  release_phase = do
    basic_auth ← oci_basic_auth env key tu
    src ← before_write_back env key tu (lift (source_for env tu.spec.source basic_auth))
    found ← select_release env key tu src
    fields ← collect_fields env key tu src found
    check_digest env key tu found.tag (value "image_digest" fields)
    result ← write_phase env key tu found.tag fields
    finish_release env key tu found.tag (value "image_digest" fields) result.commit_sha

  -- `Reconcile` behind the `Get`.
  unfoldable pub reconcile_found : Rec Outcome
  reconcile_found = do
    now ← call env.now
    modify (λ s. record s { progress = attempt_progress key (interval_of tu) now s.progress })
    check_digest_source env key tu
    check_rollback_app env key tu
    watch_phase env key tu
    check_write_back env key tu
    check_ownership env key tu
    release_phase

-- The result of a computation that may have returned early.
abbrev pub finish : Result Outcome Outcome → Outcome
finish (ok outcome) = outcome
finish (err outcome) = outcome

-- The state that `Get` fills in.
abbrev pub load : TagUpdater → State → State
load tu s = record s { status = tu.status; stored = tu.status }

unfoldable pub reconcile : Env → String → State → Outcome × State
unfolding forget
reconcile env key s = elim env.get [
  | not_found ↦ (requeue (pos 0), record s { progress = forget key s.progress })
  | get_failed e ↦ (fail e, s)
  | got tu ↦ let r = reconcile_found env key tu (load tu s) in (finish r.0, r.1)
]
