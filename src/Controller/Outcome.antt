-- ===== src/Controller/Outcome.antt =====
-- What `Reconcile` returns, and the ways in which it returns early (tagupdater_controller.go). An early
-- `return` is a `stop` with its result.
use argocd_tag_updater.Base.{
  return, stop, attempt, map_error, on_result, String, Option, none, some, M, ◌>>=◌, ◌>>◌,
  if◌then◌else◌,
}
use argocd_tag_updater.Base.Int.{pos, ltb_ℤ}
use argocd_tag_updater.Base.Time.{Duration, minutes}
use argocd_tag_updater.Api.{TagUpdater, condition_false}
use argocd_tag_updater.Controller.Env.{Env, State, Go, set_condition, event}
use argocd_tag_updater.Controller.Conditions.{try_update_status, set_failed_before_write_back}

-- `ctrl.Result` with the `error`.
pub record Outcome : Type 0 where
  pub requeue_after : Duration
  pub error : Option String

-- A part of `Reconcile`, which may return early.
abbrev pub Rec : Type 0 → Type 0
Rec A = M State Outcome A

abbrev pub requeue : Duration → Outcome
requeue d = record { requeue_after = d; error = none }

abbrev pub fail : String → Outcome
fail e = record { requeue_after = pos 0; error = some e }

-- `if err != nil { return ctrl.Result{}, err }`
abbrev pub or_fail : {A : Type 0} → Go A → Rec A
or_fail = map_error fail

abbrev pub default_interval : Duration
default_interval = minutes 2

unfoldable pub interval_of : TagUpdater → Duration
interval_of tu = if ltb_ℤ (pos 0) tu.spec.interval then tu.spec.interval else default_interval

module _ (env : Env) (key : String) (tu : TagUpdater) where
  -- Sets two conditions alike, and the reconcile ends: the configuration must change first.
  unfoldable pub refuse : {A : Type 0} → String → String → String → Rec A
  refuse condition reason message = do
    first ← set_condition env condition condition_false reason message
    ready ← set_condition env "Ready" condition_false reason message
    try_update_status env
    event env reason
    stop (requeue (interval_of tu))

  -- `setFailedBeforeWriteBack` around a step that may fail.
  unfoldable pub before_write_back : {A : Type 0} → Go A → Rec A
  before_write_back m = do
    outcome ← attempt m
    on_result outcome return
        (λ cause. set_failed_before_write_back env key cause >> stop (fail cause))
