-- ===== src/Controller/ArgoCd.antt =====
-- The read-only view of an ArgoCD application: `argoCDState`, what fills it, and what `observes` asks
-- of it (tagupdater_controller.go).
pub mod Observes
use argocd_tag_updater.Base.{
  return, stop, map_error, branch, ℕ, String, ◌<>◌, Bool, true, false, ◌||◌, Option, none, some,
  List, [], ◌∷◌, ◌++◌, Result, ok, err, M, ◌>>=◌, ◌>>◌, any, ◌==◌, if◌then◌else◌,
}
use argocd_tag_updater.Base.Time.{Time, after}
use argocd_tag_updater.Api.{ArgoCdAppRef}
use argocd_tag_updater.Controller.Env.{Env, State, Go, try_call}

pub record ArgoCdDeployment : Type 0 where
  pub revisions : List String
  pub started_at : Time

pub record ArgoCdState : Type 0 where
  pub revision : String
  pub revisions : List String
  pub deployments : List ArgoCdDeployment
  pub health : String
  pub operation : String

abbrev pub names : List String → String → Bool
names revisions commit = any (λ revision. revision == commit) revisions

unfoldable pub observes : ArgoCdState → String → Option Time → Bool
observes s commit pushed_at =
    if commit == ""
    then false
    else if s.revision == commit
    then true
    else if names s.revisions commit
    then true
    else if any (λ d. names d.revisions commit) s.deployments
    then true
    else elim pushed_at [
      | none ↦ false
      | some pushed ↦ any (λ d. after d.started_at pushed) s.deployments
    ]

unfoldable pub sync_in_flight : ArgoCdState → Bool
sync_in_flight s = s.operation == "Running" || s.operation == "Terminating"

module _ (env : Env) where
  open env use {Object, nested_string, nested_string_slice, nested_slice, nested_map}

  unfoldable pub parse_timestamp : String → Time
  parse_timestamp raw =
      if raw == "" then 0 else elim (env.parse_rfc3339 raw) [ none ↦ 0 | some parsed ↦ parsed ]

  unfoldable pub revisions_of : Object → List String
  revisions_of entry =
      let revision = nested_string entry ("revision" ∷ []) in
      let revisions = nested_string_slice entry ("revisions" ∷ []) in
      if revision == "" then revisions else revisions ++ (revision ∷ [])

  -- A deployment, if any revision is known of it.
  unfoldable pub deployment_of : List String → String → List ArgoCdDeployment
  unfolding parse_timestamp
  deployment_of [] started = []
  deployment_of (r ∷ revisions) started =
      record { revisions = r ∷ revisions; started_at = parse_timestamp started } ∷ []

  unfoldable pub started_of : Object → String
  started_of entry =
      let started = nested_string entry ("deployStartedAt" ∷ []) in
      if started == "" then nested_string entry ("deployedAt" ∷ []) else started

  -- The loop over the history.
  unfoldable pub history_deployments : List (Option Object) → List ArgoCdDeployment
  unfolding revisions_of deployment_of started_of
  history_deployments [] = []
  history_deployments (none ∷ history) = history_deployments history
  history_deployments (some entry ∷ history) =
      deployment_of (revisions_of entry) (started_of entry) ++ history_deployments history

  unfoldable pub deployments_from : Object → List ArgoCdDeployment
  unfolding history_deployments
  deployments_from app =
      history_deployments (nested_slice app ("status" ∷ "history" ∷ []))
      ++ (if nested_string app ("status" ∷ "operationState" ∷ "phase" ∷ []) == "Succeeded"
          then deployment_of
              (revisions_of (nested_map app ("status" ∷ "operationState" ∷ "syncResult" ∷ [])))
              (nested_string app ("status" ∷ "operationState" ∷ "startedAt" ∷ []))
          else [])

  unfoldable pub state_of : Object → ArgoCdState
  unfolding deployments_from
  state_of obj = record {
    revision = nested_string obj ("status" ∷ "sync" ∷ "revision" ∷ []);
    revisions = nested_string_slice obj ("status" ∷ "sync" ∷ "revisions" ∷ []);
    deployments = deployments_from obj;
    health = nested_string obj ("status" ∷ "health" ∷ "status" ∷ []);
    operation = nested_string obj ("status" ∷ "operationState" ∷ "phase" ∷ []);
  }

  -- The default namespace of an application.
  abbrev app_namespace : ArgoCdAppRef → String
  app_namespace ref = if ref.namespace == "" then "argocd" else ref.namespace

  -- The lookup, once there is a reference and a client.
  unfoldable pub get_application : ArgoCdAppRef → Go ArgoCdState
  get_application ref = do
    obj ←
        map_error (λ e. "get application " <> app_namespace ref <> "/" <> ref.name <> ": " <> e)
          (try_call (λ k. env.get_application k (app_namespace ref) ref.name))
    return (state_of obj)

  unfoldable pub argo_cd_app_state : Option ArgoCdAppRef → Go ArgoCdState
  argo_cd_app_state none = stop "rollback requires spec.argoCDApp and a dynamic client"
  argo_cd_app_state (some ref) =
      branch env.has_dynamic (get_application ref)
        (stop "rollback requires spec.argoCDApp and a dynamic client")
