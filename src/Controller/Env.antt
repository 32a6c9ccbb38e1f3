-- ===== src/Controller/Env.antt =====
-- What the reconciler calls and does not implement, the state that one reconcile works on, and the
-- small effects that its methods share. An outside call is a function of the number of calls made so
-- far, so two calls may answer differently.
use argocd_tag_updater.Base.{
  ℕ, ◌+◌, String, Bool, Option, none, some, List, ◌∷◌, Result, ok, err, M, if◌then◌else◌,
}
use argocd_tag_updater.Base.Int.{ℤ}
use argocd_tag_updater.Base.Time.{Time, Duration}
use argocd_tag_updater.Base.Dict.{Dict}
use argocd_tag_updater.Api.{
  TagUpdater, TagUpdaterList, TagUpdaterStatus, Condition, ConditionStatus, LabelSelector,
}
use argocd_tag_updater.Matcher.{Match, Regexp}
use argocd_tag_updater.Progress.{ProgressTracker}
use argocd_tag_updater.Sources.{Git, Oci, Nix}
use argocd_tag_updater.Writeback.{Writer, WriteResult}

-- The answer of `r.Get`, with the error that `apierrors.IsNotFound` knows.
pub data GetResult : Type 0 where
  got : TagUpdater → GetResult
  not_found : GetResult
  get_failed : String → GetResult

-- An entry of a `.dockerconfigjson`.
pub record DockerAuth : Type 0 where
  pub auth : String
  pub username : String
  pub password : String

pub record Env : Type 1 where
  -- The Kubernetes API.
  pub get : GetResult
  pub list : ℕ → Result String TagUpdaterList
  pub status_update : ℕ → Option String
  pub get_secret : ℕ → String → String → Result String (Dict String)
  pub has_recorder : Bool
  pub has_dynamic : Bool
  -- An unstructured object, and the readers of its fields, which answer with a zero value where the
  -- field is missing or of another type. An item of a slice that is no object is `none`.
  pub Object : Type 0
  pub get_application : ℕ → String → String → Result String Object
  pub nested_string : Object → List String → String
  pub nested_string_slice : Object → List String → List String
  pub nested_slice : Object → List String → List (Option Object)
  pub nested_map : Object → List String → Object
  pub set_status_condition : List Condition → Condition → List Condition × Bool
  pub marshal_selector : Option LabelSelector → Result String String
  -- The operating system and Go's library.
  pub now : ℕ → Time
  pub getenv : String → String
  pub read_file : ℕ → String → Result String String
  pub parse_rfc3339 : String → Option Time
  pub show_duration : Duration → String
  pub quote : String → String
  pub compile : String → Result String Regexp
  pub sort_slice : (Match → Match → Bool) → List Match → List Match
  pub unmarshal_docker_config : String → Result String (Dict DockerAuth)
  pub base64 : String → String
  -- The other packages of the program, as the reconciler calls them.
  pub git_tags : ℕ → Git → Result String (List String)
  pub git_tag_revs : ℕ → Git → Result String (Dict String)
  pub oci_tags : ℕ → Oci → Result String (List String)
  pub oci_digest : ℕ → Oci → String → Result String String
  pub nix_tags : ℕ → Nix → Result String (List String)
  pub nix_resolve : ℕ → Nix → String → Result String (Dict String)
  pub writer_apply : ℕ → Writer → Result String WriteResult
  pub writer_remote_head : ℕ → Writer → Result String String

-- The state of one reconcile.
pub record State : Type 0 where
  -- `tu.Status`, and the status that the API server holds.
  pub status : TagUpdaterStatus
  pub stored : TagUpdaterStatus
  -- The reconciler's own fields. The two times are in nanoseconds since 1970, 0 for none.
  pub progress : ProgressTracker
  pub first_rev_attempt : ℤ
  pub last_rev_success : ℤ
  -- The writers whose `Apply` was called and the reasons of the recorded events, the last one first.
  pub writes : List Writer
  pub events : List String
  pub calls : ℕ

-- A function that returns a Go `error`.
abbrev pub Go : Type 0 → Type 0
Go A = M State String A

-- One more call outside.
abbrev pub tick : State → State
tick s = record s { calls = s.calls + 1 }

-- A call outside for a value, and for a value and an error.
unfoldable pub call : {E A : Type 0} → (ℕ → A) → M State E A
call f s = (ok (f s.calls), tick s)

unfoldable pub try_call : {A : Type 0} → (ℕ → Result String A) → Go A
try_call f s = (f s.calls, tick s)

abbrev pub with_status : (TagUpdaterStatus → TagUpdaterStatus) → State → State
with_status f s = record s { status = f s.status }

unfoldable pub set_status :
    {E : Type 0} → (TagUpdaterStatus → TagUpdaterStatus) → M State E (Unit {0})
set_status f s = (ok tt, with_status f s)

module _ (env : Env) where
  -- `r.Status().Update(ctx, tu)`
  unfoldable pub update_status : Go (Unit {0})
  update_status s =
      let s' = record s { calls = s.calls + 1 } in
      elim (env.status_update s.calls) [
        | none ↦ (ok tt, record s' { stored = s.status })
        | some e ↦ (err e, s')
      ]

  -- `meta.SetStatusCondition(&tu.Status.Conditions, ...)`, which says whether anything changed.
  unfoldable pub put_condition : Condition → TagUpdaterStatus → TagUpdaterStatus
  put_condition c st = record st { conditions = (env.set_status_condition st.conditions c).0 }

  unfoldable pub set_condition :
      {E : Type 0} → String → ConditionStatus → String → String → M State E Bool
  unfolding put_condition
  set_condition type status reason message s =
      let c : Condition = record {
        type = type;
        status = status;
        reason = reason;
        message = message;
      } in
      (ok (env.set_status_condition s.status.conditions c).1, with_status (put_condition c) s)

  -- `if r.Recorder != nil { r.Recorder.Event(...) }`
  unfoldable pub event : {E : Type 0} → String → M State E (Unit {0})
  event reason s =
      (ok tt, record s { events = if env.has_recorder then reason ∷ s.events else s.events })

  -- `writer.Apply(ctx)`
  unfoldable pub apply : Writer → Go WriteResult
  apply w s = (env.writer_apply s.calls w, record s { calls = s.calls + 1; writes = w ∷ s.writes })
