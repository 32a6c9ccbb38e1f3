-- ===== src/Tests/Tracking.antt =====
-- Progress and validation, at concrete inputs.
use argocd_tag_updater.Base.{
  ◌<>◌, ◌≡◌, ◌≢◌, ◌↔◌, ◌⊎◌, inl, refl, ◌∷◌, [], String, false, none, some, if◌then◌else◌, ◌==◌,
}
use argocd_tag_updater.Base.Int.{pos, ltb_ℤ}
use argocd_tag_updater.Base.Time.{sub, minutes}
use argocd_tag_updater.Base.Text.{is_blank}
use argocd_tag_updater.Base.Dict
use argocd_tag_updater.Api.{TagUpdater}
use argocd_tag_updater.Progress.{
  ProgressTracker, ProgressEntry, attempt, success, is_stale, stale_window,
  reconcile_progress_healthz,
}
use argocd_tag_updater.Progress.Stale.{
  HasFresh, healthz-eq-none_iff, is_stale-success, is_stale-attempt,
}
use argocd_tag_updater.Controller.Repo.{parse_short}
use argocd_tag_updater.Controller.Repo.Urls.{parse_short_https}
use argocd_tag_updater.Controller.Validation.{
  validate_write_back, validate_field_ownership, field_key,
}
use argocd_tag_updater.Controller.Validation.Required.{validate_write_back-eq-none_iff}
use argocd_tag_updater.Controller.Validation.Ownership.{IsClaim, validate_field_ownership_unique}
use argocd_tag_updater.Controller.Validation.Refusals.{
  IsConflict, IsUnwritten, validate_field_ownership_refused,
}
use argocd_tag_updater.Writeback.Paths.{safe_manifest_path}
use argocd_tag_updater.Tests.World.{world, updater, target, clock}
use argocd_tag_updater.Tests.Run.{checked}

abbrev entry : ProgressEntry
entry = record { first_attempt = clock; last_success = 0; interval = minutes 2 }

abbrev tracked : ProgressTracker
tracked = record {
  entries = ("shop/web", entry) ∷ ("shop/api", entry) ∷ [];
  multiplier = pos 0;
  floor = pos 0;
}

entry_known : Dict.lookup "shop/web" tracked.entries ≡ some entry
unfolding checked
entry_known = refl

later : clock ≢ 0
later p = cc

healthz-eq-none_iff_example :
    (reconcile_progress_healthz tracked clock ≡ none)
    ↔ ((tracked.entries ≡ []) ⊎ HasFresh tracked clock tracked.entries)
healthz-eq-none_iff_example = healthz-eq-none_iff tracked clock

is_stale-success_example : is_stale (success "shop/web" clock tracked) "shop/web" clock ≡ (
    if "shop/web" == "shop/web"
    then ltb_ℤ (stale_window tracked (minutes 2)) (sub clock clock)
    else is_stale tracked "shop/web" clock)
is_stale-success_example =
    is_stale-success tracked "shop/web" "shop/web" clock clock entry entry_known later

is_stale-attempt_example :
    is_stale (attempt "shop/web" (minutes 2) 7 tracked) "shop/web" clock
    ≡ is_stale tracked "shop/web" clock
is_stale-attempt_example = is_stale-attempt tracked "shop/web" "shop/web" 7 clock entry entry_known

validate_write_back-eq-none_iff_example : (validate_write_back updater.spec.write_back ≡ none) ↔ (
    (is_blank updater.spec.write_back.repo ≡ false)
    × (is_blank updater.spec.write_back.branch ≡ false)
    × (is_blank updater.spec.write_back.path ≡ false))
validate_write_back-eq-none_iff_example = validate_write_back-eq-none_iff updater.spec.write_back

-- Another updater of another field of the same object.
abbrev other : TagUpdater
other = record updater {
  name = "other";
  spec = record updater.spec {
    targets = record target { patches = record { field = "spec.image"; template = "x" } ∷ [] } ∷ [];
  };
}

accepted : validate_field_ownership world.marshal_selector (updater ∷ other ∷ []) ≡ none
unfolding checked
accepted = refl

abbrev key : String
key =
    field_key updater.spec.write_back target "null"
      (record { field = "spec.tag"; template = "{{ .tag }}" })

claim : IsClaim world.marshal_selector (updater ∷ other ∷ []) key "shop/web"
claim = (updater, inl refl, refl, (target, inl refl, "null", refl, (_, inl refl, refl)))

validate_field_ownership_unique_example : ◌≡◌ {A = String} "shop/web" "shop/web"
validate_field_ownership_unique_example =
    validate_field_ownership_unique world.marshal_selector (updater ∷ other ∷ []) key "shop/web"
      "shop/web" accepted claim claim

-- Another owner of the very same field.
abbrev rival : TagUpdater
rival = record updater { name = "rival" }

refused :
    validate_field_ownership world.marshal_selector (updater ∷ rival ∷ [])
    ≡ some
        "manifest field spec.tag on Deployment/web is owned by both shop/web and shop/rival; consolidate it into one TagUpdater"
unfolding checked
refused = refl

validate_field_ownership_refused_example :
    IsConflict (IsClaim world.marshal_selector (updater ∷ rival ∷ []))
    ⊎ IsUnwritten world.marshal_selector (updater ∷ rival ∷ [])
validate_field_ownership_refused_example =
    validate_field_ownership_refused world.marshal_selector (updater ∷ rival ∷ [])
      "manifest field spec.tag on Deployment/web is owned by both shop/web and shop/rival; consolidate it into one TagUpdater"
      refused

-- Another owner of the same field of the same file, under another spelling of the path.
abbrev respelled : TagUpdater
respelled = record updater {
  name = "respelled";
  spec = record updater.spec {
    write_back = record updater.spec.write_back { path = "./web.yaml" };
  };
}

respelled_accepted :
    validate_field_ownership world.marshal_selector (updater ∷ respelled ∷ []) ≡ none
unfolding checked
respelled_accepted = refl

one_file :
    safe_manifest_path (λ s. s) "/tmp/clone" updater.spec.write_back.path
    ≡ safe_manifest_path (λ s. s) "/tmp/clone" respelled.spec.write_back.path
unfolding safe_manifest_path
one_file = refl

parse_short_https_example :
    parse_short [] ("https://" <> "github.com/shop/web")
    ≡ Dict.insert "repo"
        ("/" <> "github.com/shop/web")
        (Dict.insert "owner" "" (Dict.insert "host" "https.com" []))
parse_short_https_example = parse_short_https [] "github.com/shop/web"
