-- ===== src/Progress.antt =====
-- internal/controller/progress.go: when each updater's reconciles last succeeded, and the health
-- check over all of them. A method that changes the tracker returns the new one. The mutex makes
-- each method one step.
pub mod Stale
use argocd_tag_updater.Base.{
  ℕ, String, Bool, false, not, Option, none, some, List, [], ◌∷◌, map, if◌then◌else◌, any, length,
}
use argocd_tag_updater.Base.Int.{ℤ, pos, ltb_ℤ, leb_ℤ, ◌*ℤ◌, wrap64}
use argocd_tag_updater.Base.Time.{Time, Duration, is_zero, sub, minutes}
use argocd_tag_updater.Base.Dict
use argocd_tag_updater.Base.Dict.{Dict}

abbrev pub default_stale_multiplier : ℤ
default_stale_multiplier = pos 10

abbrev pub default_stale_floor : Duration
default_stale_floor = minutes 15

pub record ProgressEntry : Type 0 where
  pub first_attempt : Time
  pub last_success : Time
  pub interval : Duration

pub record ProgressTracker : Type 0 where
  pub entries : Dict ProgressEntry
  pub multiplier : ℤ
  pub floor : Duration

unfoldable pub stale_window : ProgressTracker → Duration → Duration
unfolding ◌*ℤ◌ wrap64
stale_window t interval =
    let multiplier =
      if leb_ℤ t.multiplier (pos 0) then default_stale_multiplier else t.multiplier in
    let floor = if leb_ℤ t.floor (pos 0) then default_stale_floor else t.floor in
    let window = wrap64 (multiplier *ℤ interval) in if ltb_ℤ floor window then window else floor

-- A reconcile for the key starts.
unfoldable pub attempt : String → Duration → Time → ProgressTracker → ProgressTracker
unfolding Dict.lookup Dict.insert
attempt key interval now t =
    let entry : ProgressEntry = elim (Dict.lookup key t.entries) [
      | some e ↦ e
      | none ↦ record { first_attempt = now; last_success = 0; interval = pos 0 }
    ] in
    record t { entries = Dict.insert key (record entry { interval = interval }) t.entries }

-- The pipeline for the key completed.
unfoldable pub success : String → Time → ProgressTracker → ProgressTracker
unfolding Dict.lookup Dict.insert
success key now t = elim (Dict.lookup key t.entries) [
  | some e ↦ record t { entries = Dict.insert key (record e { last_success = now }) t.entries }
  | none ↦ t
]

-- The updater was deleted.
unfoldable pub forget : String → ProgressTracker → ProgressTracker
unfolding Dict.erase
forget key t = record t { entries = Dict.erase key t.entries }

-- The instant from which an entry's age is measured.
abbrev pub anchor : ProgressEntry → Time
anchor e = if is_zero e.last_success then e.first_attempt else e.last_success

unfoldable pub stale_at : ProgressTracker → ProgressEntry → Time → Bool
unfolding stale_window sub
stale_at t e now = ltb_ℤ (stale_window t e.interval) (sub now (anchor e))

unfoldable pub is_stale : ProgressTracker → String → Time → Bool
unfolding stale_at Dict.lookup
is_stale t key now = elim (Dict.lookup key t.entries) [ none ↦ false | some e ↦ stale_at t e now ]

-- The loop of `staleness`.
staleness_of : ProgressTracker → Time → Dict ProgressEntry → Dict Bool
unfolding stale_at
staleness_of t now [] = []
staleness_of t now ((key, e) ∷ more) = (key, stale_at t e now) ∷ staleness_of t now more

unfoldable pub staleness : ProgressTracker → Time → Dict Bool
unfolding staleness_of
staleness t now = staleness_of t now t.entries

-- The verdict of `ReconcileProgressHealthz`: `some n` is the error about `n` updaters.
unfoldable pub reconcile_progress_healthz : ProgressTracker → Time → Option ℕ
unfolding staleness
reconcile_progress_healthz t now = elim (staleness t now) [
  | [] ↦ none
  | e ∷ more ↦ if any (λ (_, stale). not stale) (e ∷ more) then none else some (length (e ∷ more))
]

-- The samples that `Collect` sends: 1 for a stale updater, 0 for another.
unfoldable pub collect : ProgressTracker → Time → List (String × ℕ)
unfolding staleness
collect t now = map (λ (key, stale). (key, if stale then 1 else 0)) (staleness t now)
