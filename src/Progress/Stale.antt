-- ===== src/Progress/Stale.antt =====
-- When an updater counts as stale, and when the health check over all updaters fails.
use argocd_tag_updater.Base.{
  ◌≡◌, ◌≢◌, ◌↔◌, ◌⊎◌, inl, inr, refl, ℕ, String, true, false, not, Option, none, some, [], ◌∷◌, any,
  length, arith, eq_iff, Bool-cases, eqb, if◌then◌else◌, ◌==◌,
}
use argocd_tag_updater.Base.Int.{ltb_ℤ}
use argocd_tag_updater.Base.Time.{Time, sub}
use argocd_tag_updater.Base.Dict
use argocd_tag_updater.Base.Dict.{Dict, lookup-insert, lookup-erase}
use argocd_tag_updater.Progress.{
  ProgressEntry, ProgressTracker, stale_window, attempt, success, stale_at, is_stale, staleness_of,
  staleness, reconcile_progress_healthz,
}

-- Some entry is fresh.
abbrev pub HasFresh : ProgressTracker → Time → Dict ProgressEntry → Type 0
HasFresh t now [] = ⊥
HasFresh t now ((key, e) ∷ more) = (stale_at t e now ≡ false) ⊎ HasFresh t now more

fresh_iff :
    (t : ProgressTracker) (now : Time) (entries : Dict ProgressEntry)
    → (any (λ (_, stale). not stale) (staleness_of t now entries) ≡ true) ↔ HasFresh t now entries
unfolding staleness_of
fresh_iff t now [] = ground arith
fresh_iff t now ((key, e) ∷ more) = ground (arith, fresh_iff t now more)

-- The health check passes just where no updater is tracked or some tracked updater is fresh.
pub healthz-eq-none_iff :
    (t : ProgressTracker) (now : Time)
    → (reconcile_progress_healthz t now ≡ none) ↔ ((t.entries ≡ []) ⊎ HasFresh t now t.entries)
unfolding reconcile_progress_healthz staleness staleness_of
healthz-eq-none_iff t now = go t.entries
  where
    go :
        (entries : Dict ProgressEntry)
        → ((let verdict : Option ℕ = elim (staleness_of t now entries) [
          | [] ↦ none
          | e ∷ more ↦
              if any (λ (_, stale). not stale) (e ∷ more) then none else some (length (e ∷ more))
        ] in
              verdict)
            ≡ none)
          ↔ ((entries ≡ []) ⊎ HasFresh t now entries)
    go [] = (λ h. inl refl, λ h. refl)
    go ((key, e) ∷ more) = ground (arith, fresh_iff t now ((key, e) ∷ more))

eqb-false : (a b : ℕ) → a ≢ b → eqb a b ≡ false
eqb-false a b h = ground arith

is_stale-insert :
    (t : ProgressTracker) (key j : String) (at : Time) (e : ProgressEntry)
    → is_stale (record t { entries = Dict.insert key e t.entries }) j at
      ≡ (if key == j then stale_at t e at else is_stale t j at)
unfolding is_stale stale_at stale_window
is_stale-insert t key j at e = elim (Bool-cases (key == j)) [
  | inl same ↦ rw (is_stale, lookup-insert key j e t.entries, same)
  | inr other ↦ rw (is_stale, lookup-insert key j e t.entries, other)
]

success_known :
    (t : ProgressTracker) (key : String) (now : Time) (e : ProgressEntry)
    → Dict.lookup key t.entries ≡ some e
    → success key now t
      ≡ record t { entries = Dict.insert key (record e { last_success = now }) t.entries }
unfolding success
success_known t key now e h = rw (success, h)

attempt_known :
    (t : ProgressTracker) (key : String) (now : Time) (e : ProgressEntry)
    → Dict.lookup key t.entries ≡ some e
    → attempt key e.interval now t ≡ record t { entries = Dict.insert key e t.entries }
unfolding attempt
attempt_known t key now e h = rw (attempt, h)

-- A success at the instant `now`, which is not Go's zero time, of a tracked updater: its age counts from
-- `now`, and the staleness of the other updaters does not change.
pub is_stale-success :
    (t : ProgressTracker) (key j : String) (now at : Time) (e : ProgressEntry)
    → Dict.lookup key t.entries ≡ some e
    → now ≢ 0
    → is_stale (success key now t) j at
      ≡ (if key == j then ltb_ℤ (stale_window t e.interval) (sub at now) else is_stale t j at)
unfolding stale_at
is_stale-success t key j now at e h nz =
    rw (success_known t key now e h, is_stale-insert, eqb-false now 0 nz)

is_stale-known :
    (t : ProgressTracker) (key : String) (at : Time) (e : ProgressEntry)
    → Dict.lookup key t.entries ≡ some e
    → is_stale t key at ≡ stale_at t e at
unfolding is_stale
is_stale-known t key at e h = rw (is_stale, h)

-- Starting another reconcile of a tracked updater with the same interval makes no updater stale or fresh.
pub is_stale-attempt :
    (t : ProgressTracker) (key j : String) (now at : Time) (e : ProgressEntry)
    → Dict.lookup key t.entries ≡ some e
    → is_stale (attempt key e.interval now t) j at ≡ is_stale t j at
is_stale-attempt t key j now at e h = elim (Bool-cases (key == j)) [
  | inl same ↦ rw (
    attempt_known t key now e h,
    is_stale-insert t key j at e,
    same,
    ← (eq_iff key j).0 same,
    is_stale-known t key at e h,
  )
  | inr other ↦ rw (attempt_known t key now e h, is_stale-insert t key j at e, other)
]
