-- ===== src/Controller/Effects/Rules.antt =====
-- What the small effects do to the state: rules for any relation between the states before and after
-- that allows them.
use argocd_tag_updater.Base.{◌+◌, String, Option, none, some, List, ok, err, Result, ◌∷◌}
use argocd_tag_updater.Base.Int.{ℤ}
use argocd_tag_updater.Base.Flow.Respects.{IsPreorder, Respects}
use argocd_tag_updater.Api.{Condition, ConditionStatus, TagUpdaterStatus}
use argocd_tag_updater.Progress.{ProgressTracker}
use argocd_tag_updater.Writeback.{Writer}
use argocd_tag_updater.Controller.Env.{
  Env, State, tick, call, try_call, with_status, set_status, put_condition, set_condition,
  update_status, event, apply,
}
use argocd_tag_updater.Base.{ℕ}

-- The relation allows what every method may do: call outside, save the status, record an event, set
-- a condition, and keep its own books.
pub record Allows (env : Env) (R : State → State → Type 0) : Type 0 where
  pub preorder : IsPreorder R
  pub ticks : (s : State) → R s (tick s)
  pub saves : (s : State) → R s (record s { calls = s.calls + 1; stored = s.status })
  pub tells : (s : State) (events : List String) → R s (record s { events = events })
  pub judges : (s : State) (c : Condition) → R s (with_status (put_condition env c) s)
  pub progresses : (s : State) (p : ProgressTracker) → R s (record s { progress = p })
  pub tries_rev : (s : State) (n : ℤ) → R s (record s { first_rev_attempt = n })
  pub finds_rev : (s : State) (n : ℤ) → R s (record s { last_rev_success = n })

module _ {env : Env} {R : State → State → Type 0} (L : Allows env R) where
  pub Respects-call : {E A : Type 0} (f : ℕ → A) → Respects R (call {E = E} f)
  unfolding call
  Respects-call f = record { at = L.ticks }

  pub Respects-try_call : {A : Type 0} (f : ℕ → Result String A) → Respects R (try_call f)
  unfolding try_call
  Respects-try_call f = record { at = L.ticks }

  pub Respects-update_status : Respects R (update_status env)
  unfolding update_status
  Respects-update_status = record { at = λ s. go s (env.status_update s.calls) }
    where
      go :
          (s : State) (o : Option String)
          → R s
              (let p : Result String (Unit {0}) × State = elim o [
                | none ↦ (ok tt, record s { calls = s.calls + 1; stored = s.status })
                | some e ↦ (err e, tick s)
              ] in
                p).1
      go s none = L.saves s
      go s (some e) = L.ticks s

  pub Respects-set_condition :
      {E : Type 0} (type : String) (status : ConditionStatus) (reason message : String)
      → Respects R (set_condition env {E = E} type status reason message)
  unfolding set_condition
  Respects-set_condition type status reason message = record { at = λ s. L.judges s _ }

  pub Respects-event : {E : Type 0} (reason : String) → Respects R (event env {E = E} reason)
  unfolding event
  Respects-event reason = record { at = λ s. L.tells s _ }

  pub Respects-apply :
      (w : Writer)
      → ((s : State) → R s (record s { calls = s.calls + 1; writes = w ∷ s.writes }))
      → Respects R (apply env w)
  unfolding apply
  Respects-apply w h = record { at = h }

pub Respects-set_status :
    {E : Type 0} {R : State → State → Type 0} (f : TagUpdaterStatus → TagUpdaterStatus)
    → ((s : State) → R s (with_status f s))
    → Respects R (set_status {E = E} f)
unfolding set_status
Respects-set_status f h = record { at = h }

pub ruleset effect_rules = (
  Respects-call, Respects-try_call, Respects-update_status, Respects-set_condition, Respects-event,
  Respects-apply, Respects-set_status,
)
