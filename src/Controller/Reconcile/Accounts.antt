-- ===== src/Controller/Reconcile/Accounts.antt =====
-- `Reconcile`: its writes to git and the tag that it records.
use argocd_tag_updater.Base.{inl, refl, ◌+◌, String, ◌∷◌, attempt, ◌>>=◌}
use argocd_tag_updater.Base.Dict.{Dict, value}
use argocd_tag_updater.Base.Flow.Respects.{
  Respects, respects_rules, Respects-bind, Respects-on_result,
}
use argocd_tag_updater.Base.Flow.Success.{Stops, stops_rules}
use argocd_tag_updater.Base.Flow.Gains.{
  Gains, Gains-Stops, Gains-then, Gains-first, Gains-on_result, Respects-gained,
}
use argocd_tag_updater.Api.{TagUpdater, TagUpdaterStatus}
use argocd_tag_updater.Writeback.{Credentials}
use argocd_tag_updater.Controller.Env.{Env, State, with_status, apply}
use argocd_tag_updater.Controller.Effects.Rules.{Allows, Respects-apply, effect_rules}
use argocd_tag_updater.Controller.Effects.Lookups.{lookup_rules}
use argocd_tag_updater.Controller.Effects.Endings.{ending_rules}
use argocd_tag_updater.Controller.Effects.Watch.{
  Respects-previous_fields, Respects-rollback_with_status, Respects-check_health_and_maybe_rollback,
}
use argocd_tag_updater.Controller.Effects.Select.{
  Respects-oci_basic_auth, Respects-select_release, Respects-collect_fields, Respects-check_digest,
}
use argocd_tag_updater.Controller.Effects.Write.{
  Respects-check_remote, Respects-write_back_failed, Respects-tell_written, Respects-write_phase,
  Respects-finish_release,
}
use argocd_tag_updater.Controller.Effects.Phases.{Respects-reconcile_found}
use argocd_tag_updater.Controller.Outcome.{Outcome}
use argocd_tag_updater.Controller.Reconcile.{release_phase, reconcile_found}
use argocd_tag_updater.Controller.Rollback.{clear_watch, give_up_tag, writer_of, rollback_to}
use argocd_tag_updater.Controller.Health.{deployment_healthy, check_health_and_maybe_rollback}
use argocd_tag_updater.Controller.Write.{
  write_back_failed, apply_writer, write_fields, write_phase, finish_release,
}
use argocd_tag_updater.Controller.Reconcile.Ledger.{
  IsExtended, IsWritten, IsAccounted, nothing, one, extending, outlasts, unmoved, accounting,
  settled,
}

module _ (env : Env) (tu : TagUpdater) where
  L : Allows env (IsExtended tu)
  L = extending tu env

  Q : Allows env (IsAccounted tu)
  Q = accounting tu env

  Gains-apply :
      (c : Credentials) (fields : Dict String)
      → Gains (IsWritten tu) (apply env (writer_of tu c fields))
  unfolding apply
  Gains-apply c fields = record { at = λ s a e. one tu c fields s _ refl }

  wrote :
      (c : Credentials) (fields : Dict String) (s : State)
      → IsExtended tu s
          (record s { calls = s.calls + 1; writes = writer_of tu c fields ∷ s.writes })
  wrote c fields s = (one tu c fields s _ refl).extended

  accounted_write :
      (c : Credentials) (fields : Dict String) (s : State)
      → IsAccounted tu s
          (record s { calls = s.calls + 1; writes = writer_of tu c fields ∷ s.writes })
  accounted_write c fields s = record { extended = wrote c fields s; recorded = inl refl }

  any_status :
      (f : TagUpdaterStatus → TagUpdaterStatus) (s : State) → IsExtended tu s (with_status f s)
  any_status f s = nothing tu _ _ refl

  Respects-rollback_to :
      (bad previous : String) → Respects (IsAccounted tu) (rollback_to env tu bad previous)
  unfolding rollback_to
  Respects-rollback_to bad previous =
      Respects-bind Q.preorder _ _ (Respects-previous_fields Q tu previous) (λ fields.
        Respects-bind Q.preorder _ _ (search (lookup_rules, Q)) (λ credentials.
          Respects-gained {P = IsExtended tu} {Q = IsWritten tu} _ _
            (Respects-apply Q _ (accounted_write credentials fields))
            (Gains-apply credentials fields)
            (λ result. search (respects_rules, effect_rules, L, L.preorder, any_status) depth 30)
            (settled tu)))

  Respects-health : Respects (IsAccounted tu) (check_health_and_maybe_rollback env tu)
  unfolding clear_watch deployment_healthy give_up_tag
  Respects-health =
      Respects-check_health_and_maybe_rollback Q tu
        (record {
          clears = λ s. unmoved tu _ _ refl refl;
          recovers = λ s. unmoved tu _ _ refl refl;
          starts = λ now s. unmoved tu _ _ refl refl;
        })
        (Respects-rollback_with_status Q tu (λ bad s. unmoved tu _ _ refl refl)
          Respects-rollback_to)

  Stops-write_back_failed :
      {A : Type 0} (key message : String) → Stops (write_back_failed env key tu {A = A} message)
  unfolding write_back_failed
  Stops-write_back_failed key message = search stops_rules depth 20

  Gains-attempt :
      (c : Credentials) (fields : Dict String)
      → Gains (IsWritten tu) (attempt {F = Outcome} (apply env (writer_of tu c fields)))
  unfolding attempt apply
  Gains-attempt c fields = record { at = λ s a e. one tu c fields s _ refl }

  Gains-apply_writer :
      (key tag : String) (c : Credentials) (fields : Dict String)
      → Gains (IsWritten tu) (apply_writer env key tu (writer_of tu c fields) tag)
  unfolding apply_writer
  Gains-apply_writer key tag c fields =
      Gains-first (outlasts tu) _ _ (Gains-attempt c fields) (λ outcome.
        Respects-on_result outcome _ _ (λ result e. Respects-tell_written L tu key tag result)
          (λ message e. Respects-write_back_failed L tu key message))

  Gains-write_fields :
      (key tag digest : String) (c : Credentials) (fields : Dict String)
      → Gains (IsWritten tu) (write_fields env key tu (writer_of tu c fields) tag digest)
  unfolding write_fields
  Gains-write_fields key tag digest c fields =
      Gains-then (outlasts tu) _ _
        (Respects-check_remote L tu key (writer_of tu c fields) tag digest)
        (λ done. Gains-apply_writer key tag c fields)

  Gains-write_phase :
      (key tag : String) (fields : Dict String)
      → Gains (IsWritten tu) (write_phase env key tu tag fields)
  unfolding write_phase
  Gains-write_phase key tag fields =
      Gains-then (outlasts tu) _ _ (search (respects_rules, lookup_rules, L)) (λ outcome.
        Gains-on_result (outlasts tu) outcome _ _
          (λ c. Gains-write_fields key tag (value "image_digest" fields) c fields)
          (λ message. Gains-Stops (outlasts tu) _ (Stops-write_back_failed key message)))

  Respects-writing :
      (key tag : String) (fields : Dict String)
      → Respects (IsAccounted tu) (
          write_phase env key tu tag fields >>= λ result.
          finish_release env key tu tag (value "image_digest" fields) result.commit_sha)
  Respects-writing key tag fields =
      Respects-gained {P = IsExtended tu} {Q = IsWritten tu} _ _
        (Respects-write_phase Q tu key tag fields accounted_write)
        (Gains-write_phase key tag fields)
        (λ result. Respects-finish_release L tu key tag _ result.commit_sha (λ now. any_status _))
        (settled tu)

  Respects-releasing : (key : String) → Respects (IsAccounted tu) (release_phase env key tu)
  unfolding release_phase
  Respects-releasing key =
      search
        (
          respects_rules, ending_rules, lookup_rules, Q, Q.preorder, Respects-oci_basic_auth,
          Respects-select_release, Respects-collect_fields, Respects-check_digest, Respects-writing,
        )
        depth 30

  -- Behind the `Get`, a reconcile hands the writer only the updater's own manifest and targets, and the
  -- tag recorded as released is as before unless the writer was called.
  pub reconcile_found-IsAccounted :
      (key : String) (s : State) → IsAccounted tu s (reconcile_found env key tu s).1
  reconcile_found-IsAccounted key s =
      (Respects-reconcile_found Q tu key Respects-health (Respects-releasing key)).at s
