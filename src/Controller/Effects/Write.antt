-- ===== src/Controller/Effects/Write.antt =====
-- The write to git and the record of it.
use argocd_tag_updater.Base.{◌+◌, ◌∷◌, String}
use argocd_tag_updater.Base.Dict.{Dict}
use argocd_tag_updater.Base.Time.{Time}
use argocd_tag_updater.Base.Flow.Respects.{Respects, respects_rules}
use argocd_tag_updater.Api.{TagUpdater}
use argocd_tag_updater.Writeback.{Credentials, Writer, WriteResult}
use argocd_tag_updater.Controller.Env.{Env, State, with_status}
use argocd_tag_updater.Controller.Effects.Rules.{Allows, effect_rules}
use argocd_tag_updater.Controller.Effects.Lookups.{lookup_rules}
use argocd_tag_updater.Controller.Effects.Endings.{ending_rules}
use argocd_tag_updater.Controller.Rollback.{writer_of}
use argocd_tag_updater.Controller.Status.{record_release}
use argocd_tag_updater.Controller.Write.{
  finish_unchanged, check_remote, write_back_failed, tell_written, apply_writer, write_fields,
  write_phase, finish_release,
}

module _ {env : Env} {R : State → State → Type 0} (L : Allows env R) (tu : TagUpdater)
    (key : String) where
  pub Respects-finish_unchanged : (tag : String) → Respects R (finish_unchanged env key tu tag)
  unfolding finish_unchanged
  Respects-finish_unchanged tag =
      search (respects_rules, effect_rules, lookup_rules, ending_rules, L, L.preorder) depth 30

  pub Respects-check_remote :
      (writer : Writer) (tag digest : String)
      → Respects R (check_remote env key tu writer tag digest)
  unfolding check_remote
  Respects-check_remote writer tag digest =
      search
        (
          respects_rules, effect_rules, lookup_rules, ending_rules, L, L.preorder,
          Respects-finish_unchanged,
        )
        depth 30

  pub Respects-write_back_failed :
      {A : Type 0} (message : String) → Respects R (write_back_failed env key tu {A = A} message)
  unfolding write_back_failed
  Respects-write_back_failed message =
      search (respects_rules, effect_rules, lookup_rules, ending_rules, L, L.preorder) depth 30

  pub Respects-tell_written :
      (tag : String) (result : WriteResult) → Respects R (tell_written env key tu tag result)
  unfolding tell_written
  Respects-tell_written tag result =
      search (respects_rules, effect_rules, lookup_rules, ending_rules, L, L.preorder) depth 30

  pub Respects-apply_writer :
      (writer : Writer) (tag : String)
      → ((s : State) → R s (record s { calls = s.calls + 1; writes = writer ∷ s.writes }))
      → Respects R (apply_writer env key tu writer tag)
  unfolding apply_writer
  Respects-apply_writer writer tag allowed =
      search
        (
          respects_rules, effect_rules, lookup_rules, ending_rules, L, L.preorder,
          Respects-tell_written, Respects-write_back_failed, allowed,
        )
        depth 30

  pub Respects-write_fields :
      (writer : Writer) (tag digest : String)
      → ((s : State) → R s (record s { calls = s.calls + 1; writes = writer ∷ s.writes }))
      → Respects R (write_fields env key tu writer tag digest)
  unfolding write_fields
  Respects-write_fields writer tag digest allowed =
      search
        (
          respects_rules, effect_rules, lookup_rules, ending_rules, L, L.preorder,
          Respects-check_remote, Respects-apply_writer, allowed,
        )
        depth 30

  pub Respects-write_phase :
      (tag : String) (fields : Dict String)
      → ((c : Credentials) (fields : Dict String) (s : State)
          → R s (record s { calls = s.calls + 1; writes = writer_of tu c fields ∷ s.writes }))
      → Respects R (write_phase env key tu tag fields)
  unfolding write_phase
  Respects-write_phase tag fields allowed =
      search
        (
          respects_rules, effect_rules, lookup_rules, ending_rules, L, L.preorder,
          Respects-write_fields, Respects-write_back_failed, allowed,
        )
        depth 30

  pub Respects-finish_release :
      (tag digest commit : String)
      → ((now : Time) (s : State) → R s (with_status (record_release tu tag digest commit now) s))
      → Respects R (finish_release env key tu tag digest commit)
  unfolding finish_release
  Respects-finish_release tag digest commit allowed =
      search (respects_rules, effect_rules, lookup_rules, ending_rules, L, L.preorder, allowed)
        depth 30
