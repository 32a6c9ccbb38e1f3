-- ===== src/Writeback/Git/Once/Effects.antt =====
-- What the steps of applyOnce keep, for any relation between sessions that the smallest effects keep.
use argocd_tag_updater.Base.{ℕ, ◌+◌, ◌<>◌, String, Bool, List, Result, return, stop}
use argocd_tag_updater.Base.Flow.Respects.{
  IsPreorder, Respects, respects_rules, Respects-on_result, Respects-return, Respects-stop,
}
use argocd_tag_updater.Writeback.{Writer}
use argocd_tag_updater.Writeback.Paths.{safe_manifest_path}
use argocd_tag_updater.Writeback.Yaml.{Failure, error, panic}
use argocd_tag_updater.Writeback.Yaml.Update.{update_manifest}
use argocd_tag_updater.Writeback.Git.{
  GitError, other_error, Stop, failed, panicked, GitEnv, Session, Git, AuthMethod, call, fail,
}
use argocd_tag_updater.Writeback.Git.Once.{
  begin_clone, take_push, clone_branch_for_writeback, safe_path, edit_manifest, unchanged,
  commit_failed, push, publish, in_clone,
}

-- The smallest effects of a step that neither clones nor pushes.
pub record Calls (R : Session → Session → Type 0) : Type 0 where
  pub order : IsPreorder R
  pub called : (s : Session) → R s (record s { calls = s.calls + 1 })

module _ {R : Session → Session → Type 0} (K : Calls R) where
  pub Respects-call : {E A : Type 0} (f : ℕ → Result E A) (e : E → GitError) → Respects R (call f e)
  unfolding call
  Respects-call f e = record { at = λ s. K.called s }

  pub Respects-fail : {A : Type 0} (e : GitError) → Respects R (fail {A = A} e)
  unfolding fail
  Respects-fail e = record { at = λ s. K.order.reflexive s }

  pub Respects-safe_path :
      (env : GitEnv) (root path : String) → Respects R (safe_path env root path)
  unfolding safe_path
  Respects-safe_path env root path =
      Respects-on_result (safe_manifest_path env.yaml.quote root path) return
        (λ e. fail (other_error e)) (λ a _. Respects-return K.order a)
        (λ e _. Respects-fail (other_error e))

  pub Respects-edit_manifest :
      (env : GitEnv) (w : Writer) (input : List ℕ) → Respects R (edit_manifest env w input)
  unfolding edit_manifest
  Respects-edit_manifest env w input =
      Respects-on_result (update_manifest env.yaml input w.targets w.values) return _
        (λ a _. Respects-return K.order a) (λ e _. go e)
    where
      go :
          (e : Failure)
          → Respects R (
              let m : Git (List ℕ × Bool) = elim e [
                | error text ↦ fail (other_error ("edit manifest " <> w.spec.path <> ": " <> text))
                | panic text ↦ stop (panicked text)
              ] in
              m)
      go (error text) =
          Respects-fail (other_error ("edit manifest " <> w.spec.path <> ": " <> text))
      go (panic text) = Respects-stop K.order (panicked text)

  pub Respects-unchanged : (env : GitEnv) (dir text : String) → Respects R (unchanged env dir text)
  unfolding unchanged
  Respects-unchanged env dir text = search (respects_rules, K.order, Respects-call) depth 30

  pub Respects-commit_failed :
      (env : GitEnv) (w : Writer) (dir : String) (e : Stop) → Respects R (commit_failed env w dir e)
  unfolding commit_failed
  Respects-commit_failed env w dir (panicked text) = Respects-stop K.order (panicked text)
  Respects-commit_failed env w dir (failed e) =
      search (respects_rules, K.order, Respects-unchanged, Respects-fail) depth 30

  module _ (begun : (s : Session) → R s (begin_clone s)) where
    pub Respects-clone :
        (env : GitEnv) (dir url : String) (method : AuthMethod) (name path : String)
        → Respects R (clone_branch_for_writeback env dir url method name path)
    unfolding clone_branch_for_writeback
    Respects-clone env dir url method name path =
        search (respects_rules, K.order, Respects-call, begun) depth 30

  module _ (taken : (s : Session) (hash : String) → R s (take_push hash s)) where
    pub Respects-push :
        (env : GitEnv) (dir : String) (method : AuthMethod) (hash : String)
        → Respects R (push env dir method hash)
    unfolding push
    Respects-push env dir method hash =
        search (respects_rules, K.order, Respects-call, taken) depth 30

    pub Respects-publish :
        (env : GitEnv) (w : Writer) (dir : String) (method : AuthMethod) (manifest clean : String)
        (output : List ℕ)
        → Respects R (publish env w dir method manifest clean output)
    unfolding publish
    Respects-publish env w dir method manifest clean output =
        search (respects_rules, K.order, Respects-call, Respects-push, Respects-commit_failed) depth
          30

    pub Respects-in_clone :
        (begun : (s : Session) → R s (begin_clone s)) (env : GitEnv) (w : Writer)
        (method : AuthMethod) (url clean dir : String)
        → Respects R (in_clone env w method url clean dir)
    unfolding in_clone
    Respects-in_clone begun env w method url clean dir =
        search
          (
            respects_rules,
            K.order,
            Respects-call,
            Respects-safe_path,
            Respects-edit_manifest,
            Respects-unchanged,
            Respects-publish,
            Respects-clone begun,
          )
          depth 30
