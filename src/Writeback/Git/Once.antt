-- ===== src/Writeback/Git/Once.antt =====
-- applyOnce and cloneBranchForWriteback of internal/writeback/git.go.
pub mod Effects
use argocd_tag_updater.Base.{
  ℕ, ◌+◌, ◌<>◌, String, Bool, true, false, Option, none, some, List, [], ◌∷◌, Result, ok, err,
  return, stop, lift, gets, modify, attempt, on_result, branch, ◌>>=◌, ◌>>◌, ◌==◌, if◌then◌else◌,
}
use argocd_tag_updater.Writeback.{Writer, WriteResult}
use argocd_tag_updater.Writeback.Message.{commit_message}
use argocd_tag_updater.Writeback.Paths.{safe_manifest_path}
use argocd_tag_updater.Writeback.Yaml.{Failure, error, panic}
use argocd_tag_updater.Writeback.Yaml.Update.{update_manifest}
use argocd_tag_updater.Writeback.Git.{
  GitError, other_error, wrap, Stop, failed, panicked, GitEnv, Session, Git, AuthMethod, call, fail,
  finally,
}

unfoldable pub begin_clone : Session → Session
begin_clone s = record s { clones = s.clones + 1 }

unfoldable pub keep_directory : String → Session → Session
keep_directory dir s = record s { directories = dir ∷ s.directories }

unfoldable pub remove_directory : String → Session → Session
remove_directory dir s = record s { removed_directories = dir ∷ s.removed_directories }

unfoldable pub take_push : String → Session → Session
take_push hash s = record s { pushed = hash ∷ s.pushed }

unfoldable pub clone_branch_for_writeback :
    GitEnv → String → String → AuthMethod → String → String → Git (Unit {0})
unfolding call begin_clone ◌>>=◌
clone_branch_for_writeback env dir url method branch path = do
  modify begin_clone
  cloned ←
      call (λ n. env.plain_clone n method url branch dir)
        (wrap ("clone " <> url <> " branch " <> branch))
  opened ← call (λ n. env.worktree n dir) (wrap "open worktree")
  call (λ n. env.checkout n dir branch path) (wrap ("checkout manifest " <> path))

unfoldable pub safe_path : GitEnv → String → String → Git (String × String)
unfolding safe_manifest_path fail
safe_path env root path =
    on_result (safe_manifest_path env.yaml.quote root path) return (λ e. fail (other_error e))

-- `UpdateManifest`, whose errors are none of go-git's.
unfoldable pub edit_manifest : GitEnv → Writer → List ℕ → Git (List ℕ × Bool)
unfolding update_manifest fail
edit_manifest env w input =
    on_result (update_manifest env.yaml input w.targets w.values) return (λ e. elim e [
      | error text ↦ fail (other_error ("edit manifest " <> w.spec.path <> ": " <> text))
      | panic text ↦ stop (panicked text)
    ])

-- The head of the branch, where there is nothing to push.
unfoldable pub unchanged : GitEnv → String → String → Git WriteResult
unfolding call ◌>>=◌
unchanged env dir text = do
  hash ← call (λ n. env.head n dir) (wrap text)
  return (record { committed = false; commit_sha = hash })

unfoldable pub push : GitEnv → String → AuthMethod → String → Git WriteResult
unfolding call take_push ◌>>=◌
push env dir method hash = do
  done ← call (λ n. env.push n dir method) (λ e. e)
  modify (take_push hash)
  return (record { committed = true; commit_sha = hash })

-- Behind a commit that failed.
unfoldable pub commit_failed : GitEnv → Writer → String → Stop → Git WriteResult
unfolding unchanged fail
commit_failed env w dir (panicked text) = stop (panicked text)
commit_failed env w dir (failed e) =
    branch e.is_empty_commit (unchanged env dir "resolve manifest branch head after empty commit")
      (fail (wrap ("commit manifest " <> w.spec.path) e))

-- From the write of the file on.
unfoldable pub publish :
    GitEnv → Writer → String → AuthMethod → String → String → List ℕ → Git WriteResult
unfolding call commit_failed push commit_message ◌>>=◌
publish env w dir method manifest clean output = do
  written ← call (λ n. env.write_file n manifest output) (wrap ("write manifest " <> w.spec.path))
  staged ← call (λ n. env.stage n dir clean) (wrap ("stage manifest " <> clean))
  commit ← attempt (call (λ n. env.commit n dir (commit_message w)) (λ e. e))
  on_result commit (push env dir method) (commit_failed env w dir)

-- Inside the clone directory.
unfoldable pub in_clone : GitEnv → Writer → AuthMethod → String → String → String → Git WriteResult
unfolding clone_branch_for_writeback safe_path call edit_manifest unchanged publish ◌>>=◌
in_clone env w method url clean dir = do
  cloned ← clone_branch_for_writeback env dir url method w.spec.branch clean
  (manifest, inside) ← safe_path env dir w.spec.path
  input ← call (λ n. env.read_file n manifest) (wrap ("read manifest " <> w.spec.path))
  (output, changed) ← edit_manifest env w input
  branch changed (publish env w dir method manifest clean output)
      (unchanged env dir "resolve manifest branch head")

unfoldable pub apply_once : GitEnv → Writer → AuthMethod → String → Git WriteResult
unfolding safe_path call keep_directory remove_directory in_clone finally ◌>>=◌
apply_once env w method url = do
  (root, clean) ← safe_path env "." w.spec.path
  dir ← call env.new_clone_directory (wrap "create clone directory")
  modify (keep_directory dir)
  finally (in_clone env w method url clean dir) (remove_directory dir)
