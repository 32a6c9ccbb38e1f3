-- ===== src/Writeback/Git/Apply.antt =====
-- Apply of internal/writeback/git.go.
pub mod Cleans
pub mod Accounts
pub mod Pushes
pub mod Clones
pub mod Attempts
use argocd_tag_updater.Base.{
  ℕ, zero, suc, ◌<>◌, String, Result, ok, err, return, stop, attempt, on_result, branch, ◌>>=◌,
}
use argocd_tag_updater.Writeback.{Writer, WriteResult}
use argocd_tag_updater.Writeback.Git.{
  GitError, other_error, Stop, failed, panicked, GitEnv, Git, AuthMethod, fail, finally,
}
use argocd_tag_updater.Writeback.Git.Auth.{auth, cleanup}
use argocd_tag_updater.Writeback.Git.Once.{apply_once}

-- Behind one attempt, where `again` is the rest of the loop.
unfoldable pub after_attempt : Git WriteResult → Result Stop WriteResult → Git WriteResult
unfolding ◌>>=◌
after_attempt again (ok result) = return result
after_attempt again (err (panicked text)) = stop (panicked text)
after_attempt again (err (failed e)) = branch e.is_non_fast_forward again (stop (failed e))

unfoldable pub attempts : GitEnv → Writer → AuthMethod → String → ℕ → Git WriteResult
unfolding apply_once after_attempt fail ◌>>=◌
attempts env w method url zero = fail (
    other_error
      ("push " <> w.spec.repo <> " branch " <> w.spec.branch <> ": conflict after 3 attempts"))
attempts env w method url (suc n) = do
  result ← attempt (apply_once env w method url)
  after_attempt (attempts env w method url n) result

unfoldable pub apply : GitEnv → Writer → Git WriteResult
unfolding auth attempts finally cleanup ◌>>=◌
apply env w = do
  (method, url, file) ← auth env w
  finally (attempts env w method url 3) (cleanup file)
