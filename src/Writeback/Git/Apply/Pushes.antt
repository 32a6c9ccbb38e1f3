-- ===== src/Writeback/Git/Apply/Pushes.antt =====
-- The pushes and the attempts of Apply.
use argocd_tag_updater.Base.{
  ℕ, zero, suc, ◌≡◌, ◌∙◌, refl, ap, String, true, Option, List, Result, ok, err, return, stop,
  modify, attempt, branch, ◌>>=◌,
}
use argocd_tag_updater.Base.Flow.Respects.{respects_rules}
use argocd_tag_updater.Writeback.{Writer, WriteResult}
use argocd_tag_updater.Writeback.Git.{
  Stop, failed, panicked, GitEnv, Session, Git, AuthMethod, finally,
}
use argocd_tag_updater.Writeback.Git.Auth.{cleanup, remove_file, keep_file}
use argocd_tag_updater.Writeback.Git.Auth.Effects.{Files, Respects-auth, Respects-cleanup}
use argocd_tag_updater.Writeback.Git.Once.{
  unchanged, commit_failed, push, publish, in_clone, apply_once, take_push, keep_directory,
  remove_directory,
}
use argocd_tag_updater.Writeback.Git.Once.Effects.{
  Respects-call, Respects-safe_path, Respects-clone, Respects-edit_manifest,
}
use argocd_tag_updater.Writeback.Git.Apply.{after_attempt, attempts, apply}
use argocd_tag_updater.Writeback.Git.Apply.Accounts.{
  pushes, Accounts, SamePushes, accounts_rules, same_calls, Accounts-fail, Accounts-stop,
  Accounts-branch,
}

Accounts-unchanged : (env : GitEnv) (dir text : String) → Accounts (unchanged env dir text)
unfolding unchanged
Accounts-unchanged env dir text = search (accounts_rules, Respects-call same_calls) depth 10

reported :
    (hash : String)
    → Accounts
        (modify (take_push hash) >>= λ _. return (record { committed = true; commit_sha = hash }))
unfolding take_push ◌>>=◌
reported hash = record { at = λ s. refl }

Accounts-push :
    (env : GitEnv) (dir : String) (method : AuthMethod) (hash : String)
    → Accounts (push env dir method hash)
unfolding push
Accounts-push env dir method hash =
    search (accounts_rules, Respects-call same_calls, reported) depth 10

Accounts-commit_failed :
    (env : GitEnv) (w : Writer) (dir : String) (e : Stop) → Accounts (commit_failed env w dir e)
unfolding commit_failed
Accounts-commit_failed env w dir (panicked text) = Accounts-stop (panicked text)
Accounts-commit_failed env w dir (failed e) = search (accounts_rules, Accounts-unchanged) depth 10

Accounts-publish :
    (env : GitEnv) (w : Writer) (dir : String) (method : AuthMethod) (manifest clean : String)
    (output : List ℕ)
    → Accounts (publish env w dir method manifest clean output)
unfolding publish
Accounts-publish env w dir method manifest clean output =
    search
      (
        accounts_rules,
        respects_rules,
        same_calls.order,
        Respects-call same_calls,
        Accounts-push,
        Accounts-commit_failed,
      )
      depth 20

Accounts-in_clone :
    (env : GitEnv) (w : Writer) (method : AuthMethod) (url clean dir : String)
    → Accounts (in_clone env w method url clean dir)
unfolding in_clone
Accounts-in_clone env w method url clean dir =
    search
      (
        accounts_rules,
        Respects-call same_calls,
        Respects-clone same_calls (λ s. refl),
        Respects-safe_path same_calls,
        Respects-edit_manifest same_calls,
        Accounts-publish,
        Accounts-unchanged,
      )
      depth 20

Accounts-directory :
    (dir : String) (m : Git WriteResult) → Accounts m → Accounts (finally m (remove_directory dir))
unfolding finally remove_directory
Accounts-directory dir m h = record { at = λ s. h.at s }

kept_directory : (dir : String) (s : Session) → SamePushes s (keep_directory dir s)
unfolding keep_directory
kept_directory dir s = refl

Accounts-apply_once :
    (env : GitEnv) (w : Writer) (method : AuthMethod) (url : String)
    → Accounts (apply_once env w method url)
unfolding apply_once
Accounts-apply_once env w method url =
    search
      (
        accounts_rules,
        respects_rules,
        same_calls.order,
        Respects-call same_calls,
        Respects-safe_path same_calls,
        Accounts-in_clone,
        Accounts-directory,
        kept_directory,
      )
      depth 20

-- An attempt and what follows it.
Accounts-attempt :
    (m again : Git WriteResult)
    → Accounts m
    → Accounts again
    → Accounts (attempt m >>= after_attempt again)
unfolding after_attempt ◌>>=◌
Accounts-attempt m again h k = record { at = λ s. go s (m s).0 (h.at s) }
  where
    go :
        (s : Session) (r : Result Stop WriteResult)
        → (m s).1.pushed ≡ pushes r s.pushed
        → (after_attempt again r (m s).1).1.pushed
          ≡ pushes (after_attempt again r (m s).1).0 s.pushed
    go s (ok result) q = q
    go s (err (panicked text)) q = q
    go s (err (failed e)) q =
        (Accounts-branch e.is_non_fast_forward again (stop (failed e)) k
            (Accounts-stop (failed e))).at
          (m s).1
        ∙ ap (pushes (branch e.is_non_fast_forward again (stop (failed e)) (m s).1).0) q

Accounts-attempts :
    (env : GitEnv) (w : Writer) (method : AuthMethod) (url : String) (n : ℕ)
    → Accounts (attempts env w method url n)
unfolding attempts
Accounts-attempts env w method url zero = Accounts-fail _
Accounts-attempts env w method url (suc n) =
    Accounts-attempt (apply_once env w method url) (attempts env w method url n)
      (Accounts-apply_once env w method url) (Accounts-attempts env w method url n)

same_files : Files SamePushes
unfolding keep_file remove_file
same_files = record { calls = same_calls; kept = λ name s. refl; removed = λ name s. refl }

Accounts-cleanup :
    (m : Git WriteResult) (file : Option String) → Accounts m → Accounts (finally m (cleanup file))
unfolding finally
Accounts-cleanup m file h = record { at = λ s. Respects-cleanup same_files file (m s).1 ∙ h.at s }

Accounts-apply : (env : GitEnv) (w : Writer) → Accounts (apply env w)
unfolding apply
Accounts-apply env w =
    search (accounts_rules, Respects-auth same_files, Accounts-attempts, Accounts-cleanup) depth 20

-- However `Apply` ends, the remote took one push if the result says that a commit was made, which is
-- the commit of the result, and none if it says that none was made, or if there is an error.
pub apply_pushed :
    (env : GitEnv) (w : Writer) (s : Session)
    → (apply env w s).1.pushed ≡ pushes (apply env w s).0 s.pushed
apply_pushed env w s = (Accounts-apply env w).at s
