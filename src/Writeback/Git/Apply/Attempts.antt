-- ===== src/Writeback/Git/Apply/Attempts.antt =====
-- The attempts of Apply.
use argocd_tag_updater.Base.{
  ℕ, zero, suc, ◌<◌, ◌⊎◌, ◌<>◌, true, ◌≡◌, String, false, Result, ok, err, branch,
}
use argocd_tag_updater.Writeback.{Writer, WriteResult}
use argocd_tag_updater.Writeback.Git.{
  Stop, other_error, failed, panicked, GitEnv, Session, Git, AuthMethod,
}
use argocd_tag_updater.Writeback.Git.Once.{apply_once}
use argocd_tag_updater.Writeback.Git.Apply.{attempts}
use argocd_tag_updater.Writeback.Git.Apply.Clones.{Clones}

-- The result is no error that another attempt could mend.
abbrev pub IsFinal : Result Stop WriteResult → Type 0
IsFinal (ok result) = Unit
IsFinal (err (panicked text)) = Unit
IsFinal (err (failed e)) = e.is_non_fast_forward ≡ false

-- A push was rejected, so that another attempt may mend it.
abbrev pub IsRejected : Result Stop WriteResult → Type 0
IsRejected (ok result) = ⊥
IsRejected (err (panicked text)) = ⊥
IsRejected (err (failed e)) = e.is_non_fast_forward ≡ true

abbrev pub conflict : Writer → Result Stop WriteResult
conflict w = err (
    failed (
      other_error
        ("push " <> w.spec.repo <> " branch " <> w.spec.branch <> ": conflict after 3 attempts")))

module _ (env : GitEnv) (w : Writer) (method : AuthMethod) (url : String) where
  abbrev pub attempted : Session → Result Stop WriteResult × Session
  attempted s = apply_once env w method url s

  -- The session behind so many attempts, one after another.
  abbrev pub behind : ℕ → Session → Session
  behind zero s = s
  behind (suc k) s = behind k (attempted s).1

  -- The first `made` attempts end with rejected pushes. The loop ends as the next attempt does, which is
  -- no rejected push, or with a conflict where that were `n` attempts.
  pub record IsRun (n : ℕ) (s : Session) : Type 0 where
    pub made : ℕ
    pub rejected : (i : ℕ) → i < made → IsRejected (attempted (behind i s)).0
    pub ends :
        ((made < n)
          × IsFinal (attempted (behind made s)).0
          × (attempts env w method url n s ≡ attempted (behind made s)))
        ⊎ ((made ≡ n) × (attempts env w method url n s ≡ (conflict w, behind made s)))
