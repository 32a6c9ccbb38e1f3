-- ===== src/Writeback/Git/Apply/Accounts.antt =====
-- Rules for what a step of Apply pushes.
use argocd_tag_updater.Base.{
  ◌≡◌, ◌∙◌, refl, ap, String, Bool, true, false, List, ◌∷◌, Result, ok, err, return, stop, branch,
  on_result, ◌>>=◌, if◌then◌else◌,
}
use argocd_tag_updater.Base.Flow.Respects.{Respects}
use argocd_tag_updater.Writeback.{WriteResult}
use argocd_tag_updater.Writeback.Git.{GitError, Stop, Session, Git, fail}
use argocd_tag_updater.Writeback.Git.Once.Effects.{Calls}

-- The pushes that the remote took, by the result: a commit that is reported as made is the one push.
abbrev pub pushes : Result Stop WriteResult → List String → List String
pushes (ok result) before = if result.committed then result.commit_sha ∷ before else before
pushes (err e) before = before

-- The pushes behind a computation are those that its result reports.
pub record Accounts (m : Git WriteResult) : Type 0 where
  pub at : (s : Session) → (m s).1.pushed ≡ pushes (m s).0 s.pushed

abbrev pub SamePushes : Session → Session → Type 0
SamePushes s t = t.pushed ≡ s.pushed

pub same_calls : Calls SamePushes
same_calls = record {
  order = record { reflexive = λ s. refl; transitive = λ s t u h k. k ∙ h };
  called = λ s. refl;
}

pub Accounts-bind :
    {A : Type 0} (m : Git A) (f : A → Git WriteResult)
    → Respects SamePushes m
    → ((a : A) → Accounts (f a))
    → Accounts (m >>= f)
unfolding ◌>>=◌
Accounts-bind {A} m f h k = record { at = λ s. go s (m s).0 (h.at s) }
  where
    go :
        (s : Session) (r : Result Stop A)
        → (m s).1.pushed ≡ s.pushed
        → (let p : Result Stop WriteResult × Session = elim r [
          | ok a ↦ f a (m s).1
          | err e ↦ (err e, (m s).1)
        ] in
            p.1.pushed ≡ pushes p.0 s.pushed)
    go s (ok a) q = (k a).at (m s).1 ∙ ap (pushes (f a (m s).1).0) q
    go s (err e) q = q

pub Accounts-fail : (e : GitError) → Accounts (fail e)
unfolding fail
Accounts-fail e = record { at = λ s. refl }

pub Accounts-stop : (e : Stop) → Accounts (stop e)
unfolding stop
Accounts-stop e = record { at = λ s. refl }

pub Accounts-return :
    (hash : String) → Accounts (return (record { committed = false; commit_sha = hash }))
unfolding return
Accounts-return hash = record { at = λ s. refl }

pub Accounts-branch :
    (b : Bool) (m n : Git WriteResult) → Accounts m → Accounts n → Accounts (branch b m n)
unfolding branch
Accounts-branch true m n h k = h
Accounts-branch false m n h k = k

pub Accounts-on_result :
    {F A : Type 0} (r : Result F A) (f : A → Git WriteResult) (g : F → Git WriteResult)
    → ((a : A) → Accounts (f a))
    → ((e : F) → Accounts (g e))
    → Accounts (on_result r f g)
unfolding on_result
Accounts-on_result (ok a) f g h k = h a
Accounts-on_result (err e) f g h k = k e

pub ruleset accounts_rules = (
  Accounts-bind, Accounts-fail, Accounts-stop, Accounts-return, Accounts-branch, Accounts-on_result,
)
