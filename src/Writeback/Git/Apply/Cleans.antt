-- ===== src/Writeback/Git/Apply/Cleans.antt =====
-- The clone directories of Apply.
use mathlib.Core.List.{append_assoc}
use argocd_tag_updater.Base.{
  ℕ, zero, suc, ◌≡◌, ◌∙◌, refl, sym, ap, String, List, [], ◌∷◌, ◌++◌, Result, ok, err, modify,
  attempt, ◌>>=◌,
}
use argocd_tag_updater.Base.Flow.Respects.{
  Respects, respects_rules, Respects-bind, Respects-attempt, Respects-return, Respects-stop,
}
use argocd_tag_updater.Writeback.{Writer, WriteResult}
use argocd_tag_updater.Writeback.Git.{
  Stop, failed, panicked, GitEnv, Session, Git, AuthMethod, finally,
}
use argocd_tag_updater.Writeback.Git.Auth.{remove_file, keep_file}
use argocd_tag_updater.Writeback.Git.Auth.Effects.{Files, Respects-auth, Respects-finally}
use argocd_tag_updater.Writeback.Git.Once.{apply_once, keep_directory, remove_directory}
use argocd_tag_updater.Writeback.Git.Once.Effects.{
  Calls, Respects-call, Respects-fail, Respects-safe_path, Respects-in_clone,
}
use argocd_tag_updater.Writeback.Git.Apply.{after_attempt, attempts, apply}

abbrev SameDirectories : Session → Session → Type 0
SameDirectories s t =
    (t.directories ≡ s.directories) × (t.removed_directories ≡ s.removed_directories)

-- The directories created in between, and the same ones removed.
abbrev pub IsTidy : Session → Session → Type 0
IsTidy s t =
    (new : List String) × (t.directories ≡ new ++ s.directories)
    × (t.removed_directories ≡ new ++ s.removed_directories)

same_calls : Calls SameDirectories
same_calls = record {
  order = record {
    reflexive = λ s. (refl, refl);
    transitive = λ s t u h k. (k.0 ∙ h.0, k.1 ∙ h.1);
  };
  called = λ s. (refl, refl);
}

IsTidy-calls : Calls IsTidy
IsTidy-calls = record {
  order = record {
    reflexive = λ s. ([], refl, refl);
    transitive = λ s t u (new, d, r) (new', d', r'). (
      new' ++ new,
      d' ∙ ap (λ (l : List String). new' ++ l) d ∙ sym (append_assoc new' new s.directories),
      r'
          ∙ ap (λ (l : List String). new' ++ l) r
          ∙ sym (append_assoc new' new s.removed_directories),
    );
  };
  called = λ s. ([], refl, refl);
}

-- The directory is created, something else is done that leaves the directories alone, and it is removed.
IsTidy-directory :
    {A : Type 0} (dir : String) (m : Git A)
    → Respects SameDirectories m
    → Respects IsTidy (modify (keep_directory dir) >>= λ _. finally m (remove_directory dir))
unfolding finally keep_directory remove_directory ◌>>=◌
IsTidy-directory dir m h = record {
  at = λ s.
      let (d, r) = h.at (keep_directory dir s) in
      (dir ∷ [], d, ap (λ (l : List String). dir ∷ l) r);
}

Respects-apply_once :
    (env : GitEnv) (w : Writer) (method : AuthMethod) (url : String)
    → Respects IsTidy (apply_once env w method url)
unfolding apply_once
Respects-apply_once env w method url =
    search
      (
        respects_rules,
        IsTidy-calls.order,
        Respects-call IsTidy-calls,
        Respects-safe_path IsTidy-calls,
        IsTidy-directory,
        Respects-in_clone same_calls (λ s hash. (refl, refl)) (λ s. (refl, refl)),
      )
      depth 30

Respects-after_attempt :
    (again : Git WriteResult) (r : Result Stop WriteResult)
    → Respects IsTidy again
    → Respects IsTidy (after_attempt again r)
unfolding after_attempt
Respects-after_attempt again (ok result) h = Respects-return IsTidy-calls.order result
Respects-after_attempt again (err (panicked text)) h =
    Respects-stop IsTidy-calls.order (panicked text)
Respects-after_attempt again (err (failed e)) h =
    search (respects_rules, IsTidy-calls.order) depth 10

Respects-attempts :
    (env : GitEnv) (w : Writer) (method : AuthMethod) (url : String) (n : ℕ)
    → Respects IsTidy (attempts env w method url n)
unfolding attempts
Respects-attempts env w method url zero = Respects-fail IsTidy-calls _
Respects-attempts env w method url (suc n) =
    Respects-bind IsTidy-calls.order (attempt (apply_once env w method url))
      (after_attempt (attempts env w method url n))
      (Respects-attempt (apply_once env w method url) (Respects-apply_once env w method url))
      (λ r.
        Respects-after_attempt (attempts env w method url n) r
          (Respects-attempts env w method url n))

IsTidy-files : Files IsTidy
unfolding keep_file remove_file
IsTidy-files = record {
  calls = IsTidy-calls;
  kept = λ name s. ([], refl, refl);
  removed = λ name s. ([], refl, refl);
}

Respects-apply : (env : GitEnv) (w : Writer) → Respects IsTidy (apply env w)
unfolding apply
Respects-apply env w =
    search
      (
        respects_rules,
        IsTidy-calls.order,
        Respects-auth IsTidy-files,
        Respects-attempts,
        Respects-finally IsTidy-files,
      )
      depth 30

-- However `Apply` ends, it has removed just the clone directories that it created.
pub apply-IsTidy : (env : GitEnv) (w : Writer) (s : Session) → IsTidy s (apply env w s).1
apply-IsTidy env w s = (Respects-apply env w).at s
