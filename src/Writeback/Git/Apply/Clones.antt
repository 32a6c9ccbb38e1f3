-- ===== src/Writeback/Git/Apply/Clones.antt =====
-- How many clones an attempt of Apply begins.
use argocd_tag_updater.Base.{
  ℕ, ◌+◌, ◌≤◌, ◌≡◌, ◌∙◌, refl, String, Result, ok, err, arith, modify, ◌>>=◌,
}
use argocd_tag_updater.Base.Flow.Respects.{Respects, respects_rules}
use argocd_tag_updater.Writeback.{Writer, WriteResult}
use argocd_tag_updater.Writeback.Git.{Stop, GitEnv, Session, Git, AuthMethod, finally}
use argocd_tag_updater.Writeback.Git.Once.{
  clone_branch_for_writeback, in_clone, apply_once, keep_directory, remove_directory, begin_clone,
  take_push,
}
use argocd_tag_updater.Writeback.Git.Once.Effects.{
  Calls, Respects-call, Respects-safe_path, Respects-edit_manifest, Respects-unchanged,
  Respects-publish,
}

abbrev SameClones : Session → Session → Type 0
SameClones s t = t.clones ≡ s.clones

same_calls : Calls SameClones
same_calls = record {
  order = record { reflexive = λ s. refl; transitive = λ s t u h k. k ∙ h };
  called = λ s. refl;
}

-- At most that many clones are begun.
pub record Clones {A : Type 0} (n : ℕ) (m : Git A) : Type 0 where
  pub at : (s : Session) → (m s).1.clones ≤ s.clones + n

module _ {A B : Type 0} where
  Clones-after :
      (n : ℕ) (m : Git A) (f : A → Git B)
      → Respects SameClones m
      → ((a : A) → Clones n (f a))
      → Clones n (m >>= f)
  unfolding ◌>>=◌
  Clones-after n m f h k = record { at = λ s. go s (m s).0 (h.at s) }
    where
      go :
          (s : Session) (r : Result Stop A)
          → (m s).1.clones ≡ s.clones
          → (let p : Result Stop B × Session = elim r [
            | ok a ↦ f a (m s).1
            | err e ↦ (err e, (m s).1)
          ] in
              p.1.clones ≤ s.clones + n)
      go s (ok a) q = omega (arith, (k a).at (m s).1)
      go s (err e) q = omega arith

  Clones-before :
      (n : ℕ) (m : Git A) (f : A → Git B)
      → Clones n m
      → ((a : A) → Respects SameClones (f a))
      → Clones n (m >>= f)
  unfolding ◌>>=◌
  Clones-before n m f h k = record { at = λ s. go s (m s).0 (h.at s) }
    where
      go :
          (s : Session) (r : Result Stop A)
          → (m s).1.clones ≤ s.clones + n
          → (let p : Result Stop B × Session = elim r [
            | ok a ↦ f a (m s).1
            | err e ↦ (err e, (m s).1)
          ] in
              p.1.clones ≤ s.clones + n)
      go s (ok a) q = omega (arith, (k a).at (m s).1)
      go s (err e) q = q

Clones-begin : Clones 1 (modify begin_clone)
unfolding modify begin_clone
Clones-begin = record { at = λ s. omega arith }

Clones-clone :
    (env : GitEnv) (dir url : String) (method : AuthMethod) (name path : String)
    → Clones 1 (clone_branch_for_writeback env dir url method name path)
unfolding clone_branch_for_writeback
Clones-clone env dir url method name path =
    search (Clones-before, Clones-begin, respects_rules, same_calls.order, Respects-call same_calls)
      depth 20

taken : (s : Session) (hash : String) → SameClones s (take_push hash s)
unfolding take_push
taken s hash = refl

Clones-in_clone :
    (env : GitEnv) (w : Writer) (method : AuthMethod) (url clean dir : String)
    → Clones 1 (in_clone env w method url clean dir)
unfolding in_clone
Clones-in_clone env w method url clean dir =
    search
      (
        Clones-before,
        Clones-clone,
        respects_rules,
        same_calls.order,
        Respects-call same_calls,
        Respects-safe_path same_calls,
        Respects-edit_manifest same_calls,
        Respects-unchanged same_calls,
        Respects-publish same_calls taken,
      )
      depth 30

Clones-directory :
    (dir : String) (m : Git WriteResult) → Clones 1 m → Clones 1 (finally m (remove_directory dir))
unfolding finally remove_directory
Clones-directory dir m h = record { at = λ s. h.at s }

kept : (dir : String) (s : Session) → SameClones s (keep_directory dir s)
unfolding keep_directory
kept dir s = refl

pub Clones-apply_once :
    (env : GitEnv) (w : Writer) (method : AuthMethod) (url : String)
    → Clones 1 (apply_once env w method url)
unfolding apply_once
Clones-apply_once env w method url =
    search
      (
        Clones-after,
        Clones-directory,
        Clones-in_clone,
        respects_rules,
        same_calls.order,
        Respects-call same_calls,
        Respects-safe_path same_calls,
        kept,
      )
      depth 30
