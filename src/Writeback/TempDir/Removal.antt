-- ===== src/Writeback/TempDir/Removal.antt =====
-- What the sweep over the temporary directory removes.
use mathlib.Core.List.{append_assoc}
use argocd_tag_updater.Base.{
  ℕ, ◌+◌, ◌<>◌, ◌≡◌, ◌⊎◌, ◌∙◌, inl, inr, refl, sym, ap, String, true, false, List, [], ◌∷◌, ◌++◌,
  Result, ok, err, Bool-cases, All, All-append, return, stop, modify, branch, on_result, ◌>>=◌,
}
use argocd_tag_updater.Base.Flow.Respects.{
  IsPreorder, Respects, respects_rules, Respects-bind, Respects-branch, Respects-return,
  Respects-stop,
}
use argocd_tag_updater.Base.Text.{has_prefix}
use argocd_tag_updater.Writeback.Paths.Clean.{join_path}
use argocd_tag_updater.Writeback.TempDir.{
  System, Trace, Stat, SystemError, exists_already, not_exist, other_failure, invoke, is_removable,
  remove_path, note_removal, after_stat, remove_candidate, remove_candidates,
  remove_interrupted_clones,
}

-- A path that may be removed: an entry of the root whose name begins with `clone-`, and that was read
-- as a directory of the current user's.
abbrev pub IsCandidate : System → String → String → Type 0
IsCandidate sys root path =
    (name : String) × (path ≡ join_path root name)
    × (has_prefix name "clone-" ≡ true)
    × ((n : ℕ) × ((status : Stat) × (sys.lstat n path ≡ ok status)
          × (is_removable sys status ≡ true)))

-- The paths removed in between are candidates.
abbrev pub Sweeps : System → String → Trace → Trace → Type 0
Sweeps sys root s t =
    (new : List String) × (t.removed ≡ new ++ s.removed) × All (IsCandidate sys root) new

module _ (sys : System) (root : String) where
  Sweeps-order : IsPreorder (Sweeps sys root)
  Sweeps-order = record {
    reflexive = λ s. ([], refl, tt);
    transitive = λ s t u (new, e, h) (new', e', h'). (
      new' ++ new,
      e' ∙ ap (λ (l : List String). new' ++ l) e ∙ sym (append_assoc new' new s.removed),
      All-append (IsCandidate sys root) new' new h' h,
    );
  }

  Respects-invoke :
      {A : Type 0} (f : ℕ → Result SystemError A) → Respects (Sweeps sys root) (invoke f)
  unfolding invoke
  Respects-invoke f = record { at = λ s. ([], refl, tt) }

  Respects-note :
      (path : String)
      → IsCandidate sys root path
      → Respects {E = String} (Sweeps sys root) (modify (note_removal path))
  unfolding modify note_removal
  Respects-note path h = record { at = λ s. (path ∷ [], refl, (h, tt)) }

  Respects-remove_path :
      (path : String)
      → IsCandidate sys root path
      → Respects (Sweeps sys root) (remove_path sys path)
  unfolding remove_path
  Respects-remove_path path h =
      Respects-bind Sweeps-order (modify (note_removal path))
        (λ _. invoke (λ n. sys.remove_all n path) >>= λ done.
          on_result done return (λ e. stop ("remove candidate " <> path <> ": " <> sys.message e)))
        (Respects-note path h)
        (λ _. search (respects_rules, Sweeps-order, Respects-invoke) depth 20)

  Respects-after_stat :
      (name : String) (n : ℕ) (r : Result SystemError Stat)
      → has_prefix name "clone-" ≡ true
      → sys.lstat n (join_path root name) ≡ r
      → Respects (Sweeps sys root) (after_stat sys (join_path root name) r)
  unfolding after_stat
  Respects-after_stat name n (ok status) h e =
      Respects-branch (is_removable sys status) (remove_path sys (join_path root name)) (return tt)
        (λ own. Respects-remove_path (join_path root name) (name, refl, h, (n, (status, e, own))))
        (λ _. Respects-return Sweeps-order tt)
  Respects-after_stat name n (err not_exist) h e = Respects-return Sweeps-order tt
  Respects-after_stat name n (err exists_already) h e = Respects-stop Sweeps-order _
  Respects-after_stat name n (err (other_failure x)) h e = Respects-stop Sweeps-order _

  Respects-remove_candidate :
      (name : String) → Respects (Sweeps sys root) (remove_candidate sys root name)
  unfolding remove_candidate invoke branch ◌>>=◌
  Respects-remove_candidate name = record { at = λ s. go s (Bool-cases (has_prefix name "clone-")) }
    where
      go :
          (s : Trace)
          → (has_prefix name "clone-" ≡ true) ⊎ (has_prefix name "clone-" ≡ false)
          → Sweeps sys root s (remove_candidate sys root name s).1
      go s (inl own) =
          rw (remove_candidate, own)
            ((Respects-after_stat name s.calls (sys.lstat s.calls (join_path root name)) own
                refl).at
              (record s { calls = s.calls + 1 }))
      go s (inr other) = rw (remove_candidate, other) ([], refl, tt)

  Respects-remove_candidates :
      (names : List String) → Respects (Sweeps sys root) (remove_candidates sys root names)
  unfolding remove_candidates
  Respects-remove_candidates [] = Respects-return Sweeps-order tt
  Respects-remove_candidates (name ∷ names) =
      Respects-bind Sweeps-order (remove_candidate sys root name)
        (λ _. remove_candidates sys root names) (Respects-remove_candidate name)
        (λ _. Respects-remove_candidates names)

  Respects-remove_interrupted_clones :
      Respects (Sweeps sys root) (remove_interrupted_clones sys root)
  unfolding remove_interrupted_clones
  Respects-remove_interrupted_clones =
      search (respects_rules, Sweeps-order, Respects-invoke, Respects-remove_candidates) depth 20

-- The sweep over interrupted clones removes only entries of the root whose names begin with `clone-` and
-- that `Lstat` reported as directories of the current user's, whether it ends with an error or not.
pub remove_interrupted_clones-Sweeps :
    (sys : System) (root : String) (t : Trace)
    → Sweeps sys root t (remove_interrupted_clones sys root t).1
remove_interrupted_clones-Sweeps sys root t = (Respects-remove_interrupted_clones sys root).at t
