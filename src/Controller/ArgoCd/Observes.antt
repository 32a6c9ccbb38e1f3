-- ===== src/Controller/ArgoCd/Observes.antt =====
-- When ArgoCD counts as having caught up with a commit.
use argocd_tag_updater.Base.{
  ◌≡◌, ◌≢◌, ◌↔◌, ◌⊎◌, inl, inr, String, Bool, true, Option, none, some, List, [], ◌∷◌, arith,
  Member, any, eq_iff, ◌<◌, Bool-cases, refl, ◌||◌,
}
use argocd_tag_updater.Base.Time.{Time, after}
use argocd_tag_updater.Controller.ArgoCd.{ArgoCdState, ArgoCdDeployment, names, observes}

-- ArgoCD names the commit: as the compared head, a sync revision, or a revision of a rollout.
abbrev pub IsNamed : ArgoCdState → String → Type 0
IsNamed s commit =
    (s.revision ≡ commit)
    ⊎ Member commit s.revisions
    ⊎ ((d : ArgoCdDeployment) × Member d s.deployments × Member commit d.revisions)

-- A rollout began after the push, whose time is known.
abbrev pub IsOvertaken : ArgoCdState → Option Time → Type 0
IsOvertaken s none = ⊥
IsOvertaken s (some pushed) =
    (d : ArgoCdDeployment) × Member d s.deployments × (pushed < d.started_at)

names_iff :
    (revisions : List String) (commit : String)
    → (names revisions commit ≡ true) ↔ Member commit revisions
names_iff [] commit = (λ h. cc, λ h. absurd h)
names_iff (r ∷ revisions) commit = ground (arith, eq_iff r commit, names_iff revisions commit)

any_sound :
    {A : Type 0} (p : A → Bool) (xs : List A)
    → any p xs ≡ true
    → (a : A) × Member a xs × (p a ≡ true)
any_sound p [] h = cc
any_sound p (x ∷ xs) h = elim (Bool-cases (p x)) [
  | inl e ↦ (x, inl refl, e)
  | inr e ↦ let r = any_sound p xs (rw (e, ◌||◌) at h) in (r.0, inr r.1, r.2)
]

any_complete :
    {A : Type 0} (p : A → Bool) (xs : List A) (a : A) → Member a xs → p a ≡ true → any p xs ≡ true
any_complete p [] a m h = absurd m
any_complete p (x ∷ xs) a (inl e) h = rw (e, h)
any_complete p (x ∷ xs) a (inr m) h = ground (arith, any_complete p xs a m h)

deployment_names_iff :
    (ds : List ArgoCdDeployment) (commit : String)
    → (any (λ d. names d.revisions commit) ds ≡ true)
      ↔ ((d : ArgoCdDeployment) × Member d ds × Member commit d.revisions)
deployment_names_iff ds commit = (
  λ h. let r = any_sound _ ds h in (r.0, r.1, (names_iff r.0.revisions commit).0 r.2),
  λ r. any_complete _ ds r.0 r.1 ((names_iff r.0.revisions commit).1 r.2),
)

overtakes_iff :
    (ds : List ArgoCdDeployment) (pushed : Time)
    → (any (λ d. after d.started_at pushed) ds ≡ true)
      ↔ ((d : ArgoCdDeployment) × Member d ds × (pushed < d.started_at))
overtakes_iff ds pushed = (
  λ h. let r = any_sound _ ds h in (r.0, r.1, ground (arith, r.2)),
  λ r. any_complete _ ds r.0 r.1 (ground (arith, r.2)),
)

-- ArgoCD counts as having caught up with a commit just where the commit is not empty and either ArgoCD
-- names it, or a rollout began after the push, whose time is known.
pub observes_iff :
    (s : ArgoCdState) (commit : String) (pushed_at : Option Time)
    → (observes s commit pushed_at ≡ true)
      ↔ ((commit ≢ "") × (IsNamed s commit ⊎ IsOvertaken s pushed_at))
unfolding observes
observes_iff s commit none = ground (
  arith,
  eq_iff commit "",
  eq_iff s.revision commit,
  names_iff s.revisions commit,
  deployment_names_iff s.deployments commit,
)
observes_iff s commit (some pushed) = ground (
  arith,
  eq_iff commit "",
  eq_iff s.revision commit,
  names_iff s.revisions commit,
  deployment_names_iff s.deployments commit,
  overtakes_iff s.deployments pushed,
)
