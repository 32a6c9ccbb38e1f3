-- ===== src/Controller/Effects/Kept.antt =====
-- The relation that a part of the status is the same, for a part that no condition touches.
use argocd_tag_updater.Base.{◌≡◌, ◌∙◌, refl}
use argocd_tag_updater.Api.{Condition, TagUpdaterStatus}
use argocd_tag_updater.Controller.Env.{Env, State, put_condition}
use argocd_tag_updater.Controller.Effects.Rules.{Allows}

abbrev pub IsKept : {A : Type 0} → (TagUpdaterStatus → A) → State → State → Type 0
IsKept part s t = part t.status ≡ part s.status

pub kept :
    {A : Type 0} (env : Env) (part : TagUpdaterStatus → A)
    → ((c : Condition) (st : TagUpdaterStatus) → part (put_condition env c st) ≡ part st)
    → Allows env (IsKept part)
kept env part same = record {
  preorder = record { reflexive = λ s. refl; transitive = λ s t u p q. q ∙ p };
  ticks = λ s. refl;
  saves = λ s. refl;
  tells = λ s events. refl;
  judges = λ s c. same c s.status;
  progresses = λ s p. refl;
  tries_rev = λ s n. refl;
  finds_rev = λ s n. refl;
}
