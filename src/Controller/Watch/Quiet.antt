-- ===== src/Controller/Watch/Quiet.antt =====
-- Steps of the health check that write nothing to git, and where a write in a chain of steps is.
use argocd_tag_updater.Base.{
  ◌≡◌, ◌≢◌, ◌⊎◌, inl, inr, refl, ap, ◌∙◌, String, Bool, true, false, Result, ok, err, arith, ◌≤◌,
  attempt, ◌>>=◌, branch, on_result,
}
use argocd_tag_updater.Base.Flow.Respects.{Respects}
use argocd_tag_updater.Controller.Env.{Env, State, Go, put_condition}
use argocd_tag_updater.Controller.Effects.Rules.{Allows}
use argocd_tag_updater.Controller.Effects.Watch.{AllowsWatch}

-- No write to git happens in between.
abbrev pub IsUnwritten : State → State → Type 0
IsUnwritten s t = t.writes ≡ s.writes

pub quiet : (env : Env) → Allows env IsUnwritten
quiet env = record {
  preorder = record { reflexive = λ s. refl; transitive = λ s t u p q. q ∙ p };
  ticks = λ s. refl;
  saves = λ s. refl;
  tells = λ s events. refl;
  judges = λ s c. refl;
  progresses = λ s p. refl;
  tries_rev = λ s n. refl;
  finds_rev = λ s n. refl;
}

pub quiet_watch : AllowsWatch IsUnwritten
quiet_watch = record { clears = λ s. refl; recovers = λ s. refl; starts = λ now s. refl }

-- Calls were made, and the watch is the same.
pub record IsLater (s t : State) : Type 0 where
  pub calls : s.calls ≤ t.calls
  pub since : t.status.watching_since ≡ s.status.watching_since
  pub commit : t.status.watching_commit ≡ s.status.watching_commit
  pub armed_at : t.status.watching_armed_at ≡ s.status.watching_armed_at

pub later : (env : Env) → Allows env IsLater
unfolding put_condition
later env = record {
  preorder = record {
    reflexive = λ s. record { calls = omega arith; since = refl; commit = refl; armed_at = refl };
    transitive = λ s t u p q. record {
      calls = omega (arith, p.calls, q.calls);
      since = q.since ∙ p.since;
      commit = q.commit ∙ p.commit;
      armed_at = q.armed_at ∙ p.armed_at;
    };
  };
  ticks = λ s. record { calls = omega arith; since = refl; commit = refl; armed_at = refl };
  saves = λ s. record { calls = omega arith; since = refl; commit = refl; armed_at = refl };
  tells = λ s events. record { calls = omega arith; since = refl; commit = refl; armed_at = refl };
  judges = λ s c. record { calls = omega arith; since = refl; commit = refl; armed_at = refl };
  progresses = λ s p. record { calls = omega arith; since = refl; commit = refl; armed_at = refl };
  tries_rev = λ s n. record { calls = omega arith; since = refl; commit = refl; armed_at = refl };
  finds_rev = λ s n. record { calls = omega arith; since = refl; commit = refl; armed_at = refl };
}

abbrev pub Writes : {A : Type 0} → Go A → State → Type 0
Writes m s = (m s).1.writes ≢ s.writes

pub Writes-branch :
    {A : Type 0} (b : Bool) (m n : Go A) (s : State)
    → Writes (branch b m n) s
    → ((b ≡ true) × Writes m s) ⊎ ((b ≡ false) × Writes n s)
unfolding branch
Writes-branch true m n s w = inl (refl, w)
Writes-branch false m n s w = inr (refl, w)

-- The chain went on behind the step, with its value, and wrote there.
pub record Continues {A B : Type 0} (m : Go A) (f : A → Go B) (whole : Go B) (s : State)
    : Type 0 where
  pub value : A
  pub returned : (m s).0 ≡ ok value
  pub goes_on : whole s ≡ f value (m s).1
  pub writes : Writes (f value) (m s).1

-- A write after a step that is quiet itself.
pub Writes-bind :
    {A B : Type 0} (m : Go A) (f : A → Go B) (s : State)
    → Respects IsUnwritten m
    → Writes (m >>= f) s
    → Continues m f (m >>= f) s
unfolding ◌>>=◌
Writes-bind {A = A} {B = B} m f s quiet_m w = go (m s).0 refl w
  where
    rest : Result String A → Result String B × State
    rest r = elim r [ ok a ↦ f a (m s).1 | err e ↦ (err e, (m s).1) ]

    go :
        (r : Result String A)
        → (m s).0 ≡ r
        → (rest r).1.writes ≢ s.writes
        → Continues m f (m >>= f) s
    go (ok a) e w = record {
      value = a;
      returned = e;
      goes_on = ap rest e;
      writes = λ p. w (p ∙ quiet_m.at s);
    }
    go (err e') e w = absurd (w (quiet_m.at s))

-- A write after a reading that is quiet itself, and answered quietly where it fails.
pub Writes-attempt :
    {A B : Type 0} (m : Go A) (f : A → Go B) (g : String → Go B) (s : State)
    → Respects IsUnwritten m
    → ((e : String) → Respects IsUnwritten (g e))
    → Writes (attempt m >>= λ r. on_result r f g) s
    → Continues m f (attempt m >>= λ r. on_result r f g) s
unfolding ◌>>=◌
Writes-attempt m f g s quiet_m quiet_g w = go _ refl w
  where
    go :
        (r : Result String _)
        → (m s).0 ≡ r
        → (on_result r f g (m s).1).1.writes ≢ s.writes
        → Continues m f (attempt m >>= λ r. on_result r f g) s
    go (ok a) e w = record {
      value = a;
      returned = e;
      goes_on = ap (λ r. on_result r f g (m s).1) e;
      writes = λ p. w (p ∙ quiet_m.at s);
    }
    go (err e') e w = absurd (w ((quiet_g e').at _ ∙ quiet_m.at s))
