-- ===== src/Base/Flow/Success.antt =====
-- What the success of a chain says of its steps.
use mathlib.Core.Path.{◌≡◌, refl}
use mathlib.Core.Logic.{◌≢◌}
use argocd_tag_updater.Base.Flow.{Result, ok, err, M, stop, ◌>>=◌}

-- A chain succeeds only if its first step does, and the rest from the state behind it.
pub bind_ok :
    {S E A B : Type 0} (m : M S E A) (f : A → M S E B) (s : S) {b : B}
    → ((m >>= f) s).0 ≡ ok b
    → (a : A) × ((m s).0 ≡ ok a) × ((f a (m s).1).0 ≡ ok b) × (((m >>= f) s).1 ≡ (f a (m s).1).1)
unfolding ◌>>=◌
bind_ok {S = S} {E = E} {A = A} {B = B} m f s {b} h = go (m s).0 refl h
  where
    go :
        (r : Result E A)
        → (m s).0 ≡ r
        → (let p : Result E B × S = elim r [ ok a ↦ f a (m s).1 | err e ↦ (err e, (m s).1) ] in p).0
          ≡ ok b
        → (a : A) × ((m s).0 ≡ ok a)
          × ((f a (m s).1).0 ≡ ok b)
          × ((let p : Result E B × S = elim r [ ok a ↦ f a (m s).1 | err e ↦ (err e, (m s).1) ] in
                p).1
              ≡ (f a (m s).1).1)
    go (ok a) e h = (a, e, h, refl)
    go (err e') e h = cc

-- The computation always stops early.
pub record Stops {S E A : Type 0} (m : M S E A) : Type 0 where
  pub at : (s : S) (a : A) → (m s).0 ≢ ok a

module _ {S E A : Type 0} where
  pub Stops-stop : (e : E) → Stops {S = S} (stop {A = A} e)
  unfolding stop
  Stops-stop e = record { at = λ s a h. cc }

  pub Stops-bind :
      {B : Type 0} (m : M S E B) (f : B → M S E A) → ((b : B) → Stops (f b)) → Stops (m >>= f)
  Stops-bind m f h = record { at = λ s a e. let (b, _, e', _) = bind_ok m f s e in (h b).at _ a e' }

pub ruleset stops_rules = (Stops-stop, Stops-bind)
