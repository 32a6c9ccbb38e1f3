-- ===== src/Base/Flow/Respects.antt =====
-- Relations between the state before and after a computation: one rule for each way to build one.
use mathlib.Core.Path.{◌≡◌, refl}
use mathlib.Core.Bool.{Bool, true, false}
use mathlib.Core.Option.{Option, none, some}
use argocd_tag_updater.Base.Flow.{
  Result, ok, err, M, return, stop, lift, gets, modify, attempt, map_error, when, branch, on_option,
  on_result, ◌>>=◌,
}

pub record IsPreorder {S : Type 0} (R : S → S → Type 0) : Type 0 where
  pub reflexive : (s : S) → R s s
  pub transitive : (s t u : S) → R s t → R t u → R s u

-- The states before and after `m` are related, whether it returns or stops.
pub record Respects {S E A : Type 0} (R : S → S → Type 0) (m : M S E A) : Type 0 where
  pub at : (s : S) → R s (m s).1

module _ {S E A : Type 0} {R : S → S → Type 0} (P : IsPreorder R) where
  pub Respects-return : (a : A) → Respects R (return {E = E} a)
  unfolding return
  Respects-return a = record { at = λ s. P.reflexive s }

  pub Respects-stop : (e : E) → Respects R (stop {A = A} e)
  unfolding stop
  Respects-stop e = record { at = λ s. P.reflexive s }

  pub Respects-lift : (r : Result E A) → Respects R (lift r)
  unfolding lift
  Respects-lift r = record { at = λ s. P.reflexive s }

  pub Respects-gets : (f : S → A) → Respects R (gets {E = E} f)
  unfolding gets
  Respects-gets f = record { at = λ s. P.reflexive s }

module _ {S E : Type 0} {R : S → S → Type 0} where
  pub Respects-modify : (f : S → S) → ((s : S) → R s (f s)) → Respects R (modify {E = E} f)
  unfolding modify
  Respects-modify f h = record { at = h }

  pub Respects-when :
      (P : IsPreorder R) (b : Bool) (m : M S E (Unit {0}))
      → (b ≡ true → Respects R m)
      → Respects R (when b m)
  unfolding when
  Respects-when P true m h = h refl
  Respects-when P false m h = Respects-return P tt

module _ {S E F A : Type 0} {R : S → S → Type 0} where
  pub Respects-attempt : (m : M S E A) → Respects R m → Respects R (attempt {F = F} m)
  unfolding attempt
  Respects-attempt m h = record { at = λ s. h.at s }

  pub Respects-map_error : (f : E → F) (m : M S E A) → Respects R m → Respects R (map_error f m)
  unfolding map_error
  Respects-map_error f m h = record { at = λ s. go s (m s).0 (h.at s) }
    where
      go :
          (s : S) (r : Result E A)
          → R s (m s).1
          → R s
              (let p : Result F A × S = elim r [
                | ok a ↦ (ok a, (m s).1)
                | err e ↦ (err (f e), (m s).1)
              ] in
                p).1
      go s (ok a) k = k
      go s (err e) k = k

module _ {S E A : Type 0} {R : S → S → Type 0} where
  pub Respects-branch :
      (b : Bool) (m n : M S E A)
      → (b ≡ true → Respects R m)
      → (b ≡ false → Respects R n)
      → Respects R (branch b m n)
  unfolding branch
  Respects-branch true m n h k = h refl
  Respects-branch false m n h k = k refl

module _ {S E A B : Type 0} {R : S → S → Type 0} where
  pub Respects-on_option :
      (o : Option A) (m : M S E B) (f : A → M S E B)
      → (o ≡ none → Respects R m)
      → ((a : A) → o ≡ some a → Respects R (f a))
      → Respects R (on_option o m f)
  unfolding on_option
  Respects-on_option none m f h k = h refl
  Respects-on_option (some a) m f h k = k a refl

  pub Respects-on_result :
      {F : Type 0} (r : Result F A) (f : A → M S E B) (g : F → M S E B)
      → ((a : A) → r ≡ ok a → Respects R (f a))
      → ((e : F) → r ≡ err e → Respects R (g e))
      → Respects R (on_result r f g)
  unfolding on_result
  Respects-on_result (ok a) f g h k = h a refl
  Respects-on_result (err e) f g h k = k e refl

  pub Respects-bind :
      (P : IsPreorder R) (m : M S E A) (f : A → M S E B)
      → Respects R m
      → ((a : A) → Respects R (f a))
      → Respects R (m >>= f)
  unfolding ◌>>=◌
  Respects-bind P m f h k = record { at = λ s. go s (m s).0 (h.at s) }
    where
      go :
          (s : S) (r : Result E A)
          → R s (m s).1
          → R s
              (let p : Result E B × S = elim r [ ok a ↦ f a (m s).1 | err e ↦ (err e, (m s).1) ] in
                p).1
      go s (ok a) q = P.transitive s (m s).1 (f a (m s).1).1 q ((k a).at (m s).1)
      go s (err e) q = q

pub ruleset respects_rules = (
  Respects-return, Respects-stop, Respects-lift, Respects-gets, Respects-modify, Respects-when,
  Respects-attempt, Respects-map_error, Respects-branch, Respects-on_option, Respects-on_result,
  Respects-bind,
)
