-- ===== src/Base/Flow/Gains.antt =====
-- What a computation has gained where it succeeds, whatever happens around it.
use mathlib.Core.Path.{◌≡◌, refl}
use argocd_tag_updater.Base.Flow.{Result, ok, err, M, gets, on_result, branch, ◌>>=◌}
use argocd_tag_updater.Base.Flow.Respects.{Respects}
use argocd_tag_updater.Base.Flow.Success.{bind_ok, Stops}
use mathlib.Core.Bool.{Bool, true, false}

-- Where `m` succeeds, `Q` relates the states before and after.
pub record Gains {S E A : Type 0} (Q : S → S → Type 0) (m : M S E A) : Type 0 where
  pub at : (s : S) (a : A) → (m s).0 ≡ ok a → Q s (m s).1

-- The steps around respect `P`, and a gain outlasts them.
pub record Outlasts {S : Type 0} (P Q : S → S → Type 0) : Type 0 where
  pub before : (s t u : S) → P s t → Q t u → Q s u
  pub after : (s t u : S) → Q s t → P t u → Q s u

module _ {S E : Type 0} {P Q : S → S → Type 0} (O : Outlasts P Q) where
  pub Gains-Stops : {A : Type 0} (m : M S E A) → Stops m → Gains Q m
  Gains-Stops m h = record { at = λ s a e. absurd (h.at s a e) }

  pub Gains-then :
      {A B : Type 0} (m : M S E A) (f : A → M S E B)
      → Respects P m
      → ((a : A) → Gains Q (f a))
      → Gains Q (m >>= f)
  unfolding ◌>>=◌
  Gains-then {A = A} {B = B} m f h k = record {
    at = λ s b e.
        let (a, _, e', last) = bind_ok m f s e in
        rw last (O.before s (m s).1 _ (h.at s) ((k a).at (m s).1 b e'));
  }

  pub Gains-first :
      {A B : Type 0} (m : M S E A) (f : A → M S E B)
      → Gains Q m
      → ((a : A) → Respects P (f a))
      → Gains Q (m >>= f)
  unfolding ◌>>=◌
  Gains-first m f h k = record {
    at = λ s b e.
        let (a, e', _, last) = bind_ok m f s e in
        rw last (O.after s (m s).1 _ (h.at s a e') ((k a).at (m s).1));
  }

  pub Gains-branch :
      {A : Type 0} (b : Bool) (m n : M S E A) → Gains Q m → Gains Q n → Gains Q (branch b m n)
  unfolding branch
  Gains-branch true m n h k = h
  Gains-branch false m n h k = k

  pub Gains-on_result :
      {F A B : Type 0} (r : Result F A) (f : A → M S E B) (g : F → M S E B)
      → ((a : A) → Gains Q (f a))
      → ((e : F) → Gains Q (g e))
      → Gains Q (on_result r f g)
  unfolding on_result
  Gains-on_result (ok a) f g h k = h a
  Gains-on_result (err e) f g h k = k e

-- Where every relation `R` asks for follows from a gain and what is kept after it, a chain whose first
-- step gains respects `R`.
pub Respects-gained :
    {S E A B : Type 0} {P Q R : S → S → Type 0} (m : M S E A) (f : A → M S E B)
    → Respects R m
    → Gains Q m
    → ((a : A) → Respects P (f a))
    → ((s t u : S) → Q s t → P t u → R s u)
    → Respects R (m >>= f)
unfolding ◌>>=◌
Respects-gained {S = S} {E = E} {A = A} {B = B} {R = R} m f h g k j = record {
  at = λ s. go s (m s).0 refl;
}
  where
    go :
        (s : S) (r : Result E A)
        → (m s).0 ≡ r
        → R s
            (let p : Result E B × S = elim r [ ok a ↦ f a (m s).1 | err e ↦ (err e, (m s).1) ] in
              p).1
    go s (ok a) e = j s (m s).1 _ (g.at s a e) ((k a).at (m s).1)
    go s (err e') e = h.at s

-- A first step establishes `Q`, whether it stops or not, and what follows keeps it.
pub Respects-established :
    {S E A B : Type 0} {P Q : S → S → Type 0} (m : M S E A) (f : A → M S E B)
    → Respects Q m
    → ((a : A) → Respects P (f a))
    → ((s t u : S) → Q s t → P t u → Q s u)
    → Respects Q (m >>= f)
unfolding ◌>>=◌
Respects-established {S = S} {E = E} {A = A} {B = B} {Q = Q} m f h k j = record {
  at = λ s. go s (m s).0;
}
  where
    go :
        (s : S) (r : Result E A)
        → Q s
            (let p : Result E B × S = elim r [ ok a ↦ f a (m s).1 | err e ↦ (err e, (m s).1) ] in
              p).1
    go s (ok a) = j s (m s).1 _ (h.at s) ((k a).at (m s).1)
    go s (err e) = h.at s

-- Reading the state first changes nothing.
pub Respects-read :
    {S E A B : Type 0} {Q : S → S → Type 0} (g : S → A) (f : A → M S E B)
    → ((a : A) → Respects Q (f a))
    → Respects Q (gets g >>= f)
unfolding ◌>>=◌
Respects-read g f h = record { at = λ s. (h (g s)).at s }
