-- ===== src/Base/Lists.antt =====
-- Lists measured by native numbers, and predicates on all or some of their members.
use Prim.Native.Nat.{ℕ, zero, suc, ◌+◌}
use mathlib.Core.Path.{◌≡◌, refl}
use mathlib.Core.Logic.{◌↔◌, ◌⊎◌, inl, inr}
use mathlib.Core.Bool.{Bool, false, ◌||◌}
use mathlib.Core.List.{List, [], ◌∷◌, ◌++◌, reverse, reverse-cons, reverse-reverse}
use mathlib.Core.Path.{subst}
use mathlib.Core.Option.{Option, none, some}
use native.Mathlib.Omega.{arith}

module _ {ℓ} {A : Type ℓ} where
  abbrev pub length : List A → ℕ
  length [] = 0
  length (x ∷ xs) = suc (length xs)

  abbrev pub get_elem? : List A → ℕ → Option A
  get_elem? [] i = none
  get_elem? (x ∷ xs) zero = some x
  get_elem? (x ∷ xs) (suc i) = get_elem? xs i

  abbrev pub take : ℕ → List A → List A
  take zero xs = []
  take (suc n) [] = []
  take (suc n) (x ∷ xs) = x ∷ take n xs

  abbrev pub drop : ℕ → List A → List A
  drop zero xs = xs
  drop (suc n) [] = []
  drop (suc n) (x ∷ xs) = drop n xs

  pub length-append : (xs ys : List A) → length (xs ++ ys) ≡ length xs + length ys
  length-append [] ys = omega arith
  length-append (x ∷ xs) ys = omega (arith, length-append xs ys)

  -- A loop over a list that returns early where a test passes.
  abbrev pub any : (A → Bool) → List A → Bool
  any p [] = false
  any p (x ∷ xs) = p x || any p xs

-- Membership that can be taken apart.
abbrev pub Member : {A : Type 0} → A → List A → Type 0
Member a [] = ⊥
Member a (x ∷ xs) = (x ≡ a) ⊎ Member a xs

module _ {κ} {A : Type 0} where
  abbrev pub All : (A → Type κ) → List A → Type κ
  All P [] = Unit
  All P (x ∷ xs) = P x × All P xs

  pub All-Member : (P : A → Type κ) (xs : List A) {a : A} → All P xs → Member a xs → P a
  All-Member P [] h m = absurd m
  All-Member P (x ∷ xs) {a} h (inl e) = rw e at h.0
  All-Member P (x ∷ xs) h (inr m) = All-Member P xs h.1 m

  pub All-of_Member : (P : A → Type κ) (xs : List A) → ((a : A) → Member a xs → P a) → All P xs
  All-of_Member P [] h = tt
  All-of_Member P (x ∷ xs) h = (h x (inl refl), All-of_Member P xs (λ a m. h a (inr m)))

  pub All-append : (P : A → Type κ) (xs ys : List A) → All P xs → All P ys → All P (xs ++ ys)
  All-append P [] ys h k = k
  All-append P (x ∷ xs) ys h k = (h.0, All-append P xs ys h.1 k)

  pub All-reverse : (P : A → Type κ) (xs : List A) → All P xs → All P (reverse xs)
  All-reverse P [] h = tt
  All-reverse P (x ∷ xs) h =
      rw reverse-cons (All-append P (reverse xs) (x ∷ []) (All-reverse P xs h.1) (h.0, tt))

  pub All-map : (P Q : A → Type κ) (xs : List A) → ((x : A) → P x → Q x) → All P xs → All Q xs
  All-map P Q [] f h = tt
  All-map P Q (x ∷ xs) f h = (f x h.0, All-map P Q xs f h.1)

pub Member-reverse : {A : Type 0} (xs : List A) (a : A) → Member a xs ↔ Member a (reverse xs)
Member-reverse xs a = (
  All-Member (λ y. Member y (reverse xs)) xs
      (subst (All (λ y. Member y (reverse xs))) (reverse-reverse xs) (
        All-reverse (λ y. Member y (reverse xs)) (reverse xs)
          (All-of_Member (λ y. Member y (reverse xs)) (reverse xs) (λ y m. m)))),
  All-Member (λ y. Member y xs) (reverse xs)
      (All-reverse (λ y. Member y xs) xs (All-of_Member (λ y. Member y xs) xs (λ y m. m))),
)
