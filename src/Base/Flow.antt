-- ===== src/Base/Flow.antt =====
-- Go's `(value, error)` pairs, and stateful code that may return early. `err` carries an error; in
-- the reconciler it also carries the result of an early `return`.
pub mod Respects
pub mod Success
pub mod Gains
use mathlib.Core.Path.{◌≡◌}
use Prim.Native.String.{String}
use mathlib.Core.Bool.{Bool, true, false}
use mathlib.Core.Option.{Option, none, some}

pub data Result {ℓ κ} (E : Type ℓ) (A : Type κ) : Type (ℓ ⊔ κ) where
  ok : A → Result E A
  err : E → Result E A

pub ok_injective : {E A : Type 0} {a b : A} → ◌≡◌ {A = Result E A} (ok a) (ok b) → a ≡ b
ok_injective h = cc

-- A computation over a state that may stop with an `E`. What it did to the state stays done.
abbrev pub M : Type 0 → Type 0 → Type 0 → Type 0
M S E A = S → Result E A × S

module _ {S E A : Type 0} where
  unfoldable pub return : A → M S E A
  return a s = (ok a, s)

  -- An early `return`.
  unfoldable pub stop : E → M S E A
  stop e s = (err e, s)

  -- A result that is already there.
  unfoldable pub lift : Result E A → M S E A
  lift r s = (r, s)

  -- Reads the state.
  unfoldable pub gets : (S → A) → M S E A
  gets f s = (ok (f s), s)

-- A change of the state.
unfoldable pub modify : {S E : Type 0} → (S → S) → M S E (Unit {0})
modify f s = (ok tt, f s)

-- `x, err := f()`: an error is a value like another.
unfoldable pub attempt : {S E F A : Type 0} → M S E A → M S F (Result E A)
attempt m s = (ok (m s).0, (m s).1)

-- An error is changed on its way up.
unfoldable pub map_error : {S E F A : Type 0} → (E → F) → M S E A → M S F A
map_error f m s = elim (m s).0 [ ok a ↦ (ok a, (m s).1) | err e ↦ (err (f e), (m s).1) ]

-- An `if` with no `else`.
unfoldable pub when : {S E : Type 0} → Bool → M S E (Unit {0}) → M S E (Unit {0})
when true m = m
when false m = return tt

-- A branch on a test, a pointer, or a result.
unfoldable pub branch : {S E A : Type 0} → Bool → M S E A → M S E A → M S E A
branch true m n = m
branch false m n = n

unfoldable pub on_option : {S E A B : Type 0} → Option A → M S E B → (A → M S E B) → M S E B
on_option none m f = m
on_option (some a) m f = f a

unfoldable pub on_result :
    {S E F A B : Type 0} → Result F A → (A → M S E B) → (F → M S E B) → M S E B
on_result (ok a) f g = f a
on_result (err e) f g = g e

-- The line opens the other combinators too.
infixl 5 ◌>>=◌ ◌>>◌
unfoldable pub ◌>>=◌ : {S E A B : Type 0} → M S E A → (A → M S E B) → M S E B
unfolding return stop lift gets modify attempt map_error when branch on_option on_result
◌>>=◌ m f s = elim (m s).0 [ ok a ↦ f a (m s).1 | err e ↦ (err e, (m s).1) ]

abbrev pub ◌>>◌ : {S E B : Type 0} → M S E (Unit {0}) → M S E B → M S E B
m >> k = m >>= λ _. k
