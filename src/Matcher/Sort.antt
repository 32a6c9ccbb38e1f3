-- ===== src/Matcher/Sort.antt =====
-- The contract of Go's `sort.Slice`, and the insertion sort that Go uses for up to twelve items.
use argocd_tag_updater.Base.{
  ◌≡◌, Bool, true, false, ◌↔◌, ◌⊎◌, inl, inr, List, [], ◌∷◌, arith, if◌then◌else◌, Member, All,
  Bool-cases, All-Member, All-of_Member,
}

module _ {A : Type 0} where
  -- `less` orders the items of the list: irreflexive, transitive, with transitive incomparability.
  pub record IsStrictWeak (less : A → A → Bool) (xs : List A) : Type 0 where
    pub irreflexive : (a : A) → Member a xs → less a a ≡ false
    pub transitive :
        (a b c : A)
        → Member a xs
        → Member b xs
        → Member c xs
        → less a b ≡ true
        → less b c ≡ true
        → less a c ≡ true
    pub incomparable :
        (a b c : A)
        → Member a xs
        → Member b xs
        → Member c xs
        → less a b ≡ false
        → less b c ≡ false
        → less a c ≡ false

  -- No later item is less than an earlier one.
  abbrev pub IsSorted : (A → A → Bool) → List A → Type 0
  IsSorted less [] = Unit
  IsSorted less (x ∷ xs) = All (λ y. less y x ≡ false) xs × IsSorted less xs

-- What the documentation of `sort.Slice` promises: the same items, in order if `less` orders them.
pub record IsSortSlice {A : Type 0} (sort : (A → A → Bool) → List A → List A) : Type 0 where
  pub member : (less : A → A → Bool) (xs : List A) (a : A) → Member a (sort less xs) ↔ Member a xs
  pub sorted :
      (less : A → A → Bool) (xs : List A) → IsStrictWeak less xs → IsSorted less (sort less xs)

module _ {A : Type 0} (less : A → A → Bool) where
  place : A → List A → List A
  place x [] = x ∷ []
  place x (y ∷ ys) = if less x y then x ∷ y ∷ ys else y ∷ place x ys

  Member-place : (x a : A) (ys : List A) → Member a (place x ys) ↔ ((x ≡ a) ⊎ Member a ys)
  unfolding place
  Member-place x a [] = ground arith
  Member-place x a (y ∷ ys) = ground (arith, Member-place x a ys)

  insertion : List A → List A
  insertion [] = []
  insertion (x ∷ xs) = place x (insertion xs)

  Member-insertion : (a : A) (xs : List A) → Member a (insertion xs) ↔ Member a xs
  unfolding insertion
  Member-insertion a [] = (λ h. h, λ h. h)
  Member-insertion a (x ∷ xs) =
      ground (arith, Member-place x a (insertion xs), Member-insertion a xs)

  module _ (zs : List A) (order : IsStrictWeak less zs) where
    -- What is not less than `y` is not less than an `x` that is less than `y`.
    below :
        (x y z : A)
        → Member x zs
        → Member y zs
        → Member z zs
        → less x y ≡ true
        → less z y ≡ false
        → less z x ≡ false
    below x y z mx my mz xy zy = elim (Bool-cases (less z x)) [
      | inl zx ↦ cc (order.transitive z x y mz mx my zx xy)
      | inr e ↦ e
    ]

    place-IsSorted :
        (x : A) (ys : List A)
        → Member x zs
        → All (λ y. Member y zs) ys
        → IsSorted less ys
        → IsSorted less (place x ys)
    unfolding place
    place-IsSorted x [] mx mys s = (tt, tt)
    place-IsSorted x (y ∷ ys) mx (my, mys) (least, s) = elim (Bool-cases (less x y)) [
      | inl xy ↦ rw xy (
        (
          below x y y mx my my xy (order.irreflexive y my),
          All-of_Member _ ys
              (λ z m. below x y z mx my (All-Member _ ys mys m) xy (All-Member _ ys least m)),
        ),
        (least, s),
      )
      | inr e ↦ rw e (
        All-of_Member _ (place x ys) (λ z m. elim ((Member-place x z ys).0 m) [
          | inl p ↦ rw (← p) e
          | inr q ↦ All-Member _ ys least q
        ]),
        place-IsSorted x ys mx mys s,
      )
    ]

    insertion-IsSorted : (xs : List A) → All (λ y. Member y zs) xs → IsSorted less (insertion xs)
    unfolding insertion
    insertion-IsSorted [] ms = tt
    insertion-IsSorted (x ∷ xs) (mx, ms) =
        place-IsSorted x (insertion xs) mx
          (All-of_Member _ (insertion xs) (λ z m. All-Member _ xs ms ((Member-insertion z xs).0 m)))
          (insertion-IsSorted xs ms)

-- Go's sort for short lists.
unfoldable pub insertion_sort : {A : Type 0} → (A → A → Bool) → List A → List A
unfolding insertion place
insertion_sort less xs = insertion less xs

pub insertion_sort-IsSortSlice : {A : Type 0} → IsSortSlice {A = A} insertion_sort
unfolding insertion_sort
insertion_sort-IsSortSlice = record {
  member = λ less xs a. Member-insertion less a xs;
  sorted = λ less xs order. insertion-IsSorted less xs order xs (All-of_Member _ xs (λ a m. m));
}
