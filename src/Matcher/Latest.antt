-- ===== src/Matcher/Latest.antt =====
-- Which match `Latest` returns, for any sort that keeps the contract of `sort.Slice`.
use argocd_tag_updater.Base.{
  ◌≡◌, ◌≢◌, ◌↔◌, refl, ap, sym, String, Bool, false, none, some, List, [], ◌∷◌, arith, Member, All,
  All-Member, inl, inr, Option-cases, ◌∙◌,
}
use mathlib.Core.Path.{subst}
use mathlib.Core.Option.{some-injective, some-ne-none}
use argocd_tag_updater.Base.Int.{ℤ, ◌≤ℤ◌}
use argocd_tag_updater.Matcher.{
  head?, Match, Matcher, all, captures_of, latest, less, text_gt, build_number,
}
use argocd_tag_updater.Matcher.Sort.{IsSortSlice, IsStrictWeak, IsSorted}
use argocd_tag_updater.Matcher.Order.{
  IsNumbered, IsUnnumbered, less-IsStrictWeak_numbered, less-IsStrictWeak_unnumbered, less-numbered,
  less-unnumbered,
}

-- The match that the expression gives for a tag of the list.
abbrev pub IsMatchOf : Matcher → List String → Match → Type 0
IsMatchOf m tags x =
    Member x.tag tags
    × (sub : List String) × (m.re.find_string_submatch x.tag ≡ some sub)
    × (x.captures ≡ captures_of m.re.subexp_names sub [])

all-cons_miss :
    (m : Matcher) (tag : String) (tags : List String)
    → m.re.find_string_submatch tag ≡ none
    → all m (tag ∷ tags) ≡ all m tags
unfolding all
all-cons_miss m tag tags e = rw (e, all)

all-cons_hit :
    (m : Matcher) (tag : String) (tags : List String) {sub : List String}
    → m.re.find_string_submatch tag ≡ some sub
    → all m (tag ∷ tags)
      ≡ record { tag = tag; captures = captures_of m.re.subexp_names sub [] } ∷ all m tags
unfolding all
all-cons_hit m tag tags e = rw (e, all)

-- A later tag of the list does not change what a match stands for.
IsMatchOf-cons :
    (m : Matcher) (tag : String) (tags : List String) (x : Match)
    → IsMatchOf m tags x
    → IsMatchOf m (tag ∷ tags) x
IsMatchOf-cons m tag tags x r = (inr r.0, r.1, r.2, r.3)

pub all_sound :
    (m : Matcher) (tags : List String) (x : Match) → Member x (all m tags) → IsMatchOf m tags x
unfolding all
all_sound m [] x h = absurd h
all_sound m (tag ∷ tags) x h = elim (Option-cases (m.re.find_string_submatch tag)) [
  | inl e ↦
      IsMatchOf-cons m tag tags x
        (all_sound m tags x (subst (Member x) (all-cons_miss m tag tags e) h))
  | inr (sub, e) ↦ elim (subst (Member x) (all-cons_hit m tag tags e) h) [
    | inl p ↦ subst (IsMatchOf m (tag ∷ tags)) p (inl refl, sub, e, refl)
    | inr q ↦ IsMatchOf-cons m tag tags x (all_sound m tags x q)
  ]
]

pub all_complete :
    (m : Matcher) (tags : List String) (t : String) (sub : List String)
    → Member t tags
    → m.re.find_string_submatch t ≡ some sub
    → Member (record { tag = t; captures = captures_of m.re.subexp_names sub [] }) (all m tags)
all_complete m [] t sub h e = absurd h
all_complete m (tag ∷ tags) t sub (inl p) e = rw (all-cons_hit m tag tags {sub = sub} (rw p e)) (
    inl (
      ap
        (λ (w : String).
          let r : Match = record { tag = w; captures = captures_of m.re.subexp_names sub [] } in r)
        p))
all_complete m (tag ∷ tags) t sub (inr q) e = elim (Option-cases (m.re.find_string_submatch tag)) [
  | inl miss ↦ rw (all-cons_miss m tag tags miss) (all_complete m tags t sub q e)
  | inr (s, hit) ↦ rw (all-cons_hit m tag tags hit) (inr (all_complete m tags t sub q e))
]

head-Member : (xs : List Match) (x : Match) → head? xs ≡ some x → Member x xs
head-Member [] x h = cc
head-Member (y ∷ ys) x h = inl (some-injective _ _ h)

head_first :
    (xs : List Match) (x y : Match)
    → less x x ≡ false
    → IsSorted less xs
    → head? xs ≡ some x
    → Member y xs
    → less y x ≡ false
head_first [] x y i s h my = absurd my
head_first (z ∷ zs) x y i s h (inl p) = rw (← p, some-injective _ _ h) i
head_first (z ∷ zs) x y i s h (inr q) = rw (← some-injective _ _ h) (All-Member _ zs s.0 q)

head-ne-none : (xs : List Match) (x : Match) → Member x xs → head? xs ≢ none
head-ne-none [] x m h = absurd m
head-ne-none (y ∷ ys) x m h = cc

no_members : {A : Type 0} (xs : List A) → ((a : A) → ¬ Member a xs) → xs ≡ []
no_members [] h = refl
no_members (x ∷ xs) h = absurd (h x (inl refl))

module _ (sort_slice : (Match → Match → Bool) → List Match → List Match)
    (S : IsSortSlice sort_slice) where
  latest-eq-head :
      (m : Matcher) (tags : List String)
      → latest sort_slice m tags ≡ head? (sort_slice less (all m tags))
  unfolding latest
  latest-eq-head m tags = go (all m tags) refl
    where
      go :
          (xs : List Match)
          → all m tags ≡ xs
          → latest sort_slice m tags ≡ head? (sort_slice less (all m tags))
      go [] e = rw (e, latest, no_members (sort_slice less []) (λ a ma. (S.member less [] a).0 ma))
      go (x ∷ xs) e = rw (e, latest)

  latest-Member :
      (m : Matcher) (tags : List String) (x : Match)
      → latest sort_slice m tags ≡ some x
      → Member x (all m tags)
  latest-Member m tags x h =
      (S.member less (all m tags) x).0 (head-Member _ x (sym (latest-eq-head m tags) ∙ h))

  -- What `Latest` returns is the match of one of the tags, with the captures of that tag.
  -- The sort is one that keeps the contract of `sort.Slice`.
  pub latest-IsMatchOf :
      (m : Matcher) (tags : List String) (x : Match)
      → latest sort_slice m tags ≡ some x
      → IsMatchOf m tags x
  latest-IsMatchOf m tags x h = all_sound m tags x (latest-Member m tags x h)

  latest_first :
      (m : Matcher) (tags : List String) (x y : Match)
      → IsStrictWeak less (all m tags)
      → latest sort_slice m tags ≡ some x
      → Member y (all m tags)
      → less y x ≡ false
  latest_first m tags x y order h my =
      head_first (sort_slice less (all m tags)) x y (order.irreflexive x (latest-Member m tags x h))
        (S.sorted less (all m tags) order) (sym (latest-eq-head m tags) ∙ h)
        ((S.member less (all m tags) y).1 my)

  -- Where every match has a build number, no match has a greater one than the match that `Latest`
  -- returns.
  -- The sort is one that keeps the contract of `sort.Slice`.
  pub latest_greatest :
      (m : Matcher) (tags : List String) (x y : Match) (n k : ℤ)
      → All IsNumbered (all m tags)
      → latest sort_slice m tags ≡ some x
      → Member y (all m tags)
      → build_number x ≡ some n
      → build_number y ≡ some k
      → k ≤ℤ n
  latest_greatest m tags x y n k numbered h my p q = ground (
    arith,
    less-numbered y x (k, q) (n, p),
    latest_first m tags x y (less-IsStrictWeak_numbered _ numbered) h my,
  )

  -- Where no match has a build number, no match has a tag that comes after the tag that `Latest` returns.
  -- The sort is one that keeps the contract of `sort.Slice`.
  pub latest_last_text :
      (m : Matcher) (tags : List String) (x y : Match)
      → All IsUnnumbered (all m tags)
      → latest sort_slice m tags ≡ some x
      → Member y (all m tags)
      → text_gt y.tag x.tag ≡ false
  latest_last_text m tags x y unnumbered h my =
      sym (less-unnumbered y x (All-Member _ _ unnumbered my))
      ∙ latest_first m tags x y (less-IsStrictWeak_unnumbered _ unnumbered) h my

  -- `Latest` finds nothing just where no tag of the list matches.
  -- The sort is one that keeps the contract of `sort.Slice`.
  pub latest-eq-none_iff :
      (m : Matcher) (tags : List String)
      → (latest sort_slice m tags ≡ none)
        ↔ ((t : String) → Member t tags → m.re.find_string_submatch t ≡ none)
  latest-eq-none_iff m tags = (forward, backward)
    where
      forward :
          latest sort_slice m tags ≡ none
          → (t : String) → Member t tags
          → m.re.find_string_submatch t ≡ none
      forward h t mt = elim (Option-cases (m.re.find_string_submatch t)) [
        | inl e ↦ e
        | inr (sub, e) ↦ absurd (
            head-ne-none _ _ ((S.member less (all m tags) _).1 (all_complete m tags t sub mt e))
              (sym (latest-eq-head m tags) ∙ h))
      ]

      backward :
          ((t : String) → Member t tags → m.re.find_string_submatch t ≡ none)
          → latest sort_slice m tags ≡ none
      backward h = elim (Option-cases (latest sort_slice m tags)) [
        | inl e ↦ e
        | inr (x, e) ↦
            let r = latest-IsMatchOf m tags x e in absurd (some-ne-none _ (sym r.2 ∙ h x.tag r.0))
      ]
