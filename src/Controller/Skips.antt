-- ===== src/Controller/Skips.antt =====
-- `filterSkipped` and `appendUnique`: the tags that a rollback rules out.
use argocd_tag_updater.Base.{
  ◌≡◌, ◌↔◌, ◌⊎◌, inl, inr, Bool-cases, String, Bool, true, List, [], ◌∷◌, ◌++◌, arith, any, Member,
  ◌==◌, eq_iff, if◌then◌else◌,
}

-- `_, found := set[tag]` for the set of the skipped tags.
unfoldable pub is_skipped : List String → String → Bool
is_skipped skipped tag = any (λ s. s == tag) skipped

-- The loop over the tags.
unfoldable pub keep_unskipped : List String → List String → List String
unfolding is_skipped
keep_unskipped skipped [] = []
keep_unskipped skipped (tag ∷ tags) =
    let filtered = keep_unskipped skipped tags in
    if is_skipped skipped tag then filtered else tag ∷ filtered

unfoldable pub filter_skipped : List String → List String → List String
unfolding keep_unskipped
filter_skipped tags [] = tags
filter_skipped tags (s ∷ skipped) = keep_unskipped (s ∷ skipped) tags

unfoldable pub append_unique : List String → String → List String
unfolding is_skipped
append_unique values value = if is_skipped values value then values else values ++ (value ∷ [])

is_skipped_iff :
    (skipped : List String) (tag : String) → (is_skipped skipped tag ≡ true) ↔ Member tag skipped
unfolding is_skipped
is_skipped_iff [] tag = (λ h. cc, λ h. absurd h)
is_skipped_iff (s ∷ skipped) tag = ground (arith, eq_iff s tag, is_skipped_iff skipped tag)

Member-keep_unskipped :
    (skipped tags : List String) (tag : String)
    → Member tag (keep_unskipped skipped tags) ↔ (Member tag tags × ¬ Member tag skipped)
unfolding keep_unskipped
Member-keep_unskipped skipped [] tag = (λ h. absurd h, λ h. h.0)
Member-keep_unskipped skipped (t ∷ tags) tag = ground (
  arith,
  is_skipped_iff skipped t,
  is_skipped_iff skipped tag,
  Member-keep_unskipped skipped tags tag,
)

-- The filtered tags are the tags of the list that are not skipped.
pub Member-filter_skipped :
    (tags skipped : List String) (tag : String)
    → Member tag (filter_skipped tags skipped) ↔ (Member tag tags × ¬ Member tag skipped)
unfolding filter_skipped
Member-filter_skipped tags [] tag = (λ h. (h, λ k. k), λ h. h.0)
Member-filter_skipped tags (s ∷ skipped) tag = Member-keep_unskipped (s ∷ skipped) tags tag

Member-append :
    {A : Type 0} (xs ys : List A) (a : A) → Member a (xs ++ ys) ↔ (Member a xs ⊎ Member a ys)
Member-append [] ys a = ground arith
Member-append (x ∷ xs) ys a = ground (arith, Member-append xs ys a)

pub Member-append_unique :
    (values : List String) (value tag : String)
    → Member tag (append_unique values value) ↔ (Member tag values ⊎ (value ≡ tag))
unfolding append_unique
Member-append_unique values value tag =
    ground (arith, is_skipped_iff values value, Member-append values (value ∷ []) tag)

-- No tag stands in the list twice.
abbrev pub IsDistinct : List String → Type 0
IsDistinct [] = Unit
IsDistinct (tag ∷ tags) = (¬ Member tag tags) × IsDistinct tags

IsDistinct-append :
    (values : List String) (value : String)
    → IsDistinct values
    → ¬ Member value values
    → IsDistinct (values ++ (value ∷ []))
IsDistinct-append [] value h fresh = (λ m. m, tt)
IsDistinct-append (v ∷ values) value h fresh = (
  λ m. elim ((Member-append values (value ∷ []) v).0 m) [
    | inl old ↦ h.0 old
    | inr new ↦ ground (arith, new, fresh)
  ],
  IsDistinct-append values value h.1 (λ m. fresh (inr m)),
)

-- Appending a tag to a list in which none stands twice makes a list in which none stands twice, with
-- just the given tag added.
pub append_unique-IsDistinct :
    (values : List String) (value : String)
    → IsDistinct values
    → IsDistinct (append_unique values value)
      × ((tag : String)
          → Member tag (append_unique values value) ↔ (Member tag values ⊎ (value ≡ tag)))
unfolding append_unique
append_unique-IsDistinct values value h = (
  elim (Bool-cases (is_skipped values value)) [
    | inl old ↦ rw old h
    | inr new ↦
        rw new (
          IsDistinct-append values value h (λ m. ground (arith, (is_skipped_iff values value).1 m)))
  ],
  Member-append_unique values value,
)
