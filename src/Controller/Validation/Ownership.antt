-- ===== src/Controller/Validation/Ownership.antt =====
-- `validateFieldOwnership`: the owners of the keys that stand for scalars of a manifest.
use argocd_tag_updater.Base.{
  ◌≡◌, ◌∙◌, sym, refl, inl, inr, String, ◌<>◌, Option, none, some, List, [], ◌∷◌, Result, ok, err,
  ok_injective, ◌≢◌, ◌==◌, eq_iff, arith, Member, Bool-cases, if◌then◌else◌,
}
use mathlib.Core.Path.{subst}
use mathlib.Core.Option.{some-injective}
use argocd_tag_updater.Base.Dict
use argocd_tag_updater.Base.Dict.{Dict, lookup-insert}
use argocd_tag_updater.Api.{TargetSpec, PatchSpec, LabelSelector, TagUpdater}
use argocd_tag_updater.Controller.Validation.{
  Owners, owner_of, conflict_message, field_key, claim_field, claim_patches, claim_targets,
  claim_updaters, validate_field_ownership,
}

-- The owner map has the owner for the key.
abbrev Owns : Owners → String → String → Type 0
Owns owners key owner = Dict.lookup key owners ≡ some owner

-- Owners that were recorded stay.
abbrev Extends : Owners → Owners → Type 0
Extends before after = (key owner : String) → Owns before key owner → Owns after key owner

-- A chain of two steps succeeds only if both do.
both_ok :
    {A B : Type 0} (r : Result String A) (f : A → Result String B) (g : String → String) (b : B)
    → (let chain : Result String B = elim r [ err e ↦ err (g e) | ok a ↦ f a ] in chain) ≡ ok b
    → (a : A) × (r ≡ ok a) × (f a ≡ ok b)
both_ok (ok a) f g b h = (a, refl, h)
both_ok (err e) f g b h = cc

insert_claims :
    (key owner : String) (owners : Owners)
    → ((other : String) → Owns owners key other → other ≡ owner)
    → Owns (Dict.insert key owner owners) key owner × Extends owners (Dict.insert key owner owners)
insert_claims key owner owners mine = (
  ground (arith, lookup-insert key key owner owners, eq_iff key key),
  λ k o h. ground (arith, lookup-insert key k owner owners, eq_iff key k, mine o),
)

refused : {e : String} {after : Owners} → ◌≢◌ {A = Result String Owners} (err e) (ok after)
refused h = cc

claimed :
    (message key owner : String) (owners after : Owners)
    → claim_field message key owner owners ≡ ok after
    → Owns after key owner × Extends owners after
unfolding claim_field
claimed message key owner owners after h = go (Dict.lookup key owners) refl h
  where
    go :
        (found : Option String)
        → Dict.lookup key owners ≡ found
        → (let claim : Result String Owners = elim found [
          | none ↦ ok (Dict.insert key owner owners)
          | some previous ↦
              if previous == owner
              then ok (Dict.insert key owner owners)
              else err (
                  message <> previous <> " and " <> owner <> "; consolidate it into one TagUpdater")
        ] in
            claim)
          ≡ ok after
        → Owns after key owner × Extends owners after
    go none e h =
        rw (← ok_injective h) (insert_claims key owner owners (λ other o. ground (arith, e, o)))
    go (some previous) e h = elim (Bool-cases (previous == owner)) [
      | inl same ↦
          rw (← ok_injective (rw same at h)) (
            insert_claims key owner owners (λ other o. ground (arith, e, o, eq_iff previous owner)))
      | inr other ↦ absurd (refused (rw other at h))
    ]

-- The updater claims the key for a patch of the list.
abbrev pub IsPatchClaim : TagUpdater → TargetSpec → String → List PatchSpec → String → Type 0
IsPatchClaim updater target selector patches key =
    (patch : PatchSpec) × Member patch patches
    × (key ≡ field_key updater.spec.write_back target selector patch)

claimed_patches :
    (updater : TagUpdater) (target : TargetSpec) (selector : String) (patches : List PatchSpec)
    (owners after : Owners)
    → claim_patches updater target selector patches owners ≡ ok after
    → Extends owners after
      × ((key : String)
          → IsPatchClaim updater target selector patches key
          → Owns after key (owner_of updater))
unfolding claim_patches
claimed_patches updater target selector [] owners after h =
    (λ key owner o. rw (← ok_injective h) o, λ key c. absurd c.1)
claimed_patches updater target selector (patch ∷ patches) owners after h =
    let (owners', first, more) =
      both_ok
        (claim_field (conflict_message target patch)
          (field_key updater.spec.write_back target selector patch) (owner_of updater) owners)
        _ (λ e. e) after h in
    let (owned, extended) = claimed _ _ _ owners owners' first in
    let (extended', owned') = claimed_patches updater target selector patches owners' after more in
    (
      λ key owner o. extended' key owner (extended key owner o),
      λ key c. elim c.1 [
        | inl here ↦ rw (c.2, ← here) (extended' _ _ owned)
        | inr there ↦ owned' key (c.0, there, c.2)
      ],
    )

module _ (marshal : Option LabelSelector → Result String String) where
  -- The updater claims the key for a patch of a target of the list.
  abbrev pub IsTargetClaim : TagUpdater → List TargetSpec → String → Type 0
  IsTargetClaim updater targets key =
      (target : TargetSpec) × Member target targets
      × (selector : String) × (marshal target.selector ≡ ok selector)
      × IsPatchClaim updater target selector target.patches key

  claimed_targets :
      (updater : TagUpdater) (targets : List TargetSpec) (owners after : Owners)
      → claim_targets marshal updater targets owners ≡ ok after
      → Extends owners after
        × ((key : String) → IsTargetClaim updater targets key → Owns after key (owner_of updater))
  unfolding claim_targets
  claimed_targets updater [] owners after h =
      (λ key owner o. rw (← ok_injective h) o, λ key c. absurd c.1)
  claimed_targets updater (target ∷ targets) owners after h =
      let (selector, written, h) =
        both_ok (marshal target.selector) _
          (λ e. "serialize selector for " <> owner_of updater <> ": " <> e) after h in
      let (owners', first, more) =
        both_ok (claim_patches updater target selector target.patches owners) _ (λ e. e) after h in
      let (extended, owned) =
        claimed_patches updater target selector target.patches owners owners' first in
      let (extended', owned') = claimed_targets updater targets owners' after more in
      (
        λ key owner o. extended' key owner (extended key owner o),
        λ key c. elim c.1 [
          | inl here ↦
              let (sel, e, claim) =
                (subst
                  (λ (t : TargetSpec).
                    (s : String) × (marshal t.selector ≡ ok s)
                    × IsPatchClaim updater t s t.patches key)
                  (sym here) (c.2, c.3, c.4)) in
              extended' _ _ (
                owned key (
                  subst (λ s. IsPatchClaim updater target s target.patches key)
                    (ok_injective (sym e ∙ written)) claim))
          | inr there ↦ owned' key (c.0, there, c.2, c.3, c.4)
        ],
      )

  -- The key is claimed by an updater of the list, which is the owner.
  abbrev pub IsClaim : List TagUpdater → String → String → Type 0
  IsClaim updaters key owner =
      (updater : TagUpdater) × Member updater updaters
      × (owner ≡ owner_of updater)
      × IsTargetClaim updater updater.spec.targets key

  claimed_updaters :
      (updaters : List TagUpdater) (owners after : Owners)
      → claim_updaters marshal updaters owners ≡ ok after
      → Extends owners after
        × ((key owner : String) → IsClaim updaters key owner → Owns after key owner)
  unfolding claim_updaters
  claimed_updaters [] owners after h =
      (λ key owner o. rw (← ok_injective h) o, λ key owner c. absurd c.1)
  claimed_updaters (updater ∷ updaters) owners after h =
      let (owners', first, more) =
        both_ok (claim_targets marshal updater updater.spec.targets owners) _ (λ e. e) after h in
      let (extended, owned) = claimed_targets updater updater.spec.targets owners owners' first in
      let (extended', owned') = claimed_updaters updaters owners' after more in
      (
        λ key owner o. extended' key owner (extended key owner o),
        λ key owner c. elim c.1 [
          | inl here ↦
              let (o, claim) =
                (subst
                  (λ (u : TagUpdater). (owner ≡ owner_of u) × IsTargetClaim u u.spec.targets key)
                  (sym here) (c.2, c.3)) in
              rw o (extended' _ _ (owned key claim))
          | inr there ↦ owned' key owner (c.0, there, c.2, c.3)
        ],
      )

  -- Where the check accepts a list of updaters, two claims of the list with one key have the same owner.
  -- The key is made of repository, branch, path, target, selector and field as they are spelled, so that
  -- two spellings of one path make two keys.
  pub validate_field_ownership_unique :
      (updaters : List TagUpdater) (key owner other : String)
      → validate_field_ownership marshal updaters ≡ none
      → IsClaim updaters key owner
      → IsClaim updaters key other
      → owner ≡ other
  unfolding validate_field_ownership
  validate_field_ownership_unique updaters key owner other h a b =
      go (claim_updaters marshal updaters []) refl h
    where
      go :
          (r : Result String Owners)
          → claim_updaters marshal updaters [] ≡ r
          → (let verdict : Option String = elim r [ ok owners ↦ none | err e ↦ some e ] in verdict)
            ≡ none
          → owner ≡ other
      go (ok owners) e h =
          let (extended, owned) = claimed_updaters updaters [] owners e in
          some-injective _ _ (sym (owned key owner a) ∙ owned key other b)
      go (err e') e h = cc
