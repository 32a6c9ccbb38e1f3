-- ===== src/Controller/Validation/Refusals.antt =====
-- `validateFieldOwnership`: what is so where it refuses a list of updaters.
use argocd_tag_updater.Base.{
  ◌≡◌, ◌≢◌, ◌⊎◌, inl, inr, refl, ok_injective, String, Option, none, some, List, [], ◌∷◌, Result,
  ok, err, ◌==◌, ◌<>◌, eq_iff, arith, Member, Bool-cases, if◌then◌else◌,
}
use argocd_tag_updater.Base.Dict
use argocd_tag_updater.Base.Dict.{Dict, lookup-insert}
use argocd_tag_updater.Api.{TargetSpec, PatchSpec, LabelSelector, TagUpdater}
use argocd_tag_updater.Controller.Validation.{
  Owners, owner_of, conflict_message, field_key, claim_field, claim_patches, claim_targets,
  claim_updaters, validate_field_ownership,
}
use argocd_tag_updater.Controller.Validation.Ownership.{IsPatchClaim, IsTargetClaim, IsClaim}

-- Two owners have a claim to one key.
pub record IsConflict (P : String → String → Type 0) : Type 0 where
  pub key : String
  pub owner : String
  pub other : String
  pub first : P key owner
  pub second : P key other
  pub apart : owner ≢ other

-- `P` are the claims, `U` says that a selector cannot be serialized.
module _ (P : String → String → Type 0) (U : Type 0) where
  -- Each entry of the map is a claim.
  abbrev Backed : Owners → Type 0
  Backed owners = (key owner : String) → Dict.lookup key owners ≡ some owner → P key owner

  abbrev Judged : Result String Owners → Type 0
  Judged (ok owners) = Backed owners
  Judged (err e) = IsConflict P ⊎ U

  Backed-insert :
      (key owner : String) (owners : Owners)
      → Backed owners
      → P key owner
      → Backed (Dict.insert key owner owners)
  Backed-insert key owner owners backed claim k o h =
      ground (arith, lookup-insert key k owner owners, eq_iff key k, backed k o, claim, h)

  Judged-claim_field :
      (message key owner : String) (owners : Owners)
      → Backed owners
      → P key owner
      → Judged (claim_field message key owner owners)
  unfolding claim_field
  Judged-claim_field message key owner owners backed claim = go (Dict.lookup key owners) refl
    where
      go :
          (found : Option String)
          → Dict.lookup key owners ≡ found
          → Judged (elim found [
            | none ↦ ok (Dict.insert key owner owners)
            | some previous ↦
                if previous == owner
                then ok (Dict.insert key owner owners)
                else err (
                    message <> previous <> " and " <> owner
                    <> "; consolidate it into one TagUpdater")
          ])
      go none e = Backed-insert key owner owners backed claim
      go (some previous) e = elim (Bool-cases (previous == owner)) [
        | inl same ↦ rw same (Backed-insert key owner owners backed claim)
        | inr other ↦ rw other (
            inl (record {
              key = key;
              owner = previous;
              other = owner;
              first = backed key previous e;
              second = claim;
              apart = λ p. ground (arith, eq_iff previous owner, p, other);
            }))
      ]

  -- A chain of two steps.
  Judged-chain :
      {A : Type 0} (r : Result String A) (f : A → Result String Owners) (g : String → String)
      → ((e : String) → r ≡ err e → IsConflict P ⊎ U)
      → ((a : A) → r ≡ ok a → Judged (f a))
      → Judged (elim r [ err e ↦ err (g e) | ok a ↦ f a ])
  Judged-chain (ok a) f g h k = k a refl
  Judged-chain (err e) f g h k = h e refl

  step_refused : (r : Result String Owners) → Judged r → (e : String) → r ≡ err e → IsConflict P ⊎ U
  step_refused (ok owners) j e h = cc
  step_refused (err e') j e h = j

  step_holds :
      (r : Result String Owners) → Judged r → (owners : Owners) → r ≡ ok owners → Backed owners
  step_holds (ok owners') j owners h = rw (← ok_injective h) j
  step_holds (err e') j owners h = cc

  Judged-claim_patches :
      (updater : TagUpdater) (target : TargetSpec) (selector : String) (patches : List PatchSpec)
      (owners : Owners)
      → ((key : String)
          → IsPatchClaim updater target selector patches key
          → P key (owner_of updater))
      → Backed owners
      → Judged (claim_patches updater target selector patches owners)
  unfolding claim_patches
  Judged-claim_patches updater target selector [] owners claims backed = backed
  Judged-claim_patches updater target selector (patch ∷ patches) owners claims backed =
      let first =
        Judged-claim_field (conflict_message target patch)
          (field_key updater.spec.write_back target selector patch) (owner_of updater) owners backed
          (claims _ (patch, inl refl, refl)) in
      Judged-chain
        (claim_field (conflict_message target patch)
          (field_key updater.spec.write_back target selector patch) (owner_of updater) owners)
        _ (λ e. e) (step_refused _ first)
        (λ owners' e.
          Judged-claim_patches updater target selector patches owners'
            (λ key c. claims key (c.0, inr c.1, c.2)) (step_holds _ first owners' e))

  module _ (marshal : Option LabelSelector → Result String String) where
    Judged-claim_targets :
        (updater : TagUpdater) (targets : List TargetSpec) (owners : Owners)
        → ((target : TargetSpec) (e : String)
            → Member target targets
            → marshal target.selector ≡ err e
            → U)
        → ((key : String) → IsTargetClaim marshal updater targets key → P key (owner_of updater))
        → Backed owners
        → Judged (claim_targets marshal updater targets owners)
    unfolding claim_targets
    Judged-claim_targets updater [] owners unwritten claims backed = backed
    Judged-claim_targets updater (target ∷ targets) owners unwritten claims backed =
        Judged-chain (marshal target.selector) _
          (λ e. "serialize selector for " <> owner_of updater <> ": " <> e)
          (λ e h. inr (unwritten target e (inl refl) h))
          (λ selector written.
            let first =
              Judged-claim_patches updater target selector target.patches owners
                (λ key c. claims key (target, inl refl, selector, written, c)) backed in
            Judged-chain (claim_patches updater target selector target.patches owners) _ (λ e. e)
              (step_refused _ first)
              (λ owners' e.
                Judged-claim_targets updater targets owners' (λ t e m. unwritten t e (inr m))
                  (λ key c. claims key (c.0, inr c.1, c.2, c.3, c.4))
                  (step_holds _ first owners' e)))

    Judged-claim_updaters :
        (updaters : List TagUpdater) (owners : Owners)
        → ((updater : TagUpdater) (target : TargetSpec) (e : String)
            → Member updater updaters
            → Member target updater.spec.targets
            → marshal target.selector ≡ err e
            → U)
        → ((key owner : String) → IsClaim marshal updaters key owner → P key owner)
        → Backed owners
        → Judged (claim_updaters marshal updaters owners)
    unfolding claim_updaters
    Judged-claim_updaters [] owners unwritten claims backed = backed
    Judged-claim_updaters (updater ∷ updaters) owners unwritten claims backed =
        let first =
          Judged-claim_targets updater updater.spec.targets owners
            (λ t e m. unwritten updater t e (inl refl) m)
            (λ key c. claims key (owner_of updater) (updater, inl refl, refl, c)) backed in
        Judged-chain (claim_targets marshal updater updater.spec.targets owners) _ (λ e. e)
          (step_refused _ first)
          (λ owners' e.
            Judged-claim_updaters updaters owners' (λ u t e m. unwritten u t e (inr m))
              (λ key owner c. claims key owner (c.0, inr c.1, c.2, c.3))
              (step_holds _ first owners' e))

module _ (marshal : Option LabelSelector → Result String String) where
  -- A selector of the list cannot be serialized.
  abbrev pub IsUnwritten : List TagUpdater → Type 0
  IsUnwritten updaters =
      (updater : TagUpdater) × (target : TargetSpec) × (e : String) × Member updater updaters
      × Member target updater.spec.targets
      × (marshal target.selector ≡ err e)

  -- Where the check refuses a list of updaters, there is a reason: two claims of the list with one key
  -- have different owners, or a selector of a target cannot be serialized.
  pub validate_field_ownership_refused :
      (updaters : List TagUpdater) (message : String)
      → validate_field_ownership marshal updaters ≡ some message
      → IsConflict (IsClaim marshal updaters) ⊎ IsUnwritten updaters
  unfolding validate_field_ownership Dict.lookup
  validate_field_ownership_refused updaters message h =
      go (claim_updaters marshal updaters [])
        (Judged-claim_updaters (IsClaim marshal updaters) (IsUnwritten updaters) marshal updaters []
          (λ u t e m n w. (u, t, e, m, n, w)) (λ key owner c. c) empty)
        h
    where
      empty : Backed (IsClaim marshal updaters) (IsUnwritten updaters) []
      empty key owner h = cc

      go :
          (r : Result String Owners)
          → Judged (IsClaim marshal updaters) (IsUnwritten updaters) r
          → (let verdict : Option String = elim r [ ok owners ↦ none | err e ↦ some e ] in verdict)
            ≡ some message
          → IsConflict (IsClaim marshal updaters) ⊎ IsUnwritten updaters
      go (ok owners) j h = cc
      go (err e) j h = j
