-- ===== src/Writeback/Yaml/Fields/Reaches.antt =====
-- Where setScalar arrives.
use mathlib.Core.Path.{subst}
use argocd_tag_updater.Base.{
  ℕ, ◌+◌, ◌<◌, ◌≡◌, ◌⊎◌, ◌∙◌, inl, inr, refl, sym, ap, String, Bool, true, false, none, some, List,
  [], ◌∷◌, ◌++◌, ok, arith, length, Bool-cases, Option-cases,
}
use argocd_tag_updater.Base.Flow.Success.{bind_ok}
use argocd_tag_updater.Base.Numbers.{atoi}
use argocd_tag_updater.Writeback.Yaml.Nodes.{Kind, Heap, at, value_of, is_scalar}
use argocd_tag_updater.Writeback.Yaml.Fields.{
  Editing, add_entry, child_at, enter, descend, arrive, set_scalar,
}
use argocd_tag_updater.Writeback.Yaml.Fields.Trees.{
  child_of, child_by, walk, IsWellFormed, Extends, Extends-refl, Extends-trans, child_of-eq,
  child_by-Extends, child_by-lt,
}
use argocd_tag_updater.Writeback.Yaml.Fields.Grows.{
  add_entry-Extends, add_entry-IsWellFormed, child_by-add_entry,
}
use argocd_tag_updater.Writeback.Yaml.Fields.Memory.{length-add_entry}

-- One segment of `setScalar`: the child is there, or it was added.
abbrev Stepped : Heap → ℕ → String → Bool → String → Editing → Kind → ℕ → Editing → Type 0
Stepped heap cur segment last value s kind next after =
    ((child_by heap cur segment kind ≡ some next) × (after ≡ s))
    ⊎ ((kind ≡ Kind.mapping)
        × (child_by heap cur segment kind ≡ none)
        × (next ≡ length heap + 1)
        × (after ≡ add_entry cur segment last value s))

enter_cases :
    (quote : String → String) (cur : ℕ) (before : List String) (segment : String) (last : Bool)
    (value : String) (heap : Heap) (kind : Kind) (s : Editing) {next : ℕ}
    → (enter quote cur before segment last value heap kind s).0 ≡ ok next
    → Stepped heap cur segment last value s kind next
        (enter quote cur before segment last value heap kind s).1
unfolding enter child_by
enter_cases quote cur before segment last value heap Kind.mapping s h =
    elim (Option-cases (value_of heap segment (at heap cur).content)) [
      | inl missing ↦ rw missing (inr (refl, refl, cc (rw missing at h), refl))
      | inr (v, found) ↦ rw found (inl (cc (rw found at h), refl))
    ]
enter_cases quote cur before segment last value heap Kind.sequence s h =
    elim (Option-cases (child_at (at heap cur).content (atoi segment))) [
      | inl missing ↦ absurd (cc (rw missing at h))
      | inr (v, found) ↦ rw found (inl (cc (rw found at h), refl))
    ]
enter_cases quote cur before segment last value heap Kind.document s h = absurd cc
enter_cases quote cur before segment last value heap Kind.scalar s h = absurd cc
enter_cases quote cur before segment last value heap Kind.alias s h = absurd cc

-- What a successful part of `setScalar` leaves behind, at the node to which it came.
record IsStep (heap heap' : Heap) (next : ℕ) : Type 0 where
  grows : Extends heap heap'
  fine : IsWellFormed heap'
  there : next < length heap'

added :
    (s : Editing) (cur : ℕ) (segment value : String) (last : Bool) (there : cur < length s.heap)
    {next : ℕ}
    → IsWellFormed s.heap
    → (at s.heap cur).kind ≡ Kind.mapping
    → child_by s.heap cur segment Kind.mapping ≡ none
    → next ≡ length s.heap + 1
    → IsStep s.heap (add_entry cur segment last value s).heap next
      × (child_of (add_entry cur segment last value s).heap cur segment ≡ some next)
unfolding child_by
added s cur segment value last there {next} w kind missing new =
    let grows = add_entry-Extends s cur segment value last there in
    let after = (add_entry cur segment last value s).heap in
    (
      record {
        grows = grows;
        fine = add_entry-IsWellFormed s cur segment value last there w;
        there = omega (arith, length-add_entry s cur segment value last);
      },
      child_of-eq after cur segment
          ∙ ap (child_by after cur segment) (grows.kind cur there ∙ kind)
          ∙ child_by-add_entry s cur segment value last there w kind missing
          ∙ ap (λ (n : ℕ). some n) (sym new),
    )

descend-IsStep :
    (quote : String → String) (cur : ℕ) (before : List String) (segment : String) (last : Bool)
    (value : String) (s : Editing) {next : ℕ}
    → IsWellFormed s.heap
    → cur < length s.heap
    → (descend quote cur before segment last value s).0 ≡ ok next
    → IsStep s.heap (descend quote cur before segment last value s).1.heap next
      × (child_of (descend quote cur before segment last value s).1.heap cur segment ≡ some next)
unfolding descend
descend-IsStep quote cur before segment last value s {next} w there h =
    go (enter_cases quote cur before segment last value s.heap (at s.heap cur).kind s h)
  where
    after : Editing
    after = (enter quote cur before segment last value s.heap (at s.heap cur).kind s).1

    go :
        Stepped s.heap cur segment last value s (at s.heap cur).kind next after
        → IsStep s.heap after.heap next × (child_of after.heap cur segment ≡ some next)
    go (inl (found, same)) =
        subst (λ t. IsStep s.heap t.heap next × (child_of t.heap cur segment ≡ some next))
          (sym same)
          (
            record {
              grows = Extends-refl s.heap;
              fine = w;
              there = child_by-lt s.heap cur segment (at s.heap cur).kind w there found;
            },
            child_of-eq s.heap cur segment ∙ found,
          )
    go (inr (kind, missing, new, grown)) =
        subst (λ t. IsStep s.heap t.heap next × (child_of t.heap cur segment ≡ some next))
          (sym grown)
          (added s cur segment value last there w kind
            (ap (child_by s.heap cur segment) (sym kind) ∙ missing) new)

arrive_lem :
    (cur : ℕ) (s : Editing) {p : ℕ}
    → (arrive cur s).0 ≡ ok p
    → (cur ≡ p) × ((arrive cur s).1 ≡ s) × (is_scalar (at s.heap cur).kind ≡ true)
unfolding arrive
arrive_lem cur s h = elim (Bool-cases (is_scalar (at s.heap cur).kind)) [
  | inl scalar ↦ (cc (rw scalar at h), rw scalar refl, scalar)
  | inr other ↦ absurd (cc (rw other at h))
]

-- The tree behind `setScalar`, where its path leads, and what is there.
pub record Arrives (heap heap' : Heap) (cur : ℕ) (path : List String) (p : ℕ) : Type 0 where
  pub leads : walk heap' cur path ≡ some p
  pub scalar : is_scalar (at heap' p).kind ≡ true
  pub grows : Extends heap heap'
  pub fine : IsWellFormed heap'

-- A path in a tree leads to the same node in a tree that grew from it.
child_of-Extends :
    (heap heap' : Heap) (cur : ℕ) (segment : String) {n : ℕ}
    → Extends heap heap'
    → IsWellFormed heap
    → cur < length heap
    → child_of heap cur segment ≡ some n
    → child_of heap' cur segment ≡ some n
child_of-Extends heap heap' cur segment f w there h =
    child_of-eq heap' cur segment
    ∙ ap (child_by heap' cur segment) (f.kind cur there)
    ∙ child_by-Extends heap heap' cur segment (at heap cur).kind f w there
        (sym (child_of-eq heap cur segment) ∙ h)

walk-cons :
    (heap : Heap) (cur : ℕ) (segment : String) (path : List String) {n p : ℕ}
    → child_of heap cur segment ≡ some n
    → walk heap n path ≡ some p
    → walk heap cur (segment ∷ path) ≡ some p
unfolding walk
walk-cons heap cur segment path e h = rw (walk, e) h

-- Let the tree be well-formed. Where `setScalar` succeeds, it returns the node to which the field path
-- leads in the tree that it leaves behind. That node is a scalar, the tree is well-formed, and every
-- node that was there has its kind, its text and its children, with new children behind them.
pub set_scalar-Arrives :
    (quote : String → String) (cur : ℕ) (before path : List String) (value : String) (s : Editing)
    {p : ℕ}
    → IsWellFormed s.heap
    → cur < length s.heap
    → (set_scalar quote cur before path value s).0 ≡ ok p
    → Arrives s.heap (set_scalar quote cur before path value s).1.heap cur path p
unfolding set_scalar walk
set_scalar-Arrives quote cur before [] value s w there h = absurd cc
set_scalar-Arrives quote cur before (segment ∷ []) value s {p} w there h =
    let (next, e, h', same) = bind_ok (descend quote cur before segment true value) arrive s h in
    let (step, child) = descend-IsStep quote cur before segment true value s w there e in
    let (here, unchanged, scalar) =
      arrive_lem next (descend quote cur before segment true value s).1 h' in
    let after = (descend quote cur before segment true value s).1.heap in
    subst (λ (t : Editing). Arrives s.heap t.heap cur (segment ∷ []) p) (sym (same ∙ unchanged))
      (subst (λ q. Arrives s.heap after cur (segment ∷ []) q) here
        (record {
          leads = walk-cons after cur segment [] child refl;
          scalar = scalar;
          grows = step.grows;
          fine = step.fine;
        }))
set_scalar-Arrives quote cur before (segment ∷ following ∷ path) value s {p} w there h =
    let (next, e, h', same) =
      bind_ok (descend quote cur before segment false value)
        (λ next. set_scalar quote next (before ++ segment ∷ []) (following ∷ path) value) s h in
    let (step, child) = descend-IsStep quote cur before segment false value s w there e in
    let rest =
      set_scalar-Arrives quote next (before ++ segment ∷ []) (following ∷ path) value
        (descend quote cur before segment false value s).1 step.fine step.there h' in
    let middle = (descend quote cur before segment false value s).1.heap in
    let after =
      (set_scalar quote next (before ++ segment ∷ []) (following ∷ path) value
        (descend quote cur before segment false value s).1).1.heap in
    subst (λ (t : Editing). Arrives s.heap t.heap cur (segment ∷ following ∷ path) p) (sym same)
      (record {
        leads =
            walk-cons after cur segment (following ∷ path)
              (child_of-Extends middle after cur segment rest.grows step.fine
                (omega (arith, step.grows.longer)) child)
              rest.leads;
        scalar = rest.scalar;
        grows = Extends-trans s.heap middle after step.grows rest.grows;
        fine = rest.fine;
      })
