-- ===== src/Sources/GitTags/Peeled.antt =====
-- Which commit a tag is mapped to.
use argocd_tag_updater.Base.{
  ◌≡◌, ◌⊎◌, ◌∙◌, refl, sym, ap, String, Bool, true, false, Option, none, some, List, [], ◌∷◌, arith,
  Bool-cases, ◌==◌, eq_iff, if◌then◌else◌, inl, inr, Option-cases,
}
use argocd_tag_updater.Base.Text.{strip_suffix}
use argocd_tag_updater.Base.Dict.{Dict, lookup, insert, merge, lookup-insert}
use argocd_tag_updater.Sources.GitTags.{Remote, Reference, sort_refs, tag_revs_from_refs}

-- The second value, or the first one where there is none.
abbrev pub or_else : Option String → Option String → Option String
or_else o none = o
or_else o (some v) = some v

-- The hash of the last reference that is the tag's own, or its peeled one.
unfoldable pub last_plain : Remote → String → List Reference → Option String
unfolding strip_suffix
last_plain remote tag [] = none
last_plain remote tag (ref ∷ refs) =
    let rest = last_plain remote tag refs in
    if remote.is_tag ref.name
    then elim (strip_suffix (remote.short ref.name) "^{}") [
      | some bare ↦ rest
      | none ↦ if remote.short ref.name == tag then or_else (some ref.hash) rest else rest
    ]
    else rest

unfoldable pub last_peeled : Remote → String → List Reference → Option String
unfolding strip_suffix
last_peeled remote tag [] = none
last_peeled remote tag (ref ∷ refs) =
    let rest = last_peeled remote tag refs in
    if remote.is_tag ref.name
    then elim (strip_suffix (remote.short ref.name) "^{}") [
      | some bare ↦ if bare == tag then or_else (some ref.hash) rest else rest
      | none ↦ rest
    ]
    else rest

-- No key is there twice.
abbrev IsUnique : Dict String → Type 0
IsUnique [] = Unit
IsUnique ((key, v) ∷ rest) = (lookup key rest ≡ none) × IsUnique rest

insert-IsUnique : (key v : String) (d : Dict String) → IsUnique d → IsUnique (insert key v d)
unfolding insert lookup
insert-IsUnique key v [] h = (refl, tt)
insert-IsUnique key v ((name, old) ∷ rest) h = elim (Bool-cases (name == key)) [
  | inl same ↦ rw same (ap (λ k. lookup k rest) (sym ((eq_iff name key).0 same)) ∙ h.0, h.1)
  | inr other ↦ rw other (
    ground (arith, lookup-insert key name v rest, eq_iff key name, eq_iff name key, h.0),
    insert-IsUnique key v rest h.1,
  )
]

put :
    (b : Bool) (v : String) (l r : Option String)
    → or_else (if b then some v else l) r ≡ or_else l (if b then or_else (some v) r else r)
put true v l none = refl
put true v l (some w) = refl
put false v l r = refl

lookup-merge :
    (sought : String) (into from : Dict String)
    → IsUnique from
    → lookup sought (merge into from) ≡ or_else (lookup sought into) (lookup sought from)
unfolding merge lookup
lookup-merge sought into [] h = refl
lookup-merge sought into ((key, v) ∷ from) h =
    lookup-merge sought (insert key v into) from h.1
    ∙ rw lookup-insert (rest (Bool-cases (key == sought)))
  where
    rest :
        (key == sought ≡ true) ⊎ (key == sought ≡ false)
        → or_else (if key == sought then some v else lookup sought into) (lookup sought from)
          ≡ or_else (lookup sought into) (if key == sought then some v else lookup sought from)
    rest (inl same) =
        rw same
          (ap (or_else (some v)) (ap (λ k. lookup k from) (sym ((eq_iff key sought).0 same)) ∙ h.0))
    rest (inr other) = rw other refl

sorted :
    (remote : Remote) (tag : String) (refs : List Reference) (out peeled : Dict String)
    → IsUnique peeled
    → (lookup tag (sort_refs remote refs out peeled).0
        ≡ or_else (lookup tag out) (last_plain remote tag refs))
      × (lookup tag (sort_refs remote refs out peeled).1
          ≡ or_else (lookup tag peeled) (last_peeled remote tag refs))
      × IsUnique (sort_refs remote refs out peeled).1
unfolding sort_refs last_plain last_peeled
sorted remote tag [] out peeled h = (refl, refl, h)
sorted remote tag (ref ∷ refs) out peeled h = elim (Bool-cases (remote.is_tag ref.name)) [
  | inr other ↦ rw other (sorted remote tag refs out peeled h)
  | inl is ↦ elim (Option-cases (strip_suffix (remote.short ref.name) "^{}")) [
    | inl own ↦
        rw (is, own)
          (let (p, q, u) =
              sorted remote tag refs (insert (remote.short ref.name) ref.hash out) peeled h in
            (
              p
                  ∙ ap (λ o. or_else o (last_plain remote tag refs))
                      (lookup-insert (remote.short ref.name) tag ref.hash out)
                  ∙ put (remote.short ref.name == tag) ref.hash (lookup tag out)
                      (last_plain remote tag refs),
              q,
              u,
            ))
    | inr (bare, e) ↦
        rw (is, e)
          (let (p, q, u) =
              sorted remote tag refs out (insert bare ref.hash peeled)
                (insert-IsUnique bare ref.hash peeled h) in
            (
              p,
              q
                  ∙ ap (λ o. or_else o (last_peeled remote tag refs))
                      (lookup-insert bare tag ref.hash peeled)
                  ∙ put (bare == tag) ref.hash (lookup tag peeled) (last_peeled remote tag refs),
              u,
            ))
  ]
]

-- A tag is mapped to the hash of its peeled reference, the last one if there are several, wherever it
-- stands in the list, and to the hash of its own last reference if it has no peeled one.
pub lookup-tag_revs_from_refs :
    (remote : Remote) (tag : String) (refs : List Reference)
    → lookup tag (tag_revs_from_refs remote refs)
      ≡ or_else (last_plain remote tag refs) (last_peeled remote tag refs)
unfolding tag_revs_from_refs lookup
lookup-tag_revs_from_refs remote tag refs =
    let (p, q, u) = sorted remote tag refs [] [] tt in
    lookup-merge tag (sort_refs remote refs [] []).0 (sort_refs remote refs [] []).1 u
    ∙ rw (p, q)
        (ap (λ o. or_else o (or_else none (last_peeled remote tag refs)))
            (nothing (last_plain remote tag refs))
          ∙ ap (or_else (last_plain remote tag refs)) (nothing (last_peeled remote tag refs)))
  where
    nothing : (o : Option String) → or_else none o ≡ o
    nothing none = refl
    nothing (some v) = refl
