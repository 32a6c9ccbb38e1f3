-- ===== src/Base/Dict.antt =====
-- A Go map with text keys, as an association list. The order of the entries stands for the order in
-- which `range` visits them, which Go leaves open.
use Prim.Native.String.{String}
use mathlib.Core.Path.{◌≡◌, refl}
use mathlib.Core.Option.{Option, none, some}
use mathlib.Core.List.{List, [], ◌∷◌}
use native.Mathlib.Omega.{arith}
use text.Mathlib.Text.{◌==◌}
use text.Mathlib.TextEquality.{eq_iff}
use argocd_tag_updater.Base.Tests.{if◌then◌else◌}

abbrev pub Dict {ℓ} : Type ℓ → Type ℓ
Dict V = List (String × V)

module _ {ℓ} {V : Type ℓ} where
  -- `v, ok := m[key]`
  unfoldable pub lookup : (key : String) → Dict V → Option V
  lookup key [] = none
  lookup key ((name, found) ∷ rest) =
      let further = lookup key rest in if name == key then some found else further

  -- `m[key] = new`
  unfoldable pub insert : (key : String) (new : V) → Dict V → Dict V
  insert key new [] = (key, new) ∷ []
  insert key new ((name, old) ∷ rest) =
      let further = insert key new rest in
      if name == key then (key, new) ∷ rest else (name, old) ∷ further

  -- `delete(m, key)`
  unfoldable pub erase : (key : String) → Dict V → Dict V
  erase key [] = []
  erase key ((name, old) ∷ rest) =
      let further = erase key rest in if name == key then further else (name, old) ∷ further

  -- `for key, v := range from { m[key] = v }`
  unfoldable pub merge : Dict V → Dict V → Dict V
  merge into [] = into
  merge into ((key, v) ∷ from) = merge (insert key v into) from

  pub lookup-insert :
      (key sought : String) (new : V) (into : Dict V)
      → lookup sought (insert key new into)
        ≡ (if key == sought then some new else lookup sought into)
  unfolding lookup insert
  lookup-insert key sought new [] = refl
  lookup-insert key sought new ((name, old) ∷ rest) = ground (
    eq_iff name sought,
    eq_iff name key,
    eq_iff key sought,
    arith,
    lookup-insert key sought new rest,
  )

  pub lookup-erase :
      (key sought : String) (from : Dict V)
      → lookup sought (erase key from) ≡ (if key == sought then none else lookup sought from)
  unfolding lookup erase
  lookup-erase key sought [] = ground arith
  lookup-erase key sought ((name, old) ∷ rest) =
      ground (
        eq_iff name sought,
        eq_iff name key,
        eq_iff key sought,
        arith,
        lookup-erase key sought rest,
      )

-- `m[k]` at a map of texts: the empty text for a key that is missing.
unfoldable pub value : String → Dict String → String
unfolding lookup
value k m = elim (lookup k m) [ none ↦ "" | some v ↦ v ]

pub value-insert :
    (k j v : String) (m : Dict String) → value j (insert k v m) ≡ (if k == j then v else value j m)
unfolding value
value-insert k j v m = ground (arith, lookup-insert k j v m)
