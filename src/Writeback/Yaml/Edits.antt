-- ===== src/Writeback/Yaml/Edits.antt =====
-- The edits of bytes in applyYAMLEdits of internal/writeback/yaml.go.
pub mod Order
pub mod Slices
pub mod Splice
use argocd_tag_updater.Base.{
  ℕ, zero, suc, ◌+◌, ◌-◌, Bool, true, false, none, some, Option, List, [], ◌∷◌, ◌++◌, Result, ok,
  err, ltb, if◌then◌else◌, length, take, drop,
}
use argocd_tag_updater.Writeback.Yaml.{Failure, panic}

-- `scalarEdit`
pub record ScalarEdit : Type 0 where
  pub start : ℕ
  pub end : ℕ
  pub value : List ℕ

-- The inner loop: the edit that ends at the place `i`, and the places behind it.
unfoldable pub exchange : ScalarEdit → List ScalarEdit → ScalarEdit × List ScalarEdit
exchange x [] = (x, [])
exchange x (y ∷ ys) =
    let swapped = exchange y ys in
    let kept = exchange x ys in
    if ltb x.start y.start then (swapped.0, x ∷ swapped.1) else (kept.0, y ∷ kept.1)

-- The outer loop over that many places.
unfoldable pub exchange_sort : ℕ → List ScalarEdit → List ScalarEdit
unfolding exchange
exchange_sort zero edits = edits
exchange_sort (suc n) [] = []
exchange_sort (suc n) (x ∷ xs) = (exchange x xs).0 ∷ exchange_sort n (exchange x xs).1

unfoldable pub sort_edits : List ScalarEdit → List ScalarEdit
unfolding exchange_sort
sort_edits edits = exchange_sort (length edits) edits

-- `append(out[:start], append(value, out[end:]...)...)`
unfoldable pub replace : ScalarEdit → List ℕ → Result Failure (List ℕ)
replace edit out =
    if ltb (length out) edit.end
    then err (panic "slice bounds out of range")
    else ok (take edit.start out ++ edit.value ++ drop edit.end out)

unfoldable pub replace_all : List ScalarEdit → List ℕ → Result Failure (List ℕ)
unfolding replace
replace_all [] out = ok out
replace_all (edit ∷ edits) out = elim (replace edit out) [
  | err e ↦ err e
  | ok out' ↦ replace_all edits out'
]
