-- ===== src/Writeback/Yaml/Apply.antt =====
-- applyYAMLEdits of internal/writeback/yaml.go.
pub mod Insertions
use argocd_tag_updater.Base.{
  ℕ, ◌+◌, ◌-◌, ◌<>◌, String, Bool, true, false, ◌&&◌, ◌||◌, none, some, Option, List, [], ◌∷◌, ◌++◌,
  Result, ok, err, eqb, ltb, if◌then◌else◌, length, get_elem?,
}
use argocd_tag_updater.Writeback.Yaml.{Failure, error, Library}
use argocd_tag_updater.Writeback.Yaml.Bytes.{bytes}
use argocd_tag_updater.Writeback.Yaml.Nodes.{Heap, Node, Style, at}
use argocd_tag_updater.Writeback.Yaml.Tokens.{line_starts, scalar_token_end}
use argocd_tag_updater.Writeback.Yaml.Insertion.{mapping_insertion_point}
use argocd_tag_updater.Writeback.Yaml.Render.{render_scalar, render_mapping_entries}
use argocd_tag_updater.Writeback.Yaml.Edits.{ScalarEdit, sort_edits, replace_all}

unfoldable pub lift_error : {A : Type 0} → Result String A → Result Failure A
lift_error (ok a) = ok a
lift_error (err e) = err (error e)

infixl 5 ◌>>=◌
abbrev ◌>>=◌ : {A B : Type 0} → Result Failure A → (A → Result Failure B) → Result Failure B
ok a >>= f = f a
err e >>= f = err e

-- `lineStarts[node.Line-1]`, behind the test of the position.
unfoldable pub source_position : List ℕ → Node → Result Failure ℕ
source_position starts node =
    if ltb node.line 1 || ltb (length starts) node.line || ltb node.column 1
    then err (error "invalid YAML source position for edited scalar")
    else elim (get_elem? starts (node.line - 1)) [
      | none ↦ err (error "invalid YAML source position for edited scalar")
      | some start ↦ ok (start + node.column - 1)
    ]

-- The token of a scalar and its replacement.
unfoldable pub token_edit : Library → List ℕ → ℕ → Style → String → Result Failure ScalarEdit
unfolding lift_error scalar_token_end render_scalar bytes
token_edit lib input start style value = do
  end ← lift_error (scalar_token_end input start style)
  rendered ← render_scalar lib value style
  ok (record { start = start; end = end; value = bytes rendered })

-- One edited scalar. The test of the style stands in front of the place, which cannot fail.
unfoldable pub scalar_edit : Library → List ℕ → List ℕ → Node → String → Result Failure ScalarEdit
unfolding source_position token_edit
scalar_edit lib input starts node value = do
  start ← source_position starts node
  (if node.style.literal || node.style.folded
      then err (error "block scalar targets are not supported")
      else token_edit lib input start node.style value)

-- `start > 0 && input[start-1] != '\n'`
unfoldable pub is_mid_line : List ℕ → ℕ → Bool
is_mid_line input start = ltb 0 start && elim (get_elem? input (start - 1)) [
  | none ↦ false
  | some b ↦ if eqb b 10 then false else true
]

-- The entries added to one mapping.
unfoldable pub insertion_edit :
    Library → Heap → List ℕ → List ℕ → Node → List ℕ → Result Failure ScalarEdit
unfolding lift_error mapping_insertion_point render_mapping_entries is_mid_line bytes
insertion_edit lib heap input starts parent content = do
  point ← lift_error (mapping_insertion_point heap input starts parent)
  rendered ← render_mapping_entries lib heap content point.1
  ok (record {
    start = point.0;
    end = point.0;
    value = bytes (if is_mid_line input point.0 then "\n" <> rendered else rendered);
  })

-- The loops over the two maps.
unfoldable pub scalar_edits :
    Library → Heap → List ℕ → List ℕ → List (ℕ × String) → Result Failure (List ScalarEdit)
unfolding at scalar_edit
scalar_edits lib heap input starts [] = ok []
scalar_edits lib heap input starts ((node, value) ∷ values) = do
  edit ← scalar_edit lib input starts (at heap node) value
  edits ← scalar_edits lib heap input starts values
  ok (edit ∷ edits)

unfoldable pub insertion_edits :
    Library → Heap → List ℕ → List ℕ → List (ℕ × List ℕ) → Result Failure (List ScalarEdit)
unfolding at insertion_edit
insertion_edits lib heap input starts [] = ok []
insertion_edits lib heap input starts ((parent, content) ∷ insertions) = do
  edit ← insertion_edit lib heap input starts (at heap parent) content
  edits ← insertion_edits lib heap input starts insertions
  ok (edit ∷ edits)

unfoldable pub apply_yaml_edits :
    Library → Heap → List ℕ → List (ℕ × String) → List (ℕ × List ℕ) → Result Failure (List ℕ)
unfolding line_starts scalar_edits insertion_edits sort_edits replace_all
apply_yaml_edits lib heap input values insertions = do
  changed ← scalar_edits lib heap input (line_starts input) values
  added ← insertion_edits lib heap input (line_starts input) insertions
  replace_all (sort_edits (changed ++ added)) input
