-- ===== src/Writeback/Yaml/Render.antt =====
-- safePlainScalar, renderScalar and renderMappingEntries of internal/writeback/yaml.go.
use argocd_tag_updater.Base.{
  ℕ, ◌<>◌, String, Bool, false, ◌&&◌, ◌||◌, not, none, some, List, [], ◌∷◌, Result, ok, err, ◌==◌,
  eqb, if◌then◌else◌,
}
use argocd_tag_updater.Base.Int.{ℤ, pos, negsuc}
use argocd_tag_updater.Base.Text.{contains_char, trim_suffix, split, join, spaces}
use argocd_tag_updater.Writeback.Yaml.{Failure, error, panic, Library}
use argocd_tag_updater.Writeback.Yaml.Nodes.{Kind, Style, Heap, zero_node, at, is_scalar, map_value}

-- Does the text read back as itself?
unfoldable pub reads_back : Heap → ℕ → String → Bool
unfolding at is_scalar map_value
reads_back heap doc value = elim (at heap doc).content [
  | [] ↦ false
  | root ∷ [] ↦ elim (map_value heap root "value") [
    | none ↦ false
    | some node ↦ is_scalar (at heap node).kind && (at heap node).value == value
  ]
  | root ∷ next ∷ more ↦ false
]

unfoldable pub safe_plain_scalar : Library → String → Bool
unfolding contains_char reads_back
safe_plain_scalar lib value =
    if value == "" || contains_char (λ c. eqb c 13 || eqb c 10) value
    then false
    else elim (lib.unmarshal ("value: " <> value <> "\n")) [
      | err e ↦ false
      | ok (heap, doc) ↦ reads_back heap doc value
    ]

-- `style == 0`
unfoldable pub is_plain : Style → Bool
is_plain style =
    not style.tagged
    && not style.double_quoted
    && not style.single_quoted
    && not style.literal
    && not style.folded
    && not style.flow

-- The encoder's own indent is 4.
unfoldable pub render_scalar : Library → String → Style → Result Failure String
unfolding safe_plain_scalar is_plain trim_suffix
render_scalar lib value style =
    let node = record (zero_node Kind.scalar "!!str" value) { style = style } in
    if is_plain style && safe_plain_scalar lib value
    then ok value
    else elim (lib.encode 4 [] node) [
      | err e ↦ err (error ("encode replacement scalar: " <> e))
      | ok _ ↦ elim (lib.close 4 [] node) [
        | err e ↦ err (error ("close scalar encoder: " <> e))
        | ok out ↦ ok (trim_suffix out "\n")
      ]
    ]

unfoldable pub indent_lines : String → List String → List String
indent_lines prefix [] = []
indent_lines prefix (line ∷ lines) = (prefix <> line) ∷ indent_lines prefix lines

-- `strings.Repeat` panics at a negative count.
unfoldable pub indented : ℤ → String → Result Failure String
unfolding split spaces indent_lines join trim_suffix
indented (negsuc n) out = err (panic "strings: negative Repeat count")
indented (pos n) out =
    ok (join "\n" (indent_lines (spaces n) (split 10 (trim_suffix out "\n"))) <> "\n")

unfoldable pub render_mapping_entries : Library → Heap → List ℕ → ℤ → Result Failure String
unfolding indented
render_mapping_entries lib heap content indent =
    let node = record (zero_node Kind.mapping "!!map" "") { content = content } in
    elim (lib.encode 2 heap node) [
      | err e ↦ err (error ("encode inserted YAML mapping: " <> e))
      | ok _ ↦ elim (lib.close 2 heap node) [
        | err e ↦ err (error ("close inserted YAML mapping encoder: " <> e))
        | ok out ↦ indented indent out
      ]
    ]
