-- ===== src/Writeback/Yaml/Insertion.antt =====
-- mappingInsertionPoint of internal/writeback/yaml.go. A key that was not read from the manifest has
-- line 0 and column 0, so the indent and the first line may be -1.
pub mod Places
use argocd_tag_updater.Base.{
  ℕ, zero, suc, ◌+◌, ◌-◌, String, Bool, true, false, none, some, Option, List, [], ◌∷◌, Result, ok,
  err, ltb, if◌then◌else◌, length, take, drop,
}
use argocd_tag_updater.Base.Int.{ℤ, pos, sub_ℕ, ltb_ℤ}
use argocd_tag_updater.Writeback.Yaml.Bytes.{trim_line_end, is_blank_or_comment, leading_spaces}
use argocd_tag_updater.Writeback.Yaml.Nodes.{Heap, Node, at, is_mapping}

-- `input[start:end]`
abbrev pub slice : List ℕ → ℕ → ℕ → List ℕ
slice input start end = take (end - start) (drop start input)

-- Does the line end the mapping, as less indented text?
unfoldable pub ends_mapping : ℤ → List ℕ → Bool
unfolding trim_line_end is_blank_or_comment leading_spaces
ends_mapping indent line =
    let text = trim_line_end line in
    if is_blank_or_comment text then false else ltb_ℤ (pos (leading_spaces text)) indent

-- The lines that begin at these places.
unfoldable pub insertion_line : List ℕ → ℤ → List ℕ → ℕ
unfolding ends_mapping
insertion_line input indent [] = length input
insertion_line input indent (start ∷ []) =
    if ends_mapping indent (slice input start (length input)) then start else length input
insertion_line input indent (start ∷ end ∷ starts) =
    let further = insertion_line input indent (end ∷ starts) in
    if ends_mapping indent (slice input start end) then start else further

-- The loop begins at `startLine + 1`, which is the line number of the first key.
unfoldable pub mapping_insertion_point : Heap → List ℕ → List ℕ → Node → Result String (ℕ × ℤ)
unfolding at is_mapping insertion_line
mapping_insertion_point heap input starts node = elim node.content [
  | [] ↦ err "cannot insert into an empty or non-mapping YAML node"
  | first ∷ rest ↦
      if is_mapping node.kind
      then (let indent = sub_ℕ (at heap first).column 1 in
          ok (insertion_line input indent (drop (at heap first).line starts), indent))
      else err "cannot insert into an empty or non-mapping YAML node"
]
