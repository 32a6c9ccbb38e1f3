-- ===== src/Writeback/Yaml/Fields.antt =====
-- setScalar of internal/writeback/yaml.go.
pub mod Memory
pub mod Trees
pub mod Grows
pub mod Reaches
use argocd_tag_updater.Base.{
  ℕ, ◌+◌, ◌<>◌, String, Bool, true, false, none, some, Option, List, [], ◌∷◌, ◌++◌, ltb, eqb,
  if◌then◌else◌, get_elem?, length, M, ◌>>=◌, ◌>>◌, return, stop, gets, modify, when, branch,
  on_option,
}
use argocd_tag_updater.Base.Int.{ℤ, pos, negsuc}
use argocd_tag_updater.Base.Numbers.{atoi}
use argocd_tag_updater.Base.Text.{join}
use argocd_tag_updater.Writeback.Yaml.{Failure, error}
use argocd_tag_updater.Writeback.Yaml.Nodes.{
  Kind, Heap, Node, zero_node, at, store, is_scalar, map_value, value_of,
}

-- The heap, and the two maps of `UpdateManifest`. Their order stands for the order of Go's `range`.
pub record Editing : Type 0 where
  pub heap : Heap
  pub edits : List (ℕ × String)
  pub insertions : List (ℕ × List ℕ)

abbrev pub Edit : Type 0 → Type 0
Edit A = M Editing Failure A

-- `insertions[parent] = append(insertions[parent], added...)`
unfoldable pub append_at : ℕ → List ℕ → List (ℕ × List ℕ) → List (ℕ × List ℕ)
append_at parent added [] = (parent, added) ∷ []
append_at parent added ((p, content) ∷ rest) =
    let further = append_at parent added rest in
    if eqb p parent then (p, content ++ added) ∷ rest else (p, content) ∷ further

-- The node that a missing key gets.
abbrev pub new_child : Bool → String → Node
new_child last value =
    if last then zero_node Kind.scalar "!!str" value else zero_node Kind.mapping "!!map" ""

abbrev pub grown : Heap → String → Bool → String → Heap
grown heap segment last value =
    heap ++ zero_node Kind.scalar "!!str" segment ∷ new_child last value ∷ []

-- A new key with a new value at the end of a mapping. The result is the value.
unfoldable pub add_entry : ℕ → String → Bool → String → Editing → Editing
unfolding at store append_at
add_entry parent segment last value s =
    let node = at s.heap parent in
    let key = length s.heap in
    record s {
      heap =
          store (grown s.heap segment last value) parent
            (record node { content = node.content ++ key ∷ (key + 1) ∷ [] });
      insertions =
          if ltb 0 node.line
          then append_at parent (key ∷ (key + 1) ∷ []) s.insertions
          else s.insertions;
    }

-- `idx < 0 || idx >= len(cur.Content)`
unfoldable pub child_at : List ℕ → Option ℤ → Option ℕ
child_at content none = none
child_at content (some (negsuc i)) = none
child_at content (some (pos i)) = get_elem? content i

-- The `switch` over the kind of the node.
unfoldable pub enter :
    (String → String) → ℕ → List String → String → Bool → String → Heap → Kind → Edit ℕ
unfolding at map_value value_of add_entry child_at atoi join ◌>>=◌
enter quote cur before segment last value heap Kind.mapping =
    on_option (value_of heap segment (at heap cur).content)
      (do modify (add_entry cur segment last value); return (length heap + 1)) return
enter quote cur before segment last value heap Kind.sequence =
    on_option (child_at (at heap cur).content (atoi segment))
      (stop (
        error (
          "path segment "
          <> quote (join "." (before ++ segment ∷ []))
          <> " is not a valid list index")))
      return
enter quote cur before segment last value heap _ =
    stop (error ("path segment " <> quote (join "." before) <> " traverses a scalar"))

-- One segment of the path.
unfoldable pub descend : (String → String) → ℕ → List String → String → Bool → String → Edit ℕ
unfolding at enter ◌>>=◌
descend quote cur before segment last value = do
  heap ← gets (λ s. s.heap)
  enter quote cur before segment last value heap (at heap cur).kind

-- Behind the last segment.
unfoldable pub arrive : ℕ → Edit ℕ
unfolding at is_scalar ◌>>=◌
arrive cur = do
  scalar ← gets (λ s. is_scalar (at s.heap cur).kind)
  branch scalar (return cur) (stop (error "target is not a scalar"))

-- The path from the node `cur`, to which the segments `before` led.
unfoldable pub set_scalar : (String → String) → ℕ → List String → List String → String → Edit ℕ
unfolding descend arrive ◌>>=◌
set_scalar quote cur before [] value = stop (error "empty field path")
set_scalar quote cur before (segment ∷ []) value = do
  next ← descend quote cur before segment true value
  arrive next
set_scalar quote cur before (segment ∷ following ∷ path) value = do
  next ← descend quote cur before segment false value
  set_scalar quote next (before ++ segment ∷ []) (following ∷ path) value
