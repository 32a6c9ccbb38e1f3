-- ===== src/Writeback/Yaml/Apply/Insertions.antt =====
-- The entries that applyYAMLEdits adds to mappings.
use argocd_tag_updater.Base.{
  ℕ, ◌+◌, ◌<◌, ◌≡◌, ◌∙◌, refl, ap, String, Bool, true, List, [], ◌∷◌, ◌++◌, ok, err, length,
}
use argocd_tag_updater.Writeback.Yaml.{panic, Library}
use argocd_tag_updater.Writeback.Yaml.Nodes.{Kind, Heap, Node, at, is_mapping, zero_node}
use argocd_tag_updater.Writeback.Yaml.Fields.{Editing, add_entry}
use argocd_tag_updater.Writeback.Yaml.Insertion.{mapping_insertion_point}
use argocd_tag_updater.Writeback.Yaml.Render.{render_mapping_entries}
use argocd_tag_updater.Writeback.Yaml.Apply.{insertion_edit, lift_error}
use argocd_tag_updater.Writeback.Yaml.Fields.Memory.{at-add_entry_parent, at-add_entry_key}

no_column :
    (lib : Library) (heap : Heap) (input starts : List ℕ) (node : Node) (first : ℕ)
    (rest entries : List ℕ) {out : String}
    → is_mapping node.kind ≡ true
    → node.content ≡ first ∷ rest
    → (at heap first).column ≡ 0
    → lib.encode 2 heap (record (zero_node Kind.mapping "!!map" "") { content = entries }) ≡ ok tt
    → lib.close 2 heap (record (zero_node Kind.mapping "!!map" "") { content = entries }) ≡ ok out
    → insertion_edit lib heap input starts node entries
      ≡ err (panic "strings: negative Repeat count")
unfolding insertion_edit mapping_insertion_point render_mapping_entries lift_error
no_column lib heap input starts node first rest entries kind content column enc close =
    rw (mapping_insertion_point, content, kind, column)
      (rw (render_mapping_entries, enc, close) refl)

-- Adding a key to a mapping of the manifest that has none, such as `{}`, makes the edit panic: the key
-- that was added is taken for the mapping's first key, and it has no column. The encoder is supposed
-- to encode the added entries.
pub add_entry_panics :
    (lib : Library) (s : Editing) (parent : ℕ) (segment value : String) (last : Bool)
    (input starts entries : List ℕ) {out : String}
    → parent < length s.heap
    → is_mapping (at s.heap parent).kind ≡ true
    → (at s.heap parent).content ≡ []
    → lib.encode 2
        (add_entry parent segment last value s).heap
        (record (zero_node Kind.mapping "!!map" "") { content = entries })
      ≡ ok tt
    → lib.close 2
        (add_entry parent segment last value s).heap
        (record (zero_node Kind.mapping "!!map" "") { content = entries })
      ≡ ok out
    → insertion_edit lib
        (add_entry parent segment last value s).heap
        input
        starts
        (at (add_entry parent segment last value s).heap parent)
        entries
      ≡ err (panic "strings: negative Repeat count")
add_entry_panics lib s parent segment value last input starts entries there kind empty enc close =
    no_column lib (add_entry parent segment last value s).heap input starts
      (at (add_entry parent segment last value s).heap parent) (length s.heap)
      ((length s.heap + 1) ∷ []) entries
      (ap (λ (n : Node). is_mapping n.kind) (at-add_entry_parent s parent segment value last there)
        ∙ kind)
      (ap (λ (n : Node). n.content) (at-add_entry_parent s parent segment value last there)
        ∙ ap (λ (c : List ℕ). c ++ length s.heap ∷ (length s.heap + 1) ∷ []) empty)
      (ap (λ (n : Node). n.column) (at-add_entry_key s parent segment value last there)) enc close
