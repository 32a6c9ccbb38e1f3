-- ===== src/Writeback/Yaml/Fields/Memory.antt =====
-- The heap behind `add_entry`.
use argocd_tag_updater.Base.{
  ℕ, ◌+◌, ◌<◌, ◌≡◌, ◌≢◌, ◌∙◌, String, Bool, [], ◌∷◌, ◌++◌, arith, length, length-append,
}
use argocd_tag_updater.Writeback.Yaml.Nodes.{Kind, Heap, zero_node, at}
use argocd_tag_updater.Writeback.Yaml.Nodes.Memory.{
  at-store_same, at-store_other, length-store, at-append_old, at-append_new, at-append_next,
}
use argocd_tag_updater.Writeback.Yaml.Fields.{Editing, add_entry, grown, new_child}

pub length-grown :
    (heap : Heap) (segment : String) (last : Bool) (value : String)
    → length (grown heap segment last value) ≡ length heap + 2
length-grown heap segment last value =
    length-append heap (zero_node Kind.scalar "!!str" segment ∷ new_child last value ∷ [])

pub at-add_entry_parent :
    (s : Editing) (parent : ℕ) (segment value : String) (last : Bool)
    → parent < length s.heap
    → at (add_entry parent segment last value s).heap parent ≡ record (at s.heap parent) {
      content = (at s.heap parent).content ++ length s.heap ∷ (length s.heap + 1) ∷ [];
    }
unfolding add_entry
at-add_entry_parent s parent segment value last there =
    at-store_same (grown s.heap segment last value) parent
      (record (at s.heap parent) {
        content = (at s.heap parent).content ++ length s.heap ∷ (length s.heap + 1) ∷ [];
      })
      (omega (arith, length-grown s.heap segment last value))

pub at-add_entry_key :
    (s : Editing) (parent : ℕ) (segment value : String) (last : Bool)
    → parent < length s.heap
    → at (add_entry parent segment last value s).heap (length s.heap)
      ≡ zero_node Kind.scalar "!!str" segment
unfolding add_entry
at-add_entry_key s parent segment value last there =
    at-store_other (grown s.heap segment last value) parent (length s.heap)
      (record (at s.heap parent) {
        content = (at s.heap parent).content ++ length s.heap ∷ (length s.heap + 1) ∷ [];
      })
      (omega arith)
    ∙ at-append_new s.heap (zero_node Kind.scalar "!!str" segment) (new_child last value ∷ [])

pub at-add_entry_child :
    (s : Editing) (parent : ℕ) (segment value : String) (last : Bool)
    → parent < length s.heap
    → at (add_entry parent segment last value s).heap (length s.heap + 1) ≡ new_child last value
unfolding add_entry
at-add_entry_child s parent segment value last there =
    at-store_other (grown s.heap segment last value) parent (length s.heap + 1)
      (record (at s.heap parent) {
        content = (at s.heap parent).content ++ length s.heap ∷ (length s.heap + 1) ∷ [];
      })
      (omega arith)
    ∙ at-append_next s.heap (zero_node Kind.scalar "!!str" segment) (new_child last value) []

pub at-add_entry_other :
    (s : Editing) (parent p : ℕ) (segment value : String) (last : Bool)
    → parent ≢ p
    → p < length s.heap
    → at (add_entry parent segment last value s).heap p ≡ at s.heap p
unfolding add_entry
at-add_entry_other s parent p segment value last other there =
    at-store_other (grown s.heap segment last value) parent p
      (record (at s.heap parent) {
        content = (at s.heap parent).content ++ length s.heap ∷ (length s.heap + 1) ∷ [];
      })
      other
    ∙ at-append_old s.heap (zero_node Kind.scalar "!!str" segment ∷ new_child last value ∷ []) p
        there

pub length-add_entry :
    (s : Editing) (parent : ℕ) (segment value : String) (last : Bool)
    → length (add_entry parent segment last value s).heap ≡ length s.heap + 2
unfolding add_entry
length-add_entry s parent segment value last =
    length-store (grown s.heap segment last value) parent (record (at s.heap parent) {
      content = (at s.heap parent).content ++ length s.heap ∷ (length s.heap + 1) ∷ [];
    })
    ∙ length-grown s.heap segment last value
