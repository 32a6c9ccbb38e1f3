-- ===== src/Writeback/Yaml/Nodes.antt =====
-- `yaml.Node` and the functions of internal/writeback/yaml.go that read it: documentMap, mapValue,
-- scalarAt.
pub mod Memory
use argocd_tag_updater.Base.{
  ℕ, zero, suc, ◌+◌, String, Bool, true, false, none, some, Option, List, [], ◌∷◌, ◌++◌, Result, ok,
  err, ◌==◌, if◌then◌else◌, get_elem?, length,
}

pub data Kind : Type 0 where
  document : Kind
  mapping : Kind
  sequence : Kind
  scalar : Kind
  alias : Kind

-- The bits of `yaml.Style`.
pub record Style : Type 0 where
  pub tagged : Bool
  pub double_quoted : Bool
  pub single_quoted : Bool
  pub literal : Bool
  pub folded : Bool
  pub flow : Bool

abbrev pub plain : Style
plain = record {
  tagged = false;
  double_quoted = false;
  single_quoted = false;
  literal = false;
  folded = false;
  flow = false;
}

-- A pointer to a node is its place in the heap. Line and column are 0 for a node with no source.
pub record Node : Type 0 where
  pub kind : Kind
  pub tag : String
  pub value : String
  pub style : Style
  pub line : ℕ
  pub column : ℕ
  pub content : List ℕ

abbrev pub Heap : Type 0
Heap = List Node

-- `&yaml.Node{}`, and what stands where a pointer leads nowhere.
abbrev pub zero_node : Kind → String → String → Node
zero_node kind tag value = record {
  kind = kind;
  tag = tag;
  value = value;
  style = plain;
  line = 0;
  column = 0;
  content = [];
}

unfoldable pub at : Heap → ℕ → Node
at heap p = elim (get_elem? heap p) [ none ↦ zero_node Kind.alias "" "" | some node ↦ node ]

unfoldable pub store : Heap → ℕ → Node → Heap
store [] p node = []
store (old ∷ heap) zero node = node ∷ heap
store (old ∷ heap) (suc p) node = old ∷ store heap p node

unfoldable pub is_mapping : Kind → Bool
is_mapping Kind.mapping = true
is_mapping Kind.document = false
is_mapping Kind.sequence = false
is_mapping Kind.scalar = false
is_mapping Kind.alias = false

unfoldable pub is_scalar : Kind → Bool
is_scalar Kind.scalar = true
is_scalar Kind.document = false
is_scalar Kind.mapping = false
is_scalar Kind.sequence = false
is_scalar Kind.alias = false

unfoldable pub is_document : Kind → Bool
is_document Kind.document = true
is_document Kind.mapping = false
is_document Kind.sequence = false
is_document Kind.scalar = false
is_document Kind.alias = false

-- The loop of `mapValue` over the keys and values of a mapping. The decoder returns them in pairs.
unfoldable pub value_of : Heap → String → List ℕ → Option ℕ
unfolding at
value_of heap key [] = none
value_of heap key (k ∷ []) = none
value_of heap key (k ∷ v ∷ rest) =
    let further = value_of heap key rest in if (at heap k).value == key then some v else further

unfoldable pub map_value : Heap → ℕ → String → Option ℕ
unfolding at is_mapping value_of
map_value heap node key =
    if is_mapping (at heap node).kind then value_of heap key (at heap node).content else none

unfoldable pub scalar_at : Heap → ℕ → String → String
unfolding at is_scalar map_value
scalar_at heap node key = elim (map_value heap node key) [
  | none ↦ ""
  | some v ↦ if is_scalar (at heap v).kind then (at heap v).value else ""
]

unfoldable pub document_map : Heap → ℕ → Result String ℕ
unfolding at is_document is_mapping
document_map heap doc = elim (at heap doc).content [
  | [] ↦ err "manifest document must contain a mapping"
  | root ∷ [] ↦
      if is_document (at heap doc).kind
      then (if is_mapping (at heap root).kind
          then ok root
          else err "manifest document must contain a mapping")
      else err "manifest document must contain a mapping"
  | root ∷ next ∷ more ↦ err "manifest document must contain a mapping"
]
