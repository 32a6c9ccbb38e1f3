-- ===== src/Writeback/Yaml.antt =====
-- internal/writeback/yaml.go: the edit of a manifest. The tree that the YAML decoder returns is a heap
-- of nodes, since `setScalar` changes nodes that the maps of edits and insertions point to.
pub mod Bytes
pub mod Nodes
pub mod Tokens
pub mod Fields
pub mod Target
pub mod Insertion
pub mod Edits
pub mod Render
pub mod Apply
pub mod Update
use argocd_tag_updater.Base.{ℕ, String, Bool, List, Result}
use argocd_tag_updater.Base.Dict.{Dict}
use argocd_tag_updater.Api.{LabelSelector}
use argocd_tag_updater.Writeback.Yaml.Nodes.{Heap, Node}

-- How an edit ends that does not give a new manifest: with an error, or by a panic of Go's.
pub data Failure : Type 0 where
  error : String → Failure
  panic : String → Failure

-- What the code calls. `decode` gives the nodes of a manifest and what each call of `Decode` in front of
-- the end of the input returned. `encode` and `close` are an encoder's `Encode` of a node and its
-- `Close`, with the text written by then, at an indent. `execute` parses and runs a template with
-- `missingkey=error`. `select` is `LabelSelectorAsSelector` with its `Matches`, `quote` is the `%q` of
-- `fmt`.
pub record Library : Type 0 where
  pub decode : List ℕ → Heap × List (Result String ℕ)
  pub unmarshal : String → Result String (Heap × ℕ)
  pub encode : ℕ → Heap → Node → Result String (Unit {0})
  pub close : ℕ → Heap → Node → Result String String
  pub execute : String → Dict String → Result String String
  pub select : LabelSelector → Result String (Dict String → Bool)
  pub quote : String → String
