-- ===== src/Writeback/Yaml/Insertion/Places.antt =====
-- Where entries are added to a mapping.
use mathlib.Core.List.{◌∷◌}
use mathlib.Core.Path.{subst}
use argocd_tag_updater.Base.{
  ℕ, zero, suc, ◌+◌, ◌-◌, ◌≤◌, ◌<◌, ◌≡◌, ◌⊎◌, inl, inr, refl, ap, ◌∙◌, true, false, some, List, [],
  ok, arith, eqb, eqb_iff, get_elem?, length, drop, All, All-map, Bool-cases,
}
use argocd_tag_updater.Base.Int.{ℤ, pos}
use argocd_tag_updater.Writeback.Yaml.Nodes.{Heap, Node, at, is_mapping}
use argocd_tag_updater.Writeback.Yaml.Tokens.{line_starts, starts_from}
use argocd_tag_updater.Writeback.Yaml.Insertion.{
  slice, ends_mapping, insertion_line, mapping_insertion_point,
}

-- The place is inside the manifest, and begins a line or stands behind its last byte.
abbrev pub IsBoundary : List ℕ → ℕ → Type 0
IsBoundary input place =
    (place ≤ length input)
    × ((place ≡ 0) ⊎ (get_elem? input (place - 1) ≡ some 10) ⊎ (place ≡ length input))

-- Behind a newline among the bytes from the byte `i` on.
abbrev IsBehindNewline : ℕ → List ℕ → ℕ → Type 0
IsBehindNewline i rest place = (k : ℕ) × (place ≡ i + suc k) × (get_elem? rest k ≡ some 10)

starts_from-IsBehindNewline :
    (i : ℕ) (rest : List ℕ) → All (IsBehindNewline i rest) (starts_from i rest)
unfolding starts_from
starts_from-IsBehindNewline i [] = tt
starts_from-IsBehindNewline i (b ∷ rest) =
    let further =
      All-map (IsBehindNewline (suc i) rest) (IsBehindNewline i (b ∷ rest))
        (starts_from (suc i) rest) (λ place (k, e, h). (suc k, omega arith, h))
        (starts_from-IsBehindNewline (suc i) rest) in
    elim (Bool-cases (eqb b 10)) [
      | inl newline ↦
          rw newline ((0, omega arith, ap (λ (c : ℕ). some c) ((eqb_iff b 10).0 newline)), further)
      | inr other ↦ rw other further
    ]

get_elem?-lt : (xs : List ℕ) (k : ℕ) {x : ℕ} → get_elem? xs k ≡ some x → k < length xs
get_elem?-lt [] k h = cc
get_elem?-lt (y ∷ ys) zero h = omega arith
get_elem?-lt (y ∷ ys) (suc k) h = omega (arith, get_elem?-lt ys k h)

line_starts-IsBoundary : (input : List ℕ) → All (IsBoundary input) (line_starts input)
unfolding line_starts
line_starts-IsBoundary input = (
  (omega arith, inl refl),
  All-map (IsBehindNewline 0 input) (IsBoundary input) (starts_from 0 input)
      (λ place (k, e, h).
        (omega (arith, get_elem?-lt input k h), inr (inl (ap (get_elem? input) (omega arith) ∙ h))))
      (starts_from-IsBehindNewline 0 input),
)

insertion_line-IsBoundary :
    (input : List ℕ) (indent : ℤ) (starts : List ℕ)
    → All (IsBoundary input) starts
    → IsBoundary input (insertion_line input indent starts)
unfolding insertion_line
insertion_line-IsBoundary input indent [] h = (omega arith, inr (inr refl))
insertion_line-IsBoundary input indent (start ∷ []) h =
    elim (Bool-cases (ends_mapping indent (slice input start (length input)))) [
      | inl ends ↦ rw ends h.0
      | inr goes ↦ rw goes (omega arith, inr (inr refl))
    ]
insertion_line-IsBoundary input indent (start ∷ end ∷ starts) h =
    elim (Bool-cases (ends_mapping indent (slice input start end))) [
      | inl ends ↦ rw ends h.0
      | inr goes ↦ rw goes (insertion_line-IsBoundary input indent (end ∷ starts) h.1)
    ]

All-drop : (P : ℕ → Type 0) (n : ℕ) (xs : List ℕ) → All P xs → All P (drop n xs)
All-drop P zero xs h = h
All-drop P (suc n) [] h = tt
All-drop P (suc n) (x ∷ xs) h = All-drop P n xs h.1

point_line :
    (heap : Heap) (input starts : List ℕ) (node : Node) (place : ℕ) (indent : ℤ)
    → mapping_insertion_point heap input starts node ≡ ok (place, indent)
    → (n : ℕ) × (insertion_line input indent (drop n starts) ≡ place)
unfolding mapping_insertion_point
point_line heap input starts node place indent h = go node.content h
  where
    go :
        (content : List ℕ)
        → mapping_insertion_point heap input starts (record node { content = content })
          ≡ ok (place, indent)
        → (n : ℕ) × (insertion_line input indent (drop n starts) ≡ place)
    go [] e = cc
    go (first ∷ rest) e = ((at heap first).line, ground arith)

-- The place at which entries are added to a mapping is inside the manifest, and it begins a line or
-- is the manifest's end.
pub mapping_insertion_point-IsBoundary :
    (heap : Heap) (input : List ℕ) (node : Node) (place : ℕ) (indent : ℤ)
    → mapping_insertion_point heap input (line_starts input) node ≡ ok (place, indent)
    → IsBoundary input place
mapping_insertion_point-IsBoundary heap input node place indent h =
    let (n, e) = point_line heap input (line_starts input) node place indent h in
    subst (IsBoundary input) e (
      insertion_line-IsBoundary input indent (drop n (line_starts input))
        (All-drop (IsBoundary input) n (line_starts input) (line_starts-IsBoundary input)))

never_ends : (line : List ℕ) → ends_mapping (pos 0) line ≡ false
unfolding ends_mapping
never_ends line = ground arith

top_level : (input : List ℕ) (starts : List ℕ) → insertion_line input (pos 0) starts ≡ length input
unfolding insertion_line
top_level input [] = refl
top_level input (start ∷ []) = rw never_ends refl
top_level input (start ∷ end ∷ starts) = rw never_ends (top_level input (end ∷ starts))

-- Entries of a mapping whose keys stand in the first column go behind the last byte of the manifest,
-- also where another document follows the mapping's own.
pub mapping_insertion_point_top_level :
    (heap : Heap) (input starts : List ℕ) (node : Node) (first : ℕ) (rest : List ℕ)
    → is_mapping node.kind ≡ true
    → node.content ≡ first ∷ rest
    → (at heap first).column ≡ 1
    → mapping_insertion_point heap input starts node ≡ ok (length input, pos 0)
unfolding mapping_insertion_point
mapping_insertion_point_top_level heap input starts node first rest kind content column =
    rw (mapping_insertion_point, content, kind, column)
      (ground (arith, top_level input (drop (at heap first).line starts)))
