-- ===== src/Writeback/Paths/Names.antt =====
-- The names that `filepath.Clean` keeps of a path.
use Prim.Native.Char.{code}
use mathlib.Core.List.{reverse, reverse-cons}
use argocd_tag_updater.Base.{
  ◌≡◌, ◌≢◌, ◌⊎◌, ◌∙◌, inl, inr, ap, String, false, List, [], ◌∷◌, ◌++◌, arith, All, Bool-cases,
  ◌==◌, eq_iff, eqb, if◌then◌else◌,
}
use argocd_tag_updater.Base.Text.{split}
use argocd_tag_updater.Writeback.Paths.Clean.{keep_element, keep_elements}

abbrev pub HasNoSlash : String → Type 0
HasNoSlash String.[] = Unit
HasNoSlash (String.◌∷◌ c s) = (code c ≢ b'/') × HasNoSlash s

-- The name of a directory entry: not empty, no step back or on the spot, no slash.
abbrev pub IsName : String → Type 0
IsName part = (part ≢ "") × (part ≢ ".") × (part ≢ "..") × HasNoSlash part

pub split-HasNoSlash : (s : String) → All HasNoSlash (split b'/' s)
unfolding split
split-HasNoSlash String.[] = (tt, tt)
split-HasNoSlash (String.◌∷◌ c s) = go (split b'/' s) (split-HasNoSlash s)
  where
    go :
        (parts : List String)
        → All HasNoSlash parts
        → All HasNoSlash (
            if eqb (code c) b'/'
            then "" ∷ parts
            else elim parts [ [] ↦ String.◌∷◌ c "" ∷ [] | part ∷ more ↦ String.◌∷◌ c part ∷ more ])
    go [] h = ground arith
    go (part ∷ more) h = ground arith

-- The elements kept of a relative path: names on top of steps back.
abbrev pub IsKept : List String → Type 0
IsKept [] = Unit
IsKept (part ∷ stack) =
    (part ≢ "")
    × (part ≢ ".")
    × HasNoSlash part
    × (part ≡ ".." → All (λ below. below ≡ "..") stack)
    × IsKept stack

keep_element-IsKept :
    (stack : List String) (part : String)
    → IsKept stack
    → HasNoSlash part
    → IsKept (keep_element false stack part)
unfolding keep_element
keep_element-IsKept [] part h k = ground (arith, eq_iff part "", eq_iff part ".", eq_iff part "..")
keep_element-IsKept (top ∷ stack) part h k =
    ground (arith, eq_iff part "", eq_iff part ".", eq_iff part "..", eq_iff top "..")

pub keep_elements-IsKept :
    (stack parts : List String)
    → IsKept stack
    → All HasNoSlash parts
    → IsKept (keep_elements false stack parts)
unfolding keep_elements
keep_elements-IsKept stack [] h k = h
keep_elements-IsKept stack (part ∷ parts) h (k, ks) =
    keep_elements-IsKept (keep_element false stack part) parts (keep_element-IsKept stack part h k)
      ks

top_name :
    (part : String) (stack : List String)
    → IsKept (part ∷ stack)
    → All IsName stack
    → All IsName (part ∷ stack) ⊎ ((rest : List String) × (reverse (part ∷ stack) ≡ ".." ∷ rest))
top_name part stack h names = elim (Bool-cases (part == "..")) [
  | inr other ↦ inl ((h.0, h.1, (λ e. cc ((eq_iff part "..").1 e, other)), h.2), names)
  | inl same ↦ inr (only stack ((eq_iff part "..").0 same) (h.3 ((eq_iff part "..").0 same)) names)
]
  where
    only :
        (stack : List String)
        → part ≡ ".."
        → All (λ below. below ≡ "..") stack
        → All IsName stack
        → (rest : List String) × (reverse (part ∷ stack) ≡ ".." ∷ rest)
    only [] e ups names = ([], ap (λ (p : String). p ∷ []) e)
    only (below ∷ stack) e ups names = absurd (names.0.2 ups.0)

-- Only names were kept, or the path begins with a step back.
pub names_or_back :
    (stack : List String)
    → IsKept stack
    → All IsName stack ⊎ ((rest : List String) × (reverse stack ≡ ".." ∷ rest))
names_or_back [] h = inl tt
names_or_back (part ∷ stack) h = elim (names_or_back stack h.4) [
  | inr (rest, e) ↦
      inr (
        rest ++ (part ∷ []),
        reverse-cons part stack ∙ ap (λ (l : List String). l ++ (part ∷ [])) e,
      )
  | inl names ↦ top_name part stack h names
]
