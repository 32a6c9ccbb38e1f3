-- ===== src/Base/Text.antt =====
-- Go's `strings` package over native texts, as far as the program calls it. The separators that it
-- looks for are ASCII, so walking characters and walking the bytes of the UTF-8 give one answer.
pub mod Laws
use Prim.Native.Nat.{ℕ, zero, suc, ◌+◌}
use Prim.Native.Char.{code}
use Prim.Native.String.{String, ◌++◌ as ◌<>◌}
use mathlib.Core.Bool.{Bool, true, false, ◌&&◌, ◌||◌}
use mathlib.Core.Option
use mathlib.Core.Option.{Option, none, some}
use mathlib.Core.List.{List, [], ◌∷◌}
use text.Mathlib.Text.{◌==◌}
use argocd_tag_updater.Base.Tests.{leb, eqb, if◌then◌else◌}

-- `strings.HasPrefix` and `strings.TrimPrefix` in one: the rest of the text behind the prefix.
unfoldable pub strip_prefix : String → String → Option String
strip_prefix s String.[] = some s
strip_prefix String.[] (String.◌∷◌ c p) = none
strip_prefix (String.◌∷◌ d s) (String.◌∷◌ c p) =
    if eqb (code d) (code c) then strip_prefix s p else none

unfoldable pub has_prefix : String → String → Bool
unfolding strip_prefix
has_prefix s p = elim (strip_prefix s p) [ none ↦ false | some _ ↦ true ]

unfoldable pub trim_prefix : String → String → String
unfolding strip_prefix
trim_prefix s p = elim (strip_prefix s p) [ none ↦ s | some rest ↦ rest ]

-- The text in front of the suffix.
unfoldable pub strip_suffix : String → String → Option String
strip_suffix String.[] t = if "" == t then some "" else none
strip_suffix (String.◌∷◌ c s) t =
    let rest = strip_suffix s t in
    if String.◌∷◌ c s == t then some "" else Option.map (λ r. String.◌∷◌ c r) rest

unfoldable pub trim_suffix : String → String → String
unfolding strip_suffix
trim_suffix s t = elim (strip_suffix s t) [ none ↦ s | some rest ↦ rest ]

-- `strings.Cut` at a separator of one character.
unfoldable pub cut : ℕ → String → Option (String × String)
cut sep String.[] = none
cut sep (String.◌∷◌ c s) =
    let rest = cut sep s in
    if eqb (code c) sep
    then some ("", s)
    else elim rest [ none ↦ none | some (a, b) ↦ some (String.◌∷◌ c a, b) ]

-- A cut at the last separator: `s[:i]`, `s[i+1:]` for `i = strings.LastIndexByte(s, sep)`.
unfoldable pub cut_last : ℕ → String → Option (String × String)
cut_last sep String.[] = none
cut_last sep (String.◌∷◌ c s) =
    let rest = cut_last sep s in
    elim rest [
      | some (a, b) ↦ some (String.◌∷◌ c a, b)
      | none ↦ if eqb (code c) sep then some ("", s) else none
    ]

-- `strings.Replace(s, sep, by, 1)` for a separator of one character.
unfoldable pub replace_first : ℕ → String → String → String
unfolding cut
replace_first sep by s = elim (cut sep s) [ none ↦ s | some (a, b) ↦ a <> by <> b ]

-- Does a character with this property occur?
unfoldable pub contains_char : (ℕ → Bool) → String → Bool
contains_char p String.[] = false
contains_char p (String.◌∷◌ c s) = p (code c) || contains_char p s

-- `strings.Contains`
unfoldable pub contains : String → String → Bool
unfolding has_prefix
contains String.[] t = has_prefix "" t
contains (String.◌∷◌ c s) t = has_prefix (String.◌∷◌ c s) t || contains s t

-- `unicode.IsSpace`
unfoldable pub is_space : ℕ → Bool
is_space c =
    eqb c 32
    || leb 9 c && leb c 13
    || eqb c 0x85
    || eqb c 0xa0
    || eqb c 0x1680
    || leb 0x2000 c && leb c 0x200a
    || eqb c 0x2028
    || eqb c 0x2029
    || eqb c 0x202f
    || eqb c 0x205f
    || eqb c 0x3000

-- `strings.TrimSpace(s) == ""`
unfoldable pub is_blank : String → Bool
unfolding is_space
is_blank String.[] = true
is_blank (String.◌∷◌ c s) = is_space (code c) && is_blank s

unfoldable pub trim_left : (ℕ → Bool) → String → String
trim_left p String.[] = ""
trim_left p (String.◌∷◌ c s) =
    let rest = trim_left p s in if p (code c) then rest else String.◌∷◌ c s

unfoldable pub trim_right : (ℕ → Bool) → String → String
trim_right p String.[] = ""
trim_right p (String.◌∷◌ c s) =
    let rest = trim_right p s in if p (code c) && rest == "" then "" else String.◌∷◌ c rest

-- `strings.TrimSpace`
unfoldable pub trim_space : String → String
unfolding trim_left trim_right is_space
trim_space s = trim_right is_space (trim_left is_space s)

-- The ASCII letters that `strings.EqualFold(s, "true")` folds; no other letter folds to these four.
unfoldable pub to_lower : ℕ → ℕ
to_lower c = if leb b'A' c && leb c b'Z' then c + 32 else c

unfoldable pub equal_fold : String → String → Bool
unfolding to_lower
equal_fold String.[] String.[] = true
equal_fold String.[] (String.◌∷◌ d t) = false
equal_fold (String.◌∷◌ c s) String.[] = false
equal_fold (String.◌∷◌ c s) (String.◌∷◌ d t) =
    eqb (to_lower (code c)) (to_lower (code d)) && equal_fold s t

-- `strings.Join`
unfoldable pub join : String → List String → String
join sep [] = ""
join sep (s ∷ []) = s
join sep (s ∷ t ∷ more) = s <> sep <> join sep (t ∷ more)

-- `strings.Split` at a separator of one character.
unfoldable pub split : ℕ → String → List String
split sep String.[] = "" ∷ []
split sep (String.◌∷◌ c s) =
    let rest = split sep s in
    if eqb (code c) sep
    then "" ∷ rest
    else elim rest [ [] ↦ String.◌∷◌ c "" ∷ [] | part ∷ parts ↦ String.◌∷◌ c part ∷ parts ]

-- `strings.Repeat(" ", n)`
unfoldable pub spaces : ℕ → String
spaces zero = ""
spaces (suc n) = " " <> spaces n
