-- ===== src/Base/Text/Laws.antt =====
-- Prefixes and suffixes of joined texts.
use Prim.Native.Nat.{ℕ}
use Prim.Native.Char.{Char, code}
use Prim.Native.String.{String, ◌++◌ as ◌<>◌}
use mathlib.Core.Path.{◌≡◌, ◌∙◌, refl, ap}
use mathlib.Core.Bool.{true, false}
use mathlib.Core.Option.{none, some}
use native.Mathlib.Omega.{arith}
use text.Mathlib.TextLemmas.{nil-append, cons-append}
use argocd_tag_updater.Base.Tests.{eqb, eqb_iff}
use argocd_tag_updater.Base.Text.{strip_prefix, cut, contains_char}

-- A text in front of another, by its characters: `◌<>◌`, as a function that computes.
unfoldable pub glue : String → String → String
glue String.[] t = t
glue (String.◌∷◌ c s) t = String.◌∷◌ c (glue s t)

pub append-eq-glue : (s t : String) → s <> t ≡ glue s t
unfolding glue
append-eq-glue String.[] t = nil-append t
append-eq-glue (String.◌∷◌ c s) t =
    cons-append c s t ∙ ap (λ u. String.◌∷◌ c u) (append-eq-glue s t)

strip_prefix-glue : (p s : String) → strip_prefix (glue p s) p ≡ some s
unfolding strip_prefix glue
strip_prefix-glue String.[] String.[] = refl
strip_prefix-glue String.[] (String.◌∷◌ c s) = refl
strip_prefix-glue (String.◌∷◌ c p) s =
    ground (arith, eqb_iff (code c) (code c), strip_prefix-glue p s)

-- A prefix comes off a text that it begins.
pub strip_prefix-append : (p s : String) → strip_prefix (p <> s) p ≡ some s
strip_prefix-append p s = rw (append-eq-glue p s, strip_prefix-glue p s)

-- No character with this code occurs.
abbrev pub Lacks : ℕ → String → Type 0
Lacks sep s = contains_char (λ c. eqb c sep) s ≡ false

cut-glue :
    (sep : ℕ) (c : Char) (a b : String)
    → Lacks sep a
    → eqb (code c) sep ≡ true
    → cut sep (glue a (String.◌∷◌ c b)) ≡ some (a, b)
unfolding cut glue contains_char
cut-glue sep c String.[] b h e = ground arith
cut-glue sep c (String.◌∷◌ d a) b h e = ground (arith, cut-glue sep c a b)

-- A cut at a separator behind a text without one.
pub cut-append :
    (sep : ℕ) (c : Char) (a b : String)
    → Lacks sep a
    → eqb (code c) sep ≡ true
    → cut sep (a <> String.◌∷◌ c "" <> b) ≡ some (a, b)
unfolding glue
cut-append sep c a b h e =
    rw (append-eq-glue (String.◌∷◌ c "") b, append-eq-glue a (String.◌∷◌ c b))
      (cut-glue sep c a b h e)

-- There is nothing to cut.
pub cut-Lacks : (sep : ℕ) (a : String) → Lacks sep a → cut sep a ≡ none
unfolding cut contains_char
cut-Lacks sep String.[] h = refl
cut-Lacks sep (String.◌∷◌ d a) h = ground (arith, cut-Lacks sep a)
