-- ===== src/Sources/NixCache/Split.antt =====
-- The two parts of a repository name.
use Prim.Native.Char.{code}
use mathlib.Core.Path.{subst}
use text.Mathlib.TextEquality.{Char-path}
use argocd_tag_updater.Base.{
  ◌≡◌, ◌≢◌, ◌∙◌, inl, inr, refl, sym, ap, String, ◌<>◌, false, ◌||◌, Option, none, some, arith, eqb,
  eqb_iff, Bool-cases, Option-cases, ◌==◌, eq_iff, if◌then◌else◌,
}
use argocd_tag_updater.Base.Text.{cut_last, contains_char}
use argocd_tag_updater.Base.Text.Laws.{glue, append-eq-glue}
use argocd_tag_updater.Sources.NixCache.{split_last}

cut_last-none : (s : String) → cut_last b'/' s ≡ none → contains_char (λ c. eqb c b'/') s ≡ false
unfolding cut_last contains_char
cut_last-none String.[] h = refl
cut_last-none (String.◌∷◌ c s) h = ground (arith, cut_last-none s)

cut_last-some :
    (s a b : String)
    → cut_last b'/' s ≡ some (a, b)
    → (s ≡ glue a (glue "/" b)) × (contains_char (λ c. eqb c b'/') b ≡ false)
unfolding cut_last glue
cut_last-some String.[] a b h = absurd cc
cut_last-some (String.◌∷◌ c s) a b h = elim (Option-cases (cut_last b'/' s)) [
  | inr ((a', b'), e) ↦
      let (p, q) = cut_last-some s a' b' e in
      let (x, y) = parts (rw (cut_last, e) at h) in
      (
        ap (λ t. String.◌∷◌ c t) (p ∙ ap (λ t. glue a' (glue "/" t)) y)
            ∙ ap (λ t. glue t (glue "/" b)) x,
        subst (λ t. contains_char (λ c. eqb c b'/') t ≡ false) y q,
      )
  | inl e ↦ elim (Bool-cases (eqb (code c) b'/')) [
    | inr other ↦ absurd (cc (rw (cut_last, e, other) at h))
    | inl slash ↦
        let (x, y) = parts (rw (cut_last, e, slash) at h) in
        (
          ap (λ d. String.◌∷◌ d s) (Char-path c "/" ((eqb_iff (code c) b'/').0 slash))
              ∙ ap (λ t. glue "/" t) y
              ∙ ap (λ t. glue t (glue "/" b)) x,
          subst (λ t. contains_char (λ c. eqb c b'/') t ≡ false) y (cut_last-none s e),
        )
  ]
]
  where
    parts :
        {a b a' b' : String}
        → ◌≡◌ {A = Option (String × String)} (some (a', b')) (some (a, b))
        → (a' ≡ a) × (b' ≡ b)
    parts h = (cc, cc)

kept :
    (a b host name : String)
    → if◌then◌else◌ {A = Option (String × String)} (a == "" || b == "") none (some (a, b))
      ≡ some (host, name)
    → (a ≡ host) × (b ≡ name) × (host ≢ "") × (name ≢ "")
kept a b host name h = ground (arith, eq_iff a "", eq_iff b "")

-- A name that is split is the two parts with a slash between them: there is text on both sides, and no
-- slash in the part behind.
pub split_last_joins :
    (ref host name : String)
    → split_last ref ≡ some (host, name)
    → (ref ≡ host <> ("/" <> name))
      × (host ≢ "")
      × (name ≢ "")
      × (contains_char (λ c. eqb c b'/') name ≡ false)
unfolding split_last
split_last_joins ref host name h = elim (Option-cases (cut_last b'/' ref)) [
  | inl e ↦ absurd (cc (rw (split_last, e) at h))
  | inr ((a, b), e) ↦
      let (p, q) = cut_last-some ref a b e in
      let (x, y, n, m) = kept a b host name (rw (split_last, e) at h) in
      (
        p
            ∙ ap (λ t. glue t (glue "/" b)) x
            ∙ ap (λ t. glue host (glue "/" t)) y
            ∙ ap (glue host) (sym (append-eq-glue "/" name))
            ∙ sym (append-eq-glue host ("/" <> name)),
        n,
        m,
        subst (λ t. contains_char (λ c. eqb c b'/') t ≡ false) y q,
      )
]
