-- ===== src/Matcher.antt =====
-- internal/matcher/matcher.go: which tags match the pattern, and which match is the latest. The
-- compiled expression is a parameter, and so is `sort.Slice` (Matcher/Sort.antt has its contract).
pub mod Sort
pub mod Order
pub mod Latest
use Prim.Native.Nat.{Ordering}
use Prim.Native.String.{compare}
use argocd_tag_updater.Base.{
  String, ◌<>◌, Bool, true, false, Option, none, some, List, [], ◌∷◌, Result, ok, err, ◌==◌,
  if◌then◌else◌,
}
use argocd_tag_updater.Base.Int.{ℤ, ltb_ℤ}
use argocd_tag_updater.Base.Numbers.{atoi}
use argocd_tag_updater.Base.Dict
use argocd_tag_updater.Base.Dict.{Dict}

pub record Match : Type 0 where
  pub tag : String
  pub captures : Dict String

-- What the program uses of a `*regexp.Regexp`.
pub record Regexp : Type 0 where
  pub subexp_names : List String
  pub find_string_submatch : String → Option (List String)

pub record Matcher : Type 0 where
  pub re : Regexp

-- `New`, over `regexp.Compile`. `quote` is the `%q` of `fmt`.
unfoldable pub new :
    (String → Result String Regexp) → (String → String) → String → Result String Matcher
new compile quote pattern = elim (compile pattern) [
  | ok re ↦ ok (record { re = re })
  | err e ↦ err ("compile tagPattern " <> quote pattern <> ": " <> e)
]

-- The loop over the names. A match has one text for each name, so the lists end together.
unfoldable pub captures_of : List String → List String → Dict String → Dict String
unfolding Dict.insert
captures_of [] sub captures = captures
captures_of (name ∷ names) [] captures = captures
captures_of (name ∷ names) (text ∷ sub) captures =
    captures_of names sub (if name == "" then captures else Dict.insert name text captures)

unfoldable pub all : Matcher → List String → List Match
unfolding captures_of
all m [] = []
all m (tag ∷ tags) =
    let results = all m tags in
    elim (m.re.find_string_submatch tag) [
      | none ↦ results
      | some sub ↦ record { tag = tag; captures = captures_of m.re.subexp_names sub [] } ∷ results
    ]

-- `a > b` between texts, which Go orders by their bytes.
unfoldable pub text_gt : String → String → Bool
text_gt a b = elim (compare a b) [ Ordering.gt ↦ true | _ ↦ false ]

-- The `n` capture as a number.
unfoldable pub build_number : Match → Option ℤ
unfolding atoi Dict.value
build_number m = atoi (Dict.value "n" m.captures)

-- The function that `Latest` hands to `sort.Slice`.
unfoldable pub less : Match → Match → Bool
less a b = elim (build_number a) [
  | none ↦ text_gt a.tag b.tag
  | some ni ↦ elim (build_number b) [ none ↦ text_gt a.tag b.tag | some nj ↦ ltb_ℤ nj ni ]
]

abbrev pub head? : List Match → Option Match
head? [] = none
head? (m ∷ more) = some m

module _ (sort_slice : (Match → Match → Bool) → List Match → List Match) where
  unfoldable pub latest : Matcher → List String → Option Match
  latest m tags = elim (all m tags) [
    | [] ↦ none
    | first ∷ more ↦ head? (sort_slice less (first ∷ more))
  ]
