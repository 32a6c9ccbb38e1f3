-- ===== src/Sources/Digest.antt =====
-- internal/source/oci_digest.go: the two expressions that it matches tags and digests against.
use Prim.Native.Char.{code}
use Prim.Native.String.{count}
use argocd_tag_updater.Base.{ℕ, String, Bool, false, ◌&&◌, ◌||◌, not, none, some, leb, eqb}
use argocd_tag_updater.Base.Text.{strip_prefix, contains_char}
use argocd_tag_updater.Base.Numbers.{is_digit}

abbrev is_lower_hex : ℕ → Bool
is_lower_hex c = is_digit c || leb b'a' c && leb c b'f'

-- `^sha256:[0-9a-f]{64}$`
unfoldable pub valid_digest : String → Bool
unfolding strip_prefix contains_char is_digit
valid_digest value = elim (strip_prefix value "sha256:") [
  | none ↦ false
  | some hash ↦ eqb (count hash) 64 && not (contains_char (λ c. not (is_lower_hex c)) hash)
]

abbrev is_tag_start : ℕ → Bool
is_tag_start c = is_digit c || leb b'A' c && leb c b'Z' || leb b'a' c && leb c b'z' || eqb c b'_'

-- `^[A-Za-z0-9_][A-Za-z0-9_.-]{0,127}$`
unfoldable pub valid_tag : String → Bool
unfolding contains_char is_digit
valid_tag String.[] = false
valid_tag (String.◌∷◌ c rest) =
    is_tag_start (code c)
    && leb (count rest) 127
    && not (contains_char (λ d. not (is_tag_start d || eqb d b'.' || eqb d b'-')) rest)
