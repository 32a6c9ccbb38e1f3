-- ===== src/Writeback/Yaml/Tokens.antt =====
-- Where a scalar stands in the bytes of a manifest: `lineStarts` and scalarTokenEnd of
-- internal/writeback/yaml.go.
pub mod Ends
pub mod Bounds
use argocd_tag_updater.Base.{
  ℕ, zero, suc, ◌+◌, ◌-◌, String, Bool, true, false, ◌&&◌, ◌||◌, none, some, Option, List, [], ◌∷◌,
  Result, ok, err, eqb, leb, if◌then◌else◌, get_elem?, length, drop,
}
use argocd_tag_updater.Writeback.Yaml.Bytes.{is_blank_byte, is_line_end}
use argocd_tag_updater.Writeback.Yaml.Nodes.{Style}

-- The starts of the lines behind the byte at `i`.
unfoldable pub starts_from : ℕ → List ℕ → List ℕ
starts_from i [] = []
starts_from i (b ∷ input) =
    let rest = starts_from (suc i) input in if eqb b 10 then suc i ∷ rest else rest

unfoldable pub line_starts : List ℕ → List ℕ
unfolding starts_from
line_starts input = 0 ∷ starts_from 0 input

-- The loop over a quoted scalar, at the byte `i`: the end of the token.
unfoldable pub quoted_end : ℕ → ℕ → List ℕ → Option ℕ
quoted_end quote i [] = none
quoted_end quote i (b ∷ []) =
    if eqb quote b'"' && eqb b b'\\' then none else if eqb b quote then some (suc i) else none
quoted_end quote i (b ∷ c ∷ rest) =
    let next = quoted_end quote (i + 1) (c ∷ rest) in
    let over = quoted_end quote (i + 2) rest in
    if eqb quote b'"' && eqb b b'\\'
    then over
    else if eqb b quote
    then (if eqb quote b'\'' && eqb c b'\'' then over else some (suc i))
    else next

-- The first loop over a plain scalar: how many bytes it takes, where the byte in front is `before`.
unfoldable pub plain_length : Option ℕ → List ℕ → ℕ
unfolding is_line_end is_blank_byte
plain_length before [] = 0
plain_length before (b ∷ rest) =
    let further = plain_length (some b) rest in
    if is_line_end b
    then 0
    else if eqb b b'#' && elim before [ none ↦ false | some a ↦ is_blank_byte a ]
    then 0
    else suc further

-- The second loop, which steps back over blanks: `n` bytes behind the start are left.
unfoldable pub trim_blanks : List ℕ → ℕ → ℕ
unfolding is_blank_byte
trim_blanks token zero = 0
trim_blanks token (suc n) =
    let shorter = trim_blanks token n in
    elim (get_elem? token n) [ none ↦ suc n | some b ↦ if is_blank_byte b then shorter else suc n ]

unfoldable pub plain_end : ℕ → List ℕ → ℕ
unfolding plain_length trim_blanks
plain_end start token = start + trim_blanks token (plain_length none token)

unfoldable pub scalar_token_end : List ℕ → ℕ → Style → Result String ℕ
unfolding quoted_end plain_end
scalar_token_end input start style =
    if leb (length input) start
    then err "edited scalar starts past end of manifest"
    else if style.double_quoted || style.single_quoted
    then elim (quoted_end (if style.double_quoted then b'"' else b'\'') (suc start)
        (drop (suc start) input)) [ none ↦ err "unterminated quoted scalar" | some end ↦ ok end ]
    else ok (plain_end start (drop start input))
