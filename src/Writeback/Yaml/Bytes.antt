-- ===== src/Writeback/Yaml/Bytes.antt =====
-- What internal/writeback/yaml.go uses of bytes: a manifest is a list of numbers below 256.
use Prim.Native.Char.{code}
use argocd_tag_updater.Base.{
  ℕ, suc, ◌+◌, ◌/◌, ◌%◌, String, Bool, true, false, ◌&&◌, ◌||◌, List, [], ◌∷◌, ◌++◌, ltb, leb, eqb,
  if◌then◌else◌,
}

-- One character in UTF-8.
unfoldable pub encode_rune : ℕ → List ℕ
encode_rune c =
    if ltb c 0x80
    then c ∷ []
    else if ltb c 0x800
    then (0xc0 + c / 64) ∷ (0x80 + c % 64) ∷ []
    else if ltb c 0x10000
    then (0xe0 + c / 4096) ∷ (0x80 + c / 64 % 64) ∷ (0x80 + c % 64) ∷ []
    else (0xf0 + c / 262144) ∷ (0x80 + c / 4096 % 64) ∷ (0x80 + c / 64 % 64) ∷ (0x80 + c % 64) ∷ []

-- `[]byte(s)`
unfoldable pub bytes : String → List ℕ
unfolding encode_rune
bytes String.[] = []
bytes (String.◌∷◌ c s) = encode_rune (code c) ++ bytes s

-- `bytes.Equal`
unfoldable pub equal_bytes : List ℕ → List ℕ → Bool
equal_bytes [] [] = true
equal_bytes [] (c ∷ t) = false
equal_bytes (b ∷ s) [] = false
equal_bytes (b ∷ s) (c ∷ t) = eqb b c && equal_bytes s t

unfoldable pub is_blank_byte : ℕ → Bool
is_blank_byte b = eqb b b' ' || eqb b 9

unfoldable pub is_line_end : ℕ → Bool
is_line_end b = eqb b 10 || eqb b 13

-- `strings.TrimRight(text, "\r\n")`
unfoldable pub trim_line_end : List ℕ → List ℕ
unfolding is_line_end
trim_line_end [] = []
trim_line_end (b ∷ text) =
    let rest = trim_line_end text in
    elim rest [ [] ↦ if is_line_end b then [] else b ∷ [] | c ∷ more ↦ b ∷ c ∷ more ]

-- `len(text) - len(strings.TrimLeft(text, " "))`
unfoldable pub leading_spaces : List ℕ → ℕ
leading_spaces [] = 0
leading_spaces (b ∷ text) = let rest = leading_spaces text in if eqb b b' ' then suc rest else 0

-- `unicode.IsSpace` of a character of two bytes, and of one of three.
unfoldable pub is_space_pair : ℕ → ℕ → Bool
is_space_pair b c = eqb b 0xc2 && (eqb c 0x85 || eqb c 0xa0)

unfoldable pub is_space_triple : ℕ → ℕ → ℕ → Bool
is_space_triple b c d =
    eqb b 0xe1 && eqb c 0x9a && eqb d 0x80
    || eqb b 0xe2
      && eqb c 0x80
      && (leb 0x80 d && leb d 0x8a || eqb d 0xa8 || eqb d 0xa9 || eqb d 0xaf)
    || eqb b 0xe2 && eqb c 0x81 && eqb d 0x9f
    || eqb b 0xe3 && eqb c 0x80 && eqb d 0x80

unfoldable pub is_space_byte : ℕ → Bool
is_space_byte b = eqb b 32 || leb 9 b && leb b 13

-- What `strings.TrimSpace` leaves of the left end: it is empty or begins with another character than
-- white space, so that what is cut at the right end does not change its first character.
unfoldable pub trim_space_left : List ℕ → List ℕ
unfolding is_space_pair is_space_triple is_space_byte
trim_space_left [] = []
trim_space_left (b ∷ []) = if is_space_byte b then [] else b ∷ []
trim_space_left (b ∷ c ∷ []) =
    let rest = trim_space_left (c ∷ []) in
    if is_space_byte b then rest else if is_space_pair b c then [] else b ∷ c ∷ []
trim_space_left (b ∷ c ∷ d ∷ text) =
    let one = trim_space_left (c ∷ d ∷ text) in
    let two = trim_space_left (d ∷ text) in
    let three = trim_space_left text in
    if is_space_byte b
    then one
    else if is_space_pair b c
    then two
    else if is_space_triple b c d
    then three
    else b ∷ c ∷ d ∷ text

-- `trimmed == "" || strings.HasPrefix(trimmed, "#")`
unfoldable pub is_blank_or_comment : List ℕ → Bool
unfolding trim_space_left
is_blank_or_comment text = elim (trim_space_left text) [ [] ↦ true | b ∷ rest ↦ eqb b b'#' ]
