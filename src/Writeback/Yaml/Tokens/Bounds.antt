-- ===== src/Writeback/Yaml/Tokens/Bounds.antt =====
-- How far the token of a scalar reaches.
use argocd_tag_updater.Base.{
  ℕ, zero, suc, ◌+◌, ◌-◌, ◌≤◌, ◌<◌, ◌≡◌, none, some, Option, List, [], ◌∷◌, ok, arith,
  if◌then◌else◌, length, drop, get_elem?, ◌⊎◌, inl, inr, ap, sym, ◌∙◌, true, false, Bool-cases,
  ◌||◌, Bool,
}
use argocd_tag_updater.Writeback.Yaml.Bytes.{is_blank_byte, is_line_end}
use argocd_tag_updater.Writeback.Yaml.Nodes.{Style}
use argocd_tag_updater.Writeback.Yaml.Tokens.Ends.{
  get_elem?-drop, quoted_end-Closes, plain_length-IsInLine, trim_blanks-IsTrimmed,
}
use argocd_tag_updater.Writeback.Yaml.Tokens.{
  quoted_end, plain_length, trim_blanks, plain_end, scalar_token_end,
}

quoted_end_bounds :
    (quote i : ℕ) (rest : List ℕ) (end : ℕ)
    → quoted_end quote i rest ≡ some end
    → (i < end) × (end ≤ i + length rest)
unfolding quoted_end
quoted_end_bounds quote i [] end h = cc
quoted_end_bounds quote i (b ∷ []) end h = ground arith
quoted_end_bounds quote i (b ∷ c ∷ rest) end h = ground (
  arith,
  quoted_end_bounds quote (i + 1) (c ∷ rest) end,
  quoted_end_bounds quote (i + 2) rest end,
)

plain_length-le : (before : Option ℕ) (token : List ℕ) → plain_length before token ≤ length token
unfolding plain_length
plain_length-le before [] = omega arith
plain_length-le before (b ∷ rest) = ground (arith, plain_length-le (some b) rest)

trim_blanks-le : (token : List ℕ) (n : ℕ) → trim_blanks token n ≤ n
unfolding trim_blanks
trim_blanks-le token zero = omega arith
trim_blanks-le token (suc n) = ground (arith, trim_blanks-le token n)

length-drop : (n : ℕ) (xs : List ℕ) → length (drop n xs) ≡ length xs - n
length-drop zero xs = omega arith
length-drop (suc n) [] = omega arith
length-drop (suc n) (x ∷ xs) = omega (arith, length-drop n xs)

inside_manifest :
    (input : List ℕ) (start end : ℕ) (style : Style)
    → scalar_token_end input start style ≡ ok end
    → (start < length input) × (end ≤ length input)
unfolding scalar_token_end plain_end
inside_manifest input start end style h = ground (
  arith,
  length-drop start input,
  length-drop (suc start) input,
  quoted_end_bounds (if style.double_quoted then b'"' else b'\'') (suc start)
      (drop (suc start) input) end,
  trim_blanks-le (drop start input) (plain_length none (drop start input)),
  plain_length-le none (drop start input),
)

abbrev pub is_quoted : Style → Bool
is_quoted style = style.double_quoted || style.single_quoted

abbrev pub quote_of : Style → ℕ
quote_of style = if style.double_quoted then b'"' else b'\''

-- A quoted token: the end is behind a closing quote, and this is not the first byte.
pub record IsQuotedToken (input : List ℕ) (start end : ℕ) (style : Style) : Type 0 where
  pub quoted : is_quoted style ≡ true
  pub last : ℕ
  pub ends : end ≡ suc last
  pub apart : start < last
  pub closed : get_elem? input last ≡ some (quote_of style)

-- A plain token: it is on one line, and it is empty or ends with no blank.
pub record IsPlainToken (input : List ℕ) (start end : ℕ) (style : Style) : Type 0 where
  pub plain : is_quoted style ≡ false
  pub ordered : start ≤ end
  pub on_line :
      (i : ℕ)
      → start ≤ i
      → i < end
      → (b : ℕ) × (get_elem? input i ≡ some b) × (is_line_end b ≡ false)
  pub trimmed :
      (end ≡ start)
      ⊎ ((last : ℕ) × (b : ℕ) × (end ≡ suc last)
          × (start ≤ last)
          × (get_elem? input last ≡ some b)
          × (is_blank_byte b ≡ false))

module _ (input : List ℕ) (start end : ℕ) (style : Style) where
  found_quoted :
      scalar_token_end input start style ≡ ok end
      → is_quoted style ≡ true
      → (start < length input)
        × (quoted_end (quote_of style) (suc start) (drop (suc start) input) ≡ some end)
  unfolding scalar_token_end
  found_quoted h q = ground arith

  found_plain :
      scalar_token_end input start style ≡ ok end
      → is_quoted style ≡ false
      → (start < length input) × (end ≡ plain_end start (drop start input))
  unfolding scalar_token_end
  found_plain h q = ground arith

  quoted_token :
      is_quoted style ≡ true
      → quoted_end (quote_of style) (suc start) (drop (suc start) input) ≡ some end
      → IsQuotedToken input start end style
  quoted_token q h =
      let c = quoted_end-Closes (quote_of style) (suc start) (drop (suc start) input) end h in
      record {
        quoted = q;
        last = suc start + c.last;
        ends = c.ends;
        apart = omega arith;
        closed = sym (get_elem?-drop (suc start) input c.last) ∙ c.closed;
      }

  plain_token :
      is_quoted style ≡ false
      → end ≡ plain_end start (drop start input)
      → IsPlainToken input start end style
  unfolding plain_end
  plain_token q h =
      let token = drop start input in
      let longest = plain_length none token in
      let trim = trim_blanks-le token longest in
      record {
        plain = q;
        ordered = omega (arith, h);
        on_line = λ i from to.
            let there =
              plain_length-IsInLine none token (i - start) (omega (arith, h, from, to, trim)) in
            let back : start + (i - start) ≡ i = omega (arith, from) in
            (
              there.byte,
              ap (get_elem? input) (sym back)
                  ∙ sym (get_elem?-drop start input (i - start))
                  ∙ there.at,
              there.inside,
            );
        trimmed = elim (trim_blanks-IsTrimmed token longest (plain_length-le none token)) [
          | inl empty ↦ inl (omega (arith, h, empty))
          | inr t ↦ inr (
            start + t.last,
            t.byte,
            omega (arith, h, t.ends),
            omega arith,
            sym (get_elem?-drop start input t.last) ∙ t.at,
            t.text,
          )
        ];
      }

-- The token of a scalar begins and ends inside the manifest. The token of a quoted scalar ends behind a
-- quote of its style, which is not the byte that it begins with; the token of a plain scalar holds no
-- line end, and it is empty or its last byte is no blank.
pub scalar_token_end_bounds :
    (input : List ℕ) (start end : ℕ) (style : Style)
    → scalar_token_end input start style ≡ ok end
    → (start < length input)
      × (end ≤ length input)
      × (IsQuotedToken input start end style ⊎ IsPlainToken input start end style)
scalar_token_end_bounds input start end style h =
    let (first, inside) = inside_manifest input start end style h in
    (
      first,
      inside,
      elim (Bool-cases (is_quoted style)) [
        | inl q ↦
            inl (quoted_token input start end style q (found_quoted input start end style h q).1)
        | inr q ↦
            inr (plain_token input start end style q (found_plain input start end style h q).1)
      ],
    )
