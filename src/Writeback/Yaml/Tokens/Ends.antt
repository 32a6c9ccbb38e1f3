-- ===== src/Writeback/Yaml/Tokens/Ends.antt =====
-- The bytes at which the loops over a scalar stop.
use argocd_tag_updater.Base.{
  ℕ, zero, suc, ◌+◌, ◌≤◌, ◌<◌, ◌≡◌, some, Option, List, [], ◌∷◌, arith, length, drop, get_elem?,
  ◌⊎◌, inl, inr, refl, ap, ◌∙◌, true, false, eqb, eqb_iff, Bool-cases,
}
use argocd_tag_updater.Writeback.Yaml.Bytes.{is_blank_byte, is_line_end}
use argocd_tag_updater.Writeback.Yaml.Tokens.{quoted_end, plain_length, trim_blanks}

-- The byte behind `skipped` bytes.
pub get_elem?-drop :
    (skipped : ℕ) (xs : List ℕ) (k : ℕ) → get_elem? (drop skipped xs) k ≡ get_elem? xs (skipped + k)
get_elem?-drop zero xs k = ap (get_elem? xs) (omega arith)
get_elem?-drop (suc n) [] k = refl
get_elem?-drop (suc n) (x ∷ xs) k =
    let shifted : suc (n + k) ≡ suc n + k = omega arith in
    get_elem?-drop n xs k ∙ ap (get_elem? (x ∷ xs)) shifted

-- The quote stands in front of the end, where `rest` begins at the byte `i`.
pub record Closes (quote i : ℕ) (rest : List ℕ) (end : ℕ) : Type 0 where
  pub last : ℕ
  pub ends : end ≡ suc (i + last)
  pub closed : get_elem? rest last ≡ some quote

Closes-here :
    (quote i b : ℕ) (rest : List ℕ) → eqb b quote ≡ true → Closes quote i (b ∷ rest) (suc i)
Closes-here quote i b rest e = record {
  last = 0;
  ends = omega arith;
  closed = ap some ((eqb_iff b quote).0 e);
}

Closes-later :
    (quote i b : ℕ) (rest : List ℕ) (end : ℕ)
    → Closes quote (i + 1) rest end
    → Closes quote i (b ∷ rest) end
Closes-later quote i b rest end c = record {
  last = suc c.last;
  ends = omega (arith, c.ends);
  closed = c.closed;
}

Closes-after :
    (quote i b c : ℕ) (rest : List ℕ) (end : ℕ)
    → Closes quote (i + 2) rest end
    → Closes quote i (b ∷ c ∷ rest) end
Closes-after quote i b c rest end h = record {
  last = suc (suc h.last);
  ends = omega (arith, h.ends);
  closed = h.closed;
}

pub quoted_end-Closes :
    (quote i : ℕ) (rest : List ℕ) (end : ℕ)
    → quoted_end quote i rest ≡ some end
    → Closes quote i rest end
unfolding quoted_end
quoted_end-Closes quote i [] end h = cc
quoted_end-Closes quote i (b ∷ []) end h = ground (arith, Closes-here quote i b [])
quoted_end-Closes quote i (b ∷ c ∷ rest) end h = ground (
  arith,
  Closes-here quote i b (c ∷ rest),
  λ (h : quoted_end quote (i + 1) (c ∷ rest) ≡ some end).
      Closes-later quote i b (c ∷ rest) end (quoted_end-Closes quote (i + 1) (c ∷ rest) end h),
  λ (h : quoted_end quote (i + 2) rest ≡ some end).
      Closes-after quote i b c rest end (quoted_end-Closes quote (i + 2) rest end h),
)

-- A byte that ends no line.
pub record IsInLine (xs : List ℕ) (i : ℕ) : Type 0 where
  pub byte : ℕ
  pub at : get_elem? xs i ≡ some byte
  pub inside : is_line_end byte ≡ false

pub plain_length-IsInLine :
    (before : Option ℕ) (token : List ℕ) (i : ℕ) → i < plain_length before token → IsInLine token i
unfolding plain_length
plain_length-IsInLine before [] i h = absurd (omega (arith, h))
plain_length-IsInLine before (b ∷ rest) zero h = elim (Bool-cases (is_line_end b)) [
  | inl e ↦ ground arith
  | inr e ↦ record { byte = b; at = refl; inside = e }
]
plain_length-IsInLine before (b ∷ rest) (suc i) h =
    let later = plain_length-IsInLine (some b) rest i (ground arith) in
    record { byte = later.byte; at = later.at; inside = later.inside }

-- No blank stands at the end.
pub record IsTrimmed (xs : List ℕ) (end : ℕ) : Type 0 where
  pub last : ℕ
  pub byte : ℕ
  pub ends : end ≡ suc last
  pub at : get_elem? xs last ≡ some byte
  pub text : is_blank_byte byte ≡ false

get_elem?-lt : (xs : List ℕ) (i : ℕ) → i < length xs → (b : ℕ) × (get_elem? xs i ≡ some b)
get_elem?-lt [] i h = absurd (omega (arith, h))
get_elem?-lt (x ∷ xs) zero h = (x, refl)
get_elem?-lt (x ∷ xs) (suc i) h = get_elem?-lt xs i (omega (arith, h))

pub trim_blanks-IsTrimmed :
    (token : List ℕ) (n : ℕ)
    → n ≤ length token
    → (trim_blanks token n ≡ 0) ⊎ IsTrimmed token (trim_blanks token n)
unfolding trim_blanks
trim_blanks-IsTrimmed token zero h = inl refl
trim_blanks-IsTrimmed token (suc n) h =
    let (b, e) = get_elem?-lt token n (omega (arith, h)) in
    elim (Bool-cases (is_blank_byte b)) [
      | inl blank ↦ rw (trim_blanks, e, blank) (trim_blanks-IsTrimmed token n (omega (arith, h)))
      | inr text ↦
          rw (trim_blanks, e, text)
            (inr (record { last = n; byte = b; ends = refl; at = e; text = text }))
    ]
