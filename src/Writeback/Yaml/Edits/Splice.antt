-- ===== src/Writeback/Yaml/Edits/Splice.antt =====
-- What the edits make of the bytes: the manifest with each span replaced at once.
use mathlib.Core.List.{reverse, reverse-cons, append_assoc}
use mathlib.Core.Path.{◌≡⟨◌⟩◌, ◌∎}
use argocd_tag_updater.Base.{
  ℕ, ◌-◌, ◌≤◌, ◌≡◌, ◌≢◌, ◌↔◌, ◌∙◌, sym, ap, List, [], ◌∷◌, ◌++◌, Result, ok, err, arith, length,
  take, drop, All, Member, Member-reverse, All-append, All-reverse, All-map, length-append,
}
use argocd_tag_updater.Writeback.Yaml.{Failure}
use argocd_tag_updater.Writeback.Yaml.Edits.{ScalarEdit, replace, replace_all, sort_edits}
use argocd_tag_updater.Writeback.Yaml.Edits.Order.{
  IsDescending, IsDistinct, sort_edits_sorts, sort_edits-IsDistinct, descending_unique,
}
use argocd_tag_updater.Writeback.Yaml.Edits.Slices.{
  take-append-drop, take-take, drop-take, take_split, drop-drop, length-take,
}

-- The bytes `rest` from the byte `pos` on, with the edits in them from left to right. What lies between
-- two edits is kept as it is.
unfoldable pub splice : ℕ → List ScalarEdit → List ℕ → List ℕ
splice pos [] rest = rest
splice pos (edit ∷ edits) rest =
    take (edit.start - pos) rest ++ edit.value ++ splice edit.end edits (drop (edit.end - pos) rest)

-- From left to right, behind `pos`, apart from one another, and inside a manifest of that size.
abbrev pub IsApart : ℕ → List ScalarEdit → ℕ → Type 0
IsApart pos [] size = pos ≤ size
IsApart pos (edit ∷ edits) size =
    (pos ≤ edit.start) × (edit.start ≤ edit.end) × IsApart edit.end edits size

IsApart-le : (pos : ℕ) (edits : List ScalarEdit) (size : ℕ) → IsApart pos edits size → pos ≤ size
IsApart-le pos [] size h = h
IsApart-le pos (edit ∷ edits) size h = omega (arith, IsApart-le edit.end edits size h.2)

replace_all-append :
    (xs ys : List ScalarEdit) (out out' : List ℕ)
    → replace_all xs out ≡ ok out'
    → replace_all (xs ++ ys) out ≡ replace_all ys out'
unfolding replace_all
replace_all-append [] ys out out' h = ap (replace_all ys) (cc h)
replace_all-append (x ∷ xs) ys out out' h =
    go (λ mid. replace_all-append xs ys mid out') (replace x out) h
  where
    go :
        ((mid : List ℕ)
          → replace_all xs mid ≡ ok out'
          → replace_all (xs ++ ys) mid ≡ replace_all ys out')
        → (r : Result Failure (List ℕ))
        → elim r as (λ _. Result Failure (List ℕ)) [ err e ↦ err e | ok mid ↦ replace_all xs mid ]
          ≡ ok out'
        → elim r as (λ _. Result Failure (List ℕ)) [
          | err e ↦ err e
          | ok mid ↦ replace_all (xs ++ ys) mid
        ]
          ≡ replace_all ys out'
    go further (ok mid) e = further mid e
    go further (err f) e = cc

replace_inside :
    (edit : ScalarEdit) (input tail : List ℕ)
    → edit.start ≤ edit.end
    → edit.end ≤ length input
    → replace edit (take edit.end input ++ tail) ≡ ok (take edit.start input ++ edit.value ++ tail)
unfolding replace
replace_inside edit input tail h k =
    rw (take-take edit.start edit.end input tail h k, drop-take edit.end input tail k)
      (ground (arith, length-append (take edit.end input) tail, length-take edit.end input))

replace_all-singleton :
    (edit : ScalarEdit) (out : List ℕ) {out' : List ℕ}
    → replace edit out ≡ ok out'
    → replace_all (edit ∷ []) out ≡ ok out'
unfolding replace_all
replace_all-singleton edit out {out'} h = rw (replace_all, h)

-- The front part of the manifest in its two pieces.
regroup :
    (pos : ℕ) (edit : ScalarEdit) (edits : List ScalarEdit) (input : List ℕ)
    → pos ≤ edit.start
    → edit.start ≤ edit.end
    → take edit.start input ++ edit.value ++ splice edit.end edits (drop edit.end input)
      ≡ take pos input ++ splice pos (edit ∷ edits) (drop pos input)
unfolding splice
regroup pos edit edits input h k =
    let tail = splice edit.end edits (drop edit.end input) in
    let front = take pos input in
    let gap = take (edit.start - pos) (drop pos input) in
    take edit.start input ++ edit.value ++ tail
    ≡⟨ ap (λ (l : List ℕ). l ++ edit.value ++ tail) (sym (take_split pos edit.start input h)) ⟩
      ((front ++ gap) ++ edit.value) ++ tail
    ≡⟨ (simp append_assoc) ⟩ front ++ ((gap ++ edit.value) ++ tail)
    ≡⟨ ap (λ (l : List ℕ). front ++ ((gap ++ edit.value) ++ splice edit.end edits l))
        (sym (drop-drop pos edit.end input (omega arith))) ⟩
      front ++ splice pos (edit ∷ edits) (drop pos input) ∎

below :
    (pos : ℕ) (edits : List ScalarEdit) (input : List ℕ)
    → IsApart pos edits (length input)
    → replace_all (reverse edits) input ≡ ok (take pos input ++ splice pos edits (drop pos input))
unfolding splice replace_all
below pos [] input h = ap (λ (l : List ℕ). ok l) (sym (take-append-drop pos input))
below pos (edit ∷ edits) input h =
    let tail = splice edit.end edits (drop edit.end input) in
    rw reverse-cons (
      replace_all-append (reverse edits) (edit ∷ []) input (take edit.end input ++ tail)
        (below edit.end edits input h.2)
      ∙ replace_all-singleton edit (take edit.end input ++ tail)
          (replace_inside edit input tail h.1 (IsApart-le edit.end edits (length input) h.2))
      ∙ ap (λ (l : List ℕ). ok l) (regroup pos edit edits input h.0 h.1))

IsDescending-snoc :
    (edits : List ScalarEdit) (edit : ScalarEdit)
    → IsDescending edits
    → All (λ y. edit.start ≤ y.start) edits
    → IsDescending (edits ++ edit ∷ [])
IsDescending-snoc [] edit h k = (tt, tt)
IsDescending-snoc (x ∷ edits) edit h k = (
  All-append (λ y. y.start ≤ x.start) edits (edit ∷ []) h.0 (k.0, tt),
  IsDescending-snoc edits edit h.1 k.1,
)

IsDistinct-snoc :
    (edits : List ScalarEdit) (edit : ScalarEdit)
    → IsDistinct edits
    → All (λ y. edit.start ≢ y.start) edits
    → IsDistinct (edits ++ edit ∷ [])
IsDistinct-snoc [] edit h k = (tt, tt)
IsDistinct-snoc (x ∷ edits) edit h k = (
  All-append (λ y. x.start ≢ y.start) edits (edit ∷ []) h.0 ((λ e. k.0 (sym e)), tt),
  IsDistinct-snoc edits edit h.1 k.1,
)

IsApart-All :
    (pos : ℕ) (edits : List ScalarEdit) (size : ℕ)
    → IsApart pos edits size
    → All (λ y. pos ≤ y.start) edits
IsApart-All pos [] size h = tt
IsApart-All pos (edit ∷ edits) size h = (
  h.0,
  All-map (λ y. edit.end ≤ y.start) (λ y. pos ≤ y.start) edits (λ y k. omega arith)
      (IsApart-All edit.end edits size h.2),
)

reverse-IsDescending :
    (pos : ℕ) (edits : List ScalarEdit) (size : ℕ)
    → IsApart pos edits size
    → IsDescending (reverse edits)
reverse-IsDescending pos [] size h = tt
reverse-IsDescending pos (edit ∷ edits) size h = rw reverse-cons (
    IsDescending-snoc (reverse edits) edit (reverse-IsDescending edit.end edits size h.2) (
      All-reverse (λ y. edit.start ≤ y.start) edits
        (IsApart-All edit.start edits size (lower edits h.2))))
  where
    lower : (rest : List ScalarEdit) → IsApart edit.end rest size → IsApart edit.start rest size
    lower [] k = omega arith
    lower (next ∷ rest) k = (omega arith, k.1, k.2)

reverse-IsDistinct : (edits : List ScalarEdit) → IsDistinct edits → IsDistinct (reverse edits)
reverse-IsDistinct [] h = tt
reverse-IsDistinct (edit ∷ edits) h = rw reverse-cons (
    IsDistinct-snoc (reverse edits) edit (reverse-IsDistinct edits h.1)
      (All-reverse (λ y. edit.start ≢ y.start) edits h.0))

-- Let `edits` lie apart from left to right inside the manifest, no two of them beginning at the same
-- byte, and let `collected` be the same edits in any order, each once. Then sorting and making the
-- collected edits one after another does not fail, and it replaces each span at once and keeps every
-- other byte.
pub replace_all-eq-splice :
    (edits collected : List ScalarEdit) (input : List ℕ)
    → IsApart 0 edits (length input)
    → IsDistinct edits
    → IsDistinct collected
    → ((a : ScalarEdit) → Member a collected ↔ Member a edits)
    → replace_all (sort_edits collected) input ≡ ok (splice 0 edits input)
replace_all-eq-splice edits collected input apart d d' same =
    ap (λ (l : List ScalarEdit). replace_all l input)
      (descending_unique (sort_edits collected) (reverse edits) (sort_edits_sorts collected).0
        (reverse-IsDescending 0 edits (length input) apart) (sort_edits-IsDistinct collected d')
        (reverse-IsDistinct edits d)
        (λ a. (
          (λ m. (Member-reverse edits a).0 ((same a).0 (((sort_edits_sorts collected).1 a).1 m))),
          (λ m. ((sort_edits_sorts collected).1 a).0 ((same a).1 ((Member-reverse edits a).1 m))),
        )))
    ∙ below 0 edits input apart
