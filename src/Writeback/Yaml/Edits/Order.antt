-- ===== src/Writeback/Yaml/Edits/Order.antt =====
-- The order in which the edits are made, and that the order of Go's maps does not matter.
use argocd_tag_updater.Base.{
  ℕ, zero, suc, ◌≤◌, ◌≡◌, ◌≢◌, ◌↔◌, ◌∙◌, inl, inr, refl, sym, ap, List, [], ◌∷◌, arith, length, ltb,
  All, Member, All-Member, Bool-cases,
}
use argocd_tag_updater.Writeback.Yaml.Edits.{ScalarEdit, exchange, exchange_sort, sort_edits}

-- From the right to the left.
abbrev pub IsDescending : List ScalarEdit → Type 0
IsDescending [] = Unit
IsDescending (x ∷ xs) = All (λ y. y.start ≤ x.start) xs × IsDescending xs

-- No two edits begin at the same byte.
abbrev pub IsDistinct : List ScalarEdit → Type 0
IsDistinct [] = Unit
IsDistinct (x ∷ xs) = All (λ y. x.start ≢ y.start) xs × IsDistinct xs

exchange-All :
    (P : ScalarEdit → Type 0) (x : ScalarEdit) (xs : List ScalarEdit)
    → P x
    → All P xs
    → P (exchange x xs).0 × All P (exchange x xs).1
unfolding exchange
exchange-All P x [] h hs = (h, tt)
exchange-All P x (y ∷ ys) h hs = elim (Bool-cases (ltb x.start y.start)) [
  | inl less ↦ rw less (let (e, es) = exchange-All P y ys hs.0 hs.1 in (e, (h, es)))
  | inr more ↦ rw more (let (e, es) = exchange-All P x ys h hs.1 in (e, (hs.0, es)))
]

exchange_greatest :
    (x : ScalarEdit) (xs : List ScalarEdit)
    → (x.start ≤ (exchange x xs).0.start)
      × All (λ y. y.start ≤ (exchange x xs).0.start) (exchange x xs).1
unfolding exchange
exchange_greatest x [] = (omega arith, tt)
exchange_greatest x (y ∷ ys) = elim (Bool-cases (ltb x.start y.start)) [
  | inl less ↦ rw less (let (e, es) = exchange_greatest y ys in (ground arith, (ground arith, es)))
  | inr more ↦ rw more (let (e, es) = exchange_greatest x ys in (e, (ground arith, es)))
]

length-exchange : (x : ScalarEdit) (xs : List ScalarEdit) → length (exchange x xs).1 ≡ length xs
unfolding exchange
length-exchange x [] = refl
length-exchange x (y ∷ ys) = ground (arith, length-exchange x ys, length-exchange y ys)

exchange_sort-All :
    (P : ScalarEdit → Type 0) (n : ℕ) (xs : List ScalarEdit) → All P xs → All P (exchange_sort n xs)
unfolding exchange_sort
exchange_sort-All P zero xs h = h
exchange_sort-All P (suc n) [] h = tt
exchange_sort-All P (suc n) (x ∷ xs) h =
    let (e, es) = exchange-All P x xs h.0 h.1 in (e, exchange_sort-All P n (exchange x xs).1 es)

exchange_sort-IsDescending :
    (n : ℕ) (xs : List ScalarEdit) → length xs ≤ n → IsDescending (exchange_sort n xs)
unfolding exchange_sort
exchange_sort-IsDescending zero [] h = tt
exchange_sort-IsDescending zero (x ∷ xs) h = absurd (omega arith)
exchange_sort-IsDescending (suc n) [] h = tt
exchange_sort-IsDescending (suc n) (x ∷ xs) h = (
  exchange_sort-All (λ y. y.start ≤ (exchange x xs).0.start) n (exchange x xs).1
      (exchange_greatest x xs).1,
  exchange_sort-IsDescending n (exchange x xs).1 (omega (arith, length-exchange x xs)),
)

exchange-IsDistinct :
    (x : ScalarEdit) (xs : List ScalarEdit)
    → IsDistinct (x ∷ xs)
    → IsDistinct ((exchange x xs).0 ∷ (exchange x xs).1)
unfolding exchange
exchange-IsDistinct x [] h = h
exchange-IsDistinct x (y ∷ ys) h = elim (Bool-cases (ltb x.start y.start)) [
  | inl less ↦
      let (e, es) = exchange-All (λ z. x.start ≢ z.start) y ys h.0.0 h.0.1 in
      let (d, ds) = exchange-IsDistinct y ys h.1 in rw less (((λ c. e (sym c)), d), (es, ds))
  | inr more ↦
      let (e, es) = exchange-All (λ z. y.start ≢ z.start) x ys (λ c. h.0.0 (sym c)) h.1.0 in
      let (d, ds) = exchange-IsDistinct x ys (h.0.1, h.1.1) in
      rw more (((λ c. e (sym c)), d), (es, ds))
]

exchange_sort-IsDistinct :
    (n : ℕ) (xs : List ScalarEdit) → IsDistinct xs → IsDistinct (exchange_sort n xs)
unfolding exchange_sort
exchange_sort-IsDistinct zero xs h = h
exchange_sort-IsDistinct (suc n) [] h = tt
exchange_sort-IsDistinct (suc n) (x ∷ xs) h =
    let (d, ds) = exchange-IsDistinct x xs h in
    (
      exchange_sort-All (λ y. (exchange x xs).0.start ≢ y.start) n (exchange x xs).1 d,
      exchange_sort-IsDistinct n (exchange x xs).1 ds,
    )

Member-exchange :
    (a x : ScalarEdit) (xs : List ScalarEdit)
    → Member a (x ∷ xs) ↔ Member a ((exchange x xs).0 ∷ (exchange x xs).1)
unfolding exchange
Member-exchange a x [] = (λ m. m, λ m. m)
Member-exchange a x (y ∷ ys) = elim (Bool-cases (ltb x.start y.start)) [
  | inl less ↦ rw less (ground (arith, Member-exchange a y ys))
  | inr more ↦ rw more (ground (arith, Member-exchange a x ys))
]

Member-exchange_sort :
    (a : ScalarEdit) (n : ℕ) (xs : List ScalarEdit) → Member a xs ↔ Member a (exchange_sort n xs)
unfolding exchange_sort
Member-exchange_sort a zero xs = (λ m. m, λ m. m)
Member-exchange_sort a (suc n) [] = (λ m. m, λ m. m)
Member-exchange_sort a (suc n) (x ∷ xs) =
    ground (arith, Member-exchange a x xs, Member-exchange_sort a n (exchange x xs).1)

-- Two descending lists of the same edits, of which no two begin at one byte, are equal.
pub descending_unique :
    (xs ys : List ScalarEdit)
    → IsDescending xs
    → IsDescending ys
    → IsDistinct xs
    → IsDistinct ys
    → ((a : ScalarEdit) → Member a xs ↔ Member a ys)
    → xs ≡ ys
descending_unique [] [] hx hy dx dy same = refl
descending_unique [] (y ∷ ys) hx hy dx dy same = absurd ((same y).1 (inl refl))
descending_unique (x ∷ xs) [] hx hy dx dy same = absurd ((same x).0 (inl refl))
descending_unique (x ∷ xs) (y ∷ ys) hx hy dx dy same =
    cc (first, descending_unique xs ys hx.1 hy.1 dx.1 dy.1 rest)
  where
    first : x ≡ y
    first = elim ((same x).0 (inl refl)) [
      | inl e ↦ sym e
      | inr m ↦ elim ((same y).1 (inl refl)) [
        | inl e ↦ e
        | inr m' ↦ absurd (
            omega (
              arith,
              All-Member (λ z. z.start ≤ y.start) ys hy.0 m,
              All-Member (λ z. z.start ≤ x.start) xs hx.0 m',
              All-Member (λ z. x.start ≢ z.start) xs dx.0 m',
            ))
      ]
    ]

    rest : (a : ScalarEdit) → Member a xs ↔ Member a ys
    rest a = (
      (λ m. elim ((same a).0 (inr m)) [
        | inr m' ↦ m'
        | inl e ↦ absurd (
            All-Member (λ z. x.start ≢ z.start) xs dx.0 m
              (ap (λ (z : ScalarEdit). z.start) (first ∙ e)))
      ]),
      (λ m. elim ((same a).1 (inr m)) [
        | inr m' ↦ m'
        | inl e ↦ absurd (
            All-Member (λ z. y.start ≢ z.start) ys dy.0 m
              (ap (λ (z : ScalarEdit). z.start) (sym first ∙ e)))
      ]),
    )

-- The edits are made from the right to the left, all of those given and no other.
pub sort_edits_sorts :
    (edits : List ScalarEdit)
    → IsDescending (sort_edits edits)
      × ((a : ScalarEdit) → Member a edits ↔ Member a (sort_edits edits))
unfolding sort_edits
sort_edits_sorts edits = (
  exchange_sort-IsDescending (length edits) edits (omega arith),
  λ a. Member-exchange_sort a (length edits) edits,
)

pub sort_edits-IsDistinct :
    (edits : List ScalarEdit) → IsDistinct edits → IsDistinct (sort_edits edits)
unfolding sort_edits
sort_edits-IsDistinct edits d = exchange_sort-IsDistinct (length edits) edits d

-- Edits of which no two begin at the same byte are made in the same order, in whatever order they were
-- collected from the maps.
pub sort_edits_unordered :
    (edits edits' : List ScalarEdit)
    → IsDistinct edits
    → IsDistinct edits'
    → ((a : ScalarEdit) → Member a edits ↔ Member a edits')
    → sort_edits edits ≡ sort_edits edits'
sort_edits_unordered edits edits' d d' same =
    descending_unique (sort_edits edits) (sort_edits edits') (sort_edits_sorts edits).0
      (sort_edits_sorts edits').0 (sort_edits-IsDistinct edits d) (sort_edits-IsDistinct edits' d')
      (λ a. (
        (λ m. ((sort_edits_sorts edits').1 a).0 ((same a).0 (((sort_edits_sorts edits).1 a).1 m))),
        (λ m. ((sort_edits_sorts edits).1 a).0 ((same a).1 (((sort_edits_sorts edits').1 a).1 m))),
      ))
