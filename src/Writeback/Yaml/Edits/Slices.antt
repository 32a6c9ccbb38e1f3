-- ===== src/Writeback/Yaml/Edits/Slices.antt =====
-- Parts of a list of bytes.
use argocd_tag_updater.Base.{
  ℕ, zero, suc, ◌-◌, ◌≤◌, ◌≡◌, ◌∙◌, refl, ap, List, [], ◌∷◌, ◌++◌, arith, length, take, drop,
}

pub take-append-drop : (n : ℕ) (xs : List ℕ) → take n xs ++ drop n xs ≡ xs
take-append-drop zero xs = refl
take-append-drop (suc n) [] = refl
take-append-drop (suc n) (x ∷ xs) = ap (λ (l : List ℕ). x ∷ l) (take-append-drop n xs)

pub take-take :
    (s t : ℕ) (xs ys : List ℕ) → s ≤ t → t ≤ length xs → take s (take t xs ++ ys) ≡ take s xs
take-take zero t xs ys h k = refl
take-take (suc s) zero xs ys h k = absurd (omega arith)
take-take (suc s) (suc t) [] ys h k = absurd (omega arith)
take-take (suc s) (suc t) (x ∷ xs) ys h k =
    ap (λ (l : List ℕ). x ∷ l) (take-take s t xs ys (omega arith) (omega arith))

pub drop-take : (t : ℕ) (xs ys : List ℕ) → t ≤ length xs → drop t (take t xs ++ ys) ≡ ys
drop-take zero xs ys k = refl
drop-take (suc t) [] ys k = absurd (omega arith)
drop-take (suc t) (x ∷ xs) ys k = drop-take t xs ys (omega arith)

pub take-nil : (n : ℕ) → take n (let xs : List ℕ = [] in xs) ≡ []
take-nil zero = refl
take-nil (suc n) = refl

pub drop-nil : (n : ℕ) → drop n (let xs : List ℕ = [] in xs) ≡ []
drop-nil zero = refl
drop-nil (suc n) = refl

pub take_split : (s t : ℕ) (xs : List ℕ) → s ≤ t → take s xs ++ take (t - s) (drop s xs) ≡ take t xs
take_split zero t xs h = ap (λ m. take m xs) (omega arith)
take_split (suc s) zero xs h = absurd (omega arith)
take_split (suc s) (suc t) [] h = take-nil (suc t - suc s)
take_split (suc s) (suc t) (x ∷ xs) h =
    ap (λ m. x ∷ (take s xs ++ take m (drop s xs))) (omega arith)
    ∙ ap (λ (l : List ℕ). x ∷ l) (take_split s t xs (omega arith))

pub drop-drop : (s t : ℕ) (xs : List ℕ) → s ≤ t → drop (t - s) (drop s xs) ≡ drop t xs
drop-drop zero t xs h = ap (λ m. drop m xs) (omega arith)
drop-drop (suc s) zero xs h = absurd (omega arith)
drop-drop (suc s) (suc t) [] h = drop-nil (suc t - suc s)
drop-drop (suc s) (suc t) (x ∷ xs) h =
    ap (λ m. drop m (drop s xs)) (omega arith) ∙ drop-drop s t xs (omega arith)

pub length-take : (n : ℕ) (xs : List ℕ) → n ≤ length xs → length (take n xs) ≡ n
length-take zero xs h = refl
length-take (suc n) [] h = absurd (omega arith)
length-take (suc n) (x ∷ xs) h = omega (arith, length-take n xs (omega arith))
