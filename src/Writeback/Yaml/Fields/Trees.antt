-- ===== src/Writeback/Yaml/Fields/Trees.antt =====
-- Trees of YAML nodes, and paths in a tree that grows.
use mathlib.Core.Path.{subst}
use mathlib.Core.List.{append-nil, append_assoc}
use argocd_tag_updater.Base.{
  ℕ, zero, suc, ◌≤◌, ◌<◌, ◌≡◌, ◌∙◌, inl, inr, refl, sym, ap, String, true, none, some, Option, List,
  [], ◌∷◌, ◌++◌, arith, length, get_elem?, All, Bool-cases, ◌==◌, eq_iff,
}
use argocd_tag_updater.Base.Int.{ℤ, pos, negsuc}
use argocd_tag_updater.Base.Numbers.{atoi}
use argocd_tag_updater.Writeback.Yaml.Nodes.{Kind, Heap, at, value_of, map_value, is_mapping}
use argocd_tag_updater.Writeback.Yaml.Fields.{child_at}

-- One segment of a field path, with nothing added to the tree.
unfoldable pub child_of : Heap → ℕ → String → Option ℕ
unfolding at map_value child_at atoi
child_of heap cur segment = elim (at heap cur).kind [
  | Kind.mapping ↦ map_value heap cur segment
  | Kind.sequence ↦ child_at (at heap cur).content (atoi segment)
  | _ ↦ none
]

unfoldable pub walk : Heap → ℕ → List String → Option ℕ
unfolding child_of
walk heap cur [] = some cur
walk heap cur (segment ∷ path) = elim (child_of heap cur segment) [
  | none ↦ none
  | some next ↦ walk heap next path
]

-- Keys and values in pairs.
abbrev pub IsPaired : List ℕ → Type 0
IsPaired [] = Unit
IsPaired (k ∷ []) = ⊥
IsPaired (k ∷ v ∷ rest) = IsPaired rest

-- What the decoder's trees have: pointers lead to nodes, and a mapping has a value for each key.
pub record IsWellFormed (heap : Heap) : Type 0 where
  pub closed : (p : ℕ) → p < length heap → All (λ q. q < length heap) (at heap p).content
  pub paired :
      (p : ℕ) → p < length heap → is_mapping (at heap p).kind ≡ true → IsPaired (at heap p).content

-- A tree that only grew: a node keeps its kind and its text, and children are added behind the others.
pub record Extends (heap heap' : Heap) : Type 0 where
  pub longer : length heap ≤ length heap'
  pub kind : (p : ℕ) → p < length heap → (at heap' p).kind ≡ (at heap p).kind
  pub value : (p : ℕ) → p < length heap → (at heap' p).value ≡ (at heap p).value
  pub content :
      (p : ℕ)
      → p < length heap
      → (more : List ℕ) × ((at heap' p).content ≡ (at heap p).content ++ more)

pub Extends-refl : (heap : Heap) → Extends heap heap
Extends-refl heap = record {
  longer = omega arith;
  kind = λ p h. refl;
  value = λ p h. refl;
  content = λ p h. ([], sym (append-nil (at heap p).content));
}

pub Extends-trans : (a b c : Heap) → Extends a b → Extends b c → Extends a c
Extends-trans a b c f g = record {
  longer = omega (arith, f.longer, g.longer);
  kind = λ p h. g.kind p (omega (arith, f.longer)) ∙ f.kind p h;
  value = λ p h. g.value p (omega (arith, f.longer)) ∙ f.value p h;
  content = λ p h.
      let (more, e) = f.content p h in
      let (more', e') = g.content p (omega (arith, f.longer)) in
      (
        more ++ more',
        e' ∙ ap (λ (l : List ℕ). l ++ more') e ∙ append_assoc (at a p).content more more',
      );
}

value_of-append :
    (heap heap' : Heap) (key : String) (keys more : List ℕ) {v : ℕ}
    → ((p : ℕ) → p < length heap → (at heap' p).value ≡ (at heap p).value)
    → All (λ q. q < length heap) keys
    → value_of heap key keys ≡ some v
    → value_of heap' key (keys ++ more) ≡ some v
unfolding value_of
value_of-append heap heap' key [] more same there h = cc
value_of-append heap heap' key (k ∷ []) more same there h = cc
value_of-append heap heap' key (k ∷ w ∷ rest) more {v} same there h =
    rw (same k there.0)
      (ground (arith, value_of-append heap heap' key rest more {v = v} same there.1.1))

pub value_of_new :
    (heap heap' : Heap) (key : String) (keys : List ℕ) (k v : ℕ)
    → ((p : ℕ) → p < length heap → (at heap' p).value ≡ (at heap p).value)
    → All (λ q. q < length heap) keys
    → IsPaired keys
    → value_of heap key keys ≡ none
    → (at heap' k).value ≡ key
    → value_of heap' key (keys ++ k ∷ v ∷ []) ≡ some v
unfolding value_of
value_of_new heap heap' key [] k v same there pairs h e =
    rw ((eq_iff (at heap' k).value key).1 e) refl
value_of_new heap heap' key (x ∷ []) k v same there pairs h e = absurd pairs
value_of_new heap heap' key (x ∷ w ∷ rest) k v same there pairs h e =
    rw (same x there.0) (ground (arith, value_of_new heap heap' key rest k v same there.1.1 pairs))

value_of-All :
    (P : ℕ → Type 0) (heap : Heap) (key : String) (keys : List ℕ) {v : ℕ}
    → All P keys
    → value_of heap key keys ≡ some v
    → P v
unfolding value_of
value_of-All P heap key [] there h = cc
value_of-All P heap key (k ∷ []) there h = cc
value_of-All P heap key (k ∷ w ∷ rest) {v} there h = elim (Bool-cases ((at heap k).value == key)) [
  | inl found ↦ subst P (ground arith) there.1.0
  | inr other ↦ value_of-All P heap key rest there.1.1 (ground arith)
]

get_elem?-append :
    (xs ys : List ℕ) (i : ℕ) {x : ℕ} → get_elem? xs i ≡ some x → get_elem? (xs ++ ys) i ≡ some x
get_elem?-append [] ys i h = cc
get_elem?-append (y ∷ xs) ys zero h = h
get_elem?-append (y ∷ xs) ys (suc i) h = get_elem?-append xs ys i h

get_elem?-All :
    (P : ℕ → Type 0) (xs : List ℕ) (i : ℕ) {x : ℕ} → All P xs → get_elem? xs i ≡ some x → P x
get_elem?-All P [] i there h = cc
get_elem?-All P (y ∷ xs) zero {x} there h = subst P (cc h) there.0
get_elem?-All P (y ∷ xs) (suc i) there h = get_elem?-All P xs i there.1 h

child_at-append :
    (xs ys : List ℕ) (i : Option ℤ) {x : ℕ}
    → child_at xs i ≡ some x
    → child_at (xs ++ ys) i ≡ some x
unfolding child_at
child_at-append xs ys none h = cc
child_at-append xs ys (some (negsuc i)) h = cc
child_at-append xs ys (some (pos i)) h = get_elem?-append xs ys i h

child_at-All :
    (P : ℕ → Type 0) (xs : List ℕ) (i : Option ℤ) {x : ℕ} → All P xs → child_at xs i ≡ some x → P x
unfolding child_at
child_at-All P xs none there h = cc
child_at-All P xs (some (negsuc i)) there h = cc
child_at-All P xs (some (pos i)) there h = get_elem?-All P xs i there h

-- A child by the kind of the node, for the lemmas on it.
unfoldable pub child_by : Heap → ℕ → String → Kind → Option ℕ
child_by heap cur segment Kind.mapping = value_of heap segment (at heap cur).content
child_by heap cur segment Kind.sequence = child_at (at heap cur).content (atoi segment)
child_by heap cur segment _ = none

pub child_of-eq :
    (heap : Heap) (cur : ℕ) (segment : String)
    → child_of heap cur segment ≡ child_by heap cur segment (at heap cur).kind
unfolding child_of child_by map_value is_mapping
child_of-eq heap cur segment = go (at heap cur).kind refl
  where
    go :
        (k : Kind)
        → (at heap cur).kind ≡ k
        → child_of heap cur segment ≡ child_by heap cur segment k
    go Kind.mapping e = rw (child_of, e) (rw (map_value, e) refl)
    go Kind.sequence e = rw (child_of, e) refl
    go Kind.document e = rw (child_of, e) refl
    go Kind.scalar e = rw (child_of, e) refl
    go Kind.alias e = rw (child_of, e) refl

pub child_by-Extends :
    (heap heap' : Heap) (cur : ℕ) (segment : String) (kind : Kind) {n : ℕ}
    → Extends heap heap'
    → IsWellFormed heap
    → cur < length heap
    → child_by heap cur segment kind ≡ some n
    → child_by heap' cur segment kind ≡ some n
unfolding child_by
child_by-Extends heap heap' cur segment Kind.mapping f w there h =
    let (more, e) = f.content cur there in
    rw e
      (value_of-append heap heap' segment (at heap cur).content more f.value (w.closed cur there) h)
child_by-Extends heap heap' cur segment Kind.sequence f w there h =
    let (more, e) = f.content cur there in
    rw e (child_at-append (at heap cur).content more (atoi segment) h)
child_by-Extends heap heap' cur segment Kind.document f w there h = cc
child_by-Extends heap heap' cur segment Kind.scalar f w there h = cc
child_by-Extends heap heap' cur segment Kind.alias f w there h = cc

pub child_by-lt :
    (heap : Heap) (cur : ℕ) (segment : String) (kind : Kind) {n : ℕ}
    → IsWellFormed heap
    → cur < length heap
    → child_by heap cur segment kind ≡ some n
    → n < length heap
unfolding child_by
child_by-lt heap cur segment Kind.mapping w there h =
    value_of-All (λ q. q < length heap) heap segment (at heap cur).content (w.closed cur there) h
child_by-lt heap cur segment Kind.sequence w there h =
    child_at-All (λ q. q < length heap) (at heap cur).content (atoi segment) (w.closed cur there) h
child_by-lt heap cur segment Kind.document w there h = cc
child_by-lt heap cur segment Kind.scalar w there h = cc
child_by-lt heap cur segment Kind.alias w there h = cc
