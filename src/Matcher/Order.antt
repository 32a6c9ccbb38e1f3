-- ===== src/Matcher/Order.antt =====
-- When the comparison of `Latest` orders the matches: if every match has a build number, or none has.
use Prim.Native.Nat.{Ordering}
use Prim.Native.String.{compare}
use Prim.Native.String.compare as Compare
use text.Mathlib.TextPositions.{compare_refl}
use text.Mathlib.TextEquality.{path_by_compare}
use argocd_tag_updater.Base.{
  ◌≡◌, ◌∙◌, String, true, false, none, some, List, arith, Member, All, All-Member,
}
use argocd_tag_updater.Base.Int.{ℤ, ltb_ℤ}
use argocd_tag_updater.Matcher.{Match, less, text_gt, build_number}
use argocd_tag_updater.Matcher.Sort.{IsStrictWeak}

gt_trans :
    (s t u : String)
    → compare s t ≡ Ordering.gt
    → compare t u ≡ Ordering.gt
    → compare s u ≡ Ordering.gt
gt_trans String.[] String.[] u h k = cc
gt_trans String.[] (String.◌∷◌ d t) u h k = cc (Compare.nil-cons d t)
gt_trans (String.◌∷◌ c s) String.[] String.[] h k = cc
gt_trans (String.◌∷◌ c s) String.[] (String.◌∷◌ e u) h k = cc (Compare.nil-cons e u)
gt_trans (String.◌∷◌ c s) (String.◌∷◌ d t) String.[] h k = Compare.cons-nil c s
gt_trans (String.◌∷◌ c s) (String.◌∷◌ d t) (String.◌∷◌ e u) h k = ground (
  arith,
  Compare.cons-cons c d s t,
  Compare.cons-cons d e t u,
  Compare.cons-cons c e s u,
  gt_trans s t u,
)

lt_trans :
    (s t u : String)
    → compare s t ≡ Ordering.lt
    → compare t u ≡ Ordering.lt
    → compare s u ≡ Ordering.lt
lt_trans String.[] String.[] u h k = cc
lt_trans (String.◌∷◌ c s) String.[] u h k = cc (Compare.cons-nil c s)
lt_trans String.[] (String.◌∷◌ d t) String.[] h k = cc (Compare.cons-nil d t)
lt_trans String.[] (String.◌∷◌ d t) (String.◌∷◌ e u) h k = Compare.nil-cons e u
lt_trans (String.◌∷◌ c s) (String.◌∷◌ d t) String.[] h k = cc (Compare.cons-nil d t)
lt_trans (String.◌∷◌ c s) (String.◌∷◌ d t) (String.◌∷◌ e u) h k = ground (
  arith,
  Compare.cons-cons c d s t,
  Compare.cons-cons d e t u,
  Compare.cons-cons c e s u,
  lt_trans s t u,
)

pub text_gt_irrefl : (s : String) → text_gt s s ≡ false
unfolding text_gt
text_gt_irrefl s = ground (arith, compare_refl s)

pub text_gt_trans : (s t u : String) → text_gt s t ≡ true → text_gt t u ≡ true → text_gt s u ≡ true
unfolding text_gt
text_gt_trans s t u h k = ground (arith, gt_trans s t u)

pub text_le_trans :
    (s t u : String) → text_gt s t ≡ false → text_gt t u ≡ false → text_gt s u ≡ false
unfolding text_gt
text_le_trans s t u h k = ground (arith, lt_trans s t u, path_by_compare s t, path_by_compare t u)

-- Every match has a build number; no match has one.
abbrev pub IsNumbered : Match → Type 0
IsNumbered m = (n : ℤ) × (build_number m ≡ some n)

abbrev pub IsUnnumbered : Match → Type 0
IsUnnumbered m = build_number m ≡ none

pub less-numbered : (a b : Match) (p : IsNumbered a) (q : IsNumbered b) → less a b ≡ ltb_ℤ q.0 p.0
unfolding less
less-numbered a b (n, p) (k, q) = rw (p, q, less)

pub less-unnumbered : (a b : Match) → IsUnnumbered a → less a b ≡ text_gt a.tag b.tag
unfolding less
less-unnumbered a b p = rw (p, less)

pub less-IsStrictWeak_numbered : (xs : List Match) → All IsNumbered xs → IsStrictWeak less xs
less-IsStrictWeak_numbered xs h = record {
  irreflexive = λ a ma. less-numbered a a (at a ma) (at a ma) ∙ ground arith;
  transitive = λ a b c ma mb mc p q. ground (
    arith,
    less-numbered a b (at a ma) (at b mb),
    less-numbered b c (at b mb) (at c mc),
    less-numbered a c (at a ma) (at c mc),
  );
  incomparable = λ a b c ma mb mc p q. ground (
    arith,
    less-numbered a b (at a ma) (at b mb),
    less-numbered b c (at b mb) (at c mc),
    less-numbered a c (at a ma) (at c mc),
  );
}
  where
    at : (a : Match) → Member a xs → IsNumbered a
    at a m = All-Member IsNumbered xs h m

pub less-IsStrictWeak_unnumbered : (xs : List Match) → All IsUnnumbered xs → IsStrictWeak less xs
less-IsStrictWeak_unnumbered xs h = record {
  irreflexive = λ a ma. less-unnumbered a a (at a ma) ∙ text_gt_irrefl a.tag;
  transitive = λ a b c ma mb mc p q. cc (
    less-unnumbered a b (at a ma),
    less-unnumbered b c (at b mb),
    less-unnumbered a c (at a ma),
    text_gt_trans a.tag b.tag c.tag (cc (less-unnumbered a b (at a ma)))
        (cc (less-unnumbered b c (at b mb))),
  );
  incomparable = λ a b c ma mb mc p q. cc (
    less-unnumbered a c (at a ma),
    text_le_trans a.tag b.tag c.tag (cc (less-unnumbered a b (at a ma)))
        (cc (less-unnumbered b c (at b mb))),
  );
}
  where
    at : (a : Match) → Member a xs → IsUnnumbered a
    at a m = All-Member IsUnnumbered xs h m

-- With a build number on `a` and `b` only, the three tags below are each "later" than the next.
pub less_cycle :
    (a b c : Match) (p : IsNumbered a) (q : IsNumbered b)
    → IsUnnumbered c
    → ltb_ℤ q.0 p.0 ≡ true
    → text_gt b.tag c.tag ≡ true
    → text_gt c.tag a.tag ≡ true
    → (less a b ≡ true) × (less b c ≡ true) × (less c a ≡ true)
unfolding less
less_cycle a b c (n, p) (k, q) r h i j = (rw (p, q, less) h, rw (q, r, less) i, rw (r, less) j)
