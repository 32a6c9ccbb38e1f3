-- ===== src/Writeback/Yaml/Nodes/Memory.antt =====
-- Reading a heap that was written to or that grew.
use argocd_tag_updater.Base.{
  ℕ, zero, suc, ◌+◌, ◌<◌, ◌≡◌, ◌≢◌, refl, ap, ◌∙◌, [], ◌∷◌, ◌++◌, arith, length,
}
use argocd_tag_updater.Writeback.Yaml.Nodes.{Heap, Node, at, store}

pub at-store_same :
    (heap : Heap) (p : ℕ) (node : Node) → p < length heap → at (store heap p node) p ≡ node
unfolding at store
at-store_same [] p node h = absurd (omega arith)
at-store_same (old ∷ heap) zero node h = refl
at-store_same (old ∷ heap) (suc p) node h = at-store_same heap p node (omega arith)

pub at-store_other :
    (heap : Heap) (p q : ℕ) (node : Node) → p ≢ q → at (store heap p node) q ≡ at heap q
unfolding at store
at-store_other [] p q node h = refl
at-store_other (old ∷ heap) zero zero node h = absurd (h refl)
at-store_other (old ∷ heap) zero (suc q) node h = refl
at-store_other (old ∷ heap) (suc p) zero node h = refl
at-store_other (old ∷ heap) (suc p) (suc q) node h = at-store_other heap p q node (omega arith)

pub length-store : (heap : Heap) (p : ℕ) (node : Node) → length (store heap p node) ≡ length heap
unfolding store
length-store [] p node = refl
length-store (old ∷ heap) zero node = refl
length-store (old ∷ heap) (suc p) node = omega (arith, length-store heap p node)

pub at-append_old : (heap more : Heap) (p : ℕ) → p < length heap → at (heap ++ more) p ≡ at heap p
unfolding at
at-append_old [] more p h = absurd (omega arith)
at-append_old (node ∷ heap) more zero h = refl
at-append_old (node ∷ heap) more (suc p) h = at-append_old heap more p (omega arith)

pub at-append_new :
    (heap : Heap) (node : Node) (more : Heap) → at (heap ++ node ∷ more) (length heap) ≡ node
unfolding at
at-append_new [] node more = refl
at-append_new (old ∷ heap) node more = at-append_new heap node more

pub at-append_next :
    (heap : Heap) (node next : Node) (more : Heap)
    → at (heap ++ node ∷ next ∷ more) (length heap + 1) ≡ next
unfolding at
at-append_next [] node next more = refl
at-append_next (old ∷ heap) node next more =
    let e : suc (length heap) + 1 ≡ suc (length heap + 1) = omega arith in
    ap (at (old ∷ heap ++ node ∷ next ∷ more)) e ∙ at-append_next heap node next more
