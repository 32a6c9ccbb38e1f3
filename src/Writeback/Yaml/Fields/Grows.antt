-- ===== src/Writeback/Yaml/Fields/Grows.antt =====
-- A tree behind `add_entry`.
use mathlib.Core.Path.{subst}
use mathlib.Core.List.{append-nil}
use argocd_tag_updater.Base.{
  ℕ, ◌+◌, ◌<◌, ◌≡◌, ◌∙◌, inl, inr, refl, sym, ap, String, Bool, true, false, none, some, List, [],
  ◌∷◌, ◌++◌, arith, eqb, ltb, eqb_iff, length, All, All-map, All-append, Bool-cases,
}
use argocd_tag_updater.Writeback.Yaml.Nodes.{Kind, Heap, Node, at, value_of, is_mapping}
use argocd_tag_updater.Writeback.Yaml.Fields.{Editing, add_entry, new_child}
use argocd_tag_updater.Writeback.Yaml.Fields.Memory.{
  at-add_entry_parent, at-add_entry_key, at-add_entry_child, at-add_entry_other, length-add_entry,
}
use argocd_tag_updater.Writeback.Yaml.Fields.Trees.{
  IsPaired, IsWellFormed, Extends, child_by, value_of_new,
}

module _ (s : Editing) (cur : ℕ) (segment value : String) (last : Bool)
    (there : cur < length s.heap) where
  abbrev after : Heap
  after = (add_entry cur segment last value s).heap

  -- A statement about the nodes in front of the added ones.
  by_node :
      (P : ℕ → Node → Type 0) (p : ℕ)
      → p < length s.heap
      → P cur (record (at s.heap cur) {
        content = (at s.heap cur).content ++ length s.heap ∷ (length s.heap + 1) ∷ [];
      })
      → ((q : ℕ) → P q (at s.heap q))
      → P p (at after p)
  by_node P p h parent other = elim (Bool-cases (eqb cur p)) [
    | inl same ↦
        subst (λ q. P q (at after q)) ((eqb_iff cur p).0 same)
          (subst (P cur) (sym (at-add_entry_parent s cur segment value last there)) parent)
    | inr differs ↦
        subst (P p) (sym (at-add_entry_other s cur p segment value last (ground arith) h)) (other p)
  ]

  pub add_entry-Extends : Extends s.heap after
  add_entry-Extends = record {
    longer = omega (arith, length-add_entry s cur segment value last);
    kind = λ p h. by_node (λ q n. n.kind ≡ (at s.heap q).kind) p h refl (λ q. refl);
    value = λ p h. by_node (λ q n. n.value ≡ (at s.heap q).value) p h refl (λ q. refl);
    content = λ p h.
        by_node (λ q n. (more : List ℕ) × (n.content ≡ (at s.heap q).content ++ more)) p h
          (length s.heap ∷ (length s.heap + 1) ∷ [], refl)
          (λ q. ([], sym (append-nil (at s.heap q).content)));
  }

  pub child_by-add_entry :
      IsWellFormed s.heap
      → (at s.heap cur).kind ≡ Kind.mapping
      → value_of s.heap segment (at s.heap cur).content ≡ none
      → child_by after cur segment Kind.mapping ≡ some (length s.heap + 1)
  unfolding child_by is_mapping
  child_by-add_entry w kind missing =
      rw (ap (λ (n : Node). n.content) (at-add_entry_parent s cur segment value last there)) (
        value_of_new s.heap after segment (at s.heap cur).content (length s.heap)
          (length s.heap + 1) add_entry-Extends.value (w.closed cur there)
          (w.paired cur there (ap is_mapping kind)) missing
          (ap (λ (n : Node). n.value) (at-add_entry_key s cur segment value last there)))

IsPaired-snoc : (xs : List ℕ) (k v : ℕ) → IsPaired xs → IsPaired (xs ++ k ∷ v ∷ [])
IsPaired-snoc [] k v h = tt
IsPaired-snoc (x ∷ []) k v h = absurd h
IsPaired-snoc (x ∷ y ∷ xs) k v h = IsPaired-snoc xs k v h

new_child-empty : (last : Bool) (value : String) → (new_child last value).content ≡ []
new_child-empty true value = refl
new_child-empty false value = refl

-- What holds of each node of a well-formed tree.
abbrev IsFine : ℕ → Node → Type 0
IsFine size node =
    All (λ q. q < size) node.content × (is_mapping node.kind ≡ true → IsPaired node.content)

IsFine-empty : (size : ℕ) (node : Node) → node.content ≡ [] → IsFine size node
IsFine-empty size node e = (rw e tt, λ _. rw e tt)

module _ (s : Editing) (cur : ℕ) (segment value : String) (last : Bool)
    (there : cur < length s.heap) (w : IsWellFormed s.heap) where
  fine :
      (p : ℕ)
      → p < length s.heap + 2
      → IsFine (length s.heap + 2) (at (after s cur segment value last there) p)
  fine p h = elim (Bool-cases (ltb p (length s.heap))) [
    | inl old ↦
        by_node s cur segment value last there
          (λ q n. q < length s.heap → IsFine (length s.heap + 2) n) p (ground arith)
          (λ k. (
            All-append (λ q. q < length s.heap + 2) (at s.heap cur).content
                (length s.heap ∷ (length s.heap + 1) ∷ []) (wider cur k)
                (omega arith, (omega arith, tt)),
            λ m.
                IsPaired-snoc (at s.heap cur).content (length s.heap) (length s.heap + 1)
                  (w.paired cur k m),
          ))
          (λ q k. (wider q k, w.paired q k)) (ground arith)
    | inr new ↦ elim (Bool-cases (eqb p (length s.heap))) [
      | inl key ↦
          subst (λ q. IsFine (length s.heap + 2) (at (after s cur segment value last there) q))
            (sym ((eqb_iff p (length s.heap)).0 key))
            (IsFine-empty (length s.heap + 2)
              (at (after s cur segment value last there) (length s.heap))
              (ap (λ (n : Node). n.content) (at-add_entry_key s cur segment value last there)))
      | inr child ↦
          subst (λ q. IsFine (length s.heap + 2) (at (after s cur segment value last there) q))
            (let e : length s.heap + 1 ≡ p = ground arith in e)
            (IsFine-empty (length s.heap + 2)
              (at (after s cur segment value last there) (length s.heap + 1))
              (ap (λ (n : Node). n.content) (at-add_entry_child s cur segment value last there)
                ∙ new_child-empty last value))
    ]
  ]
    where
      wider : (q : ℕ) → q < length s.heap → All (λ r. r < length s.heap + 2) (at s.heap q).content
      wider q k =
          All-map (λ r. r < length s.heap) (λ r. r < length s.heap + 2) (at s.heap q).content
            (λ r l. omega arith) (w.closed q k)

  pub add_entry-IsWellFormed : IsWellFormed (after s cur segment value last there)
  add_entry-IsWellFormed = record {
    closed = λ p h.
        subst (λ n. All (λ q. q < n) (at (after s cur segment value last there) p).content)
          (sym (length-add_entry s cur segment value last))
          (fine p (omega (arith, length-add_entry s cur segment value last))).0;
    paired = λ p h. (fine p (omega (arith, length-add_entry s cur segment value last))).1;
  }
