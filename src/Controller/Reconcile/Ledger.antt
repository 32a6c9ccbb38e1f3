-- ===== src/Controller/Reconcile/Ledger.antt =====
-- The writes between two states, and the tag recorded as released.
use argocd_tag_updater.Base.{
  ◌≡◌, ◌≢◌, ◌∙◌, ◌⊎◌, inl, inr, ap, sym, refl, String, List, [], ◌∷◌, ◌++◌, All,
}
use argocd_tag_updater.Base.Dict.{Dict}
use argocd_tag_updater.Base.Flow.Gains.{Outlasts}
use argocd_tag_updater.Api.{TagUpdater}
use argocd_tag_updater.Writeback.{Credentials, Writer}
use argocd_tag_updater.Controller.Env.{Env, State, put_condition}
use argocd_tag_updater.Controller.Effects.Rules.{Allows}
use argocd_tag_updater.Controller.Rollback.{writer_of}

-- The writer is for the updater's own manifest and targets.
abbrev pub IsOwn : TagUpdater → Writer → Type 0
IsOwn tu w = (w.spec ≡ tu.spec.write_back) × (w.targets ≡ tu.spec.targets)

-- Every write in between is the updater's own.
pub record IsExtended (tu : TagUpdater) (s t : State) : Type 0 where
  pub added : List Writer
  pub writes : t.writes ≡ added ++ s.writes
  pub own : All (IsOwn tu) added

-- The same, with one write at least.
pub record IsWritten (tu : TagUpdater) (s t : State) : Type 0 where
  pub extended : IsExtended tu s t
  pub some_write : extended.added ≢ []

-- Every write in between is the updater's own, and the recorded tag is as before unless there is one.
pub record IsAccounted (tu : TagUpdater) (s t : State) : Type 0 where
  pub extended : IsExtended tu s t
  pub recorded : (t.status.last_tag ≡ s.status.last_tag) ⊎ (extended.added ≢ [])

append_assoc : (xs ys zs : List Writer) → (xs ++ ys) ++ zs ≡ xs ++ (ys ++ zs)
append_assoc [] ys zs = refl
append_assoc (x ∷ xs) ys zs = cc (append_assoc xs ys zs)

All-append : (P : Writer → Type 0) (xs ys : List Writer) → All P xs → All P ys → All P (xs ++ ys)
All-append P [] ys h k = k
All-append P (x ∷ xs) ys h k = (h.0, All-append P xs ys h.1 k)

append-ne-nil_left : (xs ys : List Writer) → xs ≢ [] → xs ++ ys ≢ []
append-ne-nil_left [] ys h = absurd (h refl)
append-ne-nil_left (x ∷ xs) ys h = cc

append-ne-nil_right : (xs ys : List Writer) → ys ≢ [] → xs ++ ys ≢ []
append-ne-nil_right [] ys h = h
append-ne-nil_right (x ∷ xs) ys h = cc

module _ (tu : TagUpdater) where
  unfoldable both : (s t u : State) → IsExtended tu s t → IsExtended tu t u → IsExtended tu s u
  both s t u p q = record {
    added = q.added ++ p.added;
    writes =
        q.writes
        ∙ (ap (λ ws. q.added ++ ws) p.writes ∙ sym (append_assoc q.added p.added s.writes));
    own = All-append (IsOwn tu) q.added p.added q.own p.own;
  }

  abbrev pub nothing : (s t : State) → t.writes ≡ s.writes → IsExtended tu s t
  nothing s t e = record { added = []; writes = e; own = tt }

  IsOwn-writer_of : (c : Credentials) (fields : Dict String) → IsOwn tu (writer_of tu c fields)
  unfolding writer_of
  IsOwn-writer_of c fields = (refl, refl)

  pub one :
      (c : Credentials) (fields : Dict String) (s t : State)
      → t.writes ≡ writer_of tu c fields ∷ s.writes
      → IsWritten tu s t
  one c fields s t e = record {
    extended = record {
      added = writer_of tu c fields ∷ [];
      writes = e;
      own = (IsOwn-writer_of c fields, tt);
    };
    some_write = λ p. cc;
  }

  pub extending : (env : Env) → Allows env (IsExtended tu)
  extending env = record {
    preorder = record { reflexive = λ s. nothing s s refl; transitive = both };
    ticks = λ s. nothing _ _ refl;
    saves = λ s. nothing _ _ refl;
    tells = λ s events. nothing _ _ refl;
    judges = λ s c. nothing _ _ refl;
    progresses = λ s p. nothing _ _ refl;
    tries_rev = λ s n. nothing _ _ refl;
    finds_rev = λ s n. nothing _ _ refl;
  }

  pub outlasts : Outlasts (IsExtended tu) (IsWritten tu)
  unfolding both
  outlasts = record {
    before = λ s t u p q. record {
      extended = both s t u p q.extended;
      some_write = append-ne-nil_left q.extended.added p.added q.some_write;
    };
    after = λ s t u p q. record {
      extended = both s t u p.extended q;
      some_write = append-ne-nil_right q.added p.extended.added p.some_write;
    };
  }

  accounted : (s t u : State) → IsAccounted tu s t → IsAccounted tu t u → IsAccounted tu s u
  unfolding both
  accounted s t u p q = record {
    extended = both s t u p.extended q.extended;
    recorded = elim q.recorded [
      | inr w ↦ inr (append-ne-nil_left q.extended.added p.extended.added w)
      | inl e ↦ elim p.recorded [
        | inr w ↦ inr (append-ne-nil_right q.extended.added p.extended.added w)
        | inl e' ↦ inl (e ∙ e')
      ]
    ];
  }

  abbrev pub unmoved :
      (s t : State)
      → t.writes ≡ s.writes
      → t.status.last_tag ≡ s.status.last_tag
      → IsAccounted tu s t
  unmoved s t e e' = record { extended = nothing s t e; recorded = inl e' }

  pub accounting : (env : Env) → Allows env (IsAccounted tu)
  unfolding put_condition
  accounting env = record {
    preorder = record { reflexive = λ s. unmoved s s refl refl; transitive = accounted };
    ticks = λ s. unmoved _ _ refl refl;
    saves = λ s. unmoved _ _ refl refl;
    tells = λ s events. unmoved _ _ refl refl;
    judges = λ s c. unmoved _ _ refl refl;
    progresses = λ s p. unmoved _ _ refl refl;
    tries_rev = λ s n. unmoved _ _ refl refl;
    finds_rev = λ s n. unmoved _ _ refl refl;
  }

  pub settled : (s t u : State) → IsWritten tu s t → IsExtended tu t u → IsAccounted tu s u
  settled s t u p q =
      let r = outlasts.after s t u p q in
      record { extended = r.extended; recorded = inr r.some_write }
