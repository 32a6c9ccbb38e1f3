-- ===== src/Writeback/Paths/Inside.antt =====
-- Which paths `safeManifestPath` lets through.
use mathlib.Core.List.{reverse}
use mathlib.Core.Path.{subst}
use text.Mathlib.TextLemmas.{append_assoc, append-eq-nil_iff}
use argocd_tag_updater.Base.{
  ◌≡◌, ◌≢◌, ◌∙◌, inl, inr, refl, sym, ap, String, ◌<>◌, Bool, true, false, ◌||◌, List, [], ◌∷◌, ok,
  arith, All, All-reverse, ◌==◌, eq_iff,
}
use argocd_tag_updater.Base.Text.{has_prefix, split, join}
use argocd_tag_updater.Base.Text.Laws.{strip_prefix-append}
use argocd_tag_updater.Writeback.Paths.{escapes, is_git_metadata, safe_manifest_path}
use argocd_tag_updater.Writeback.Paths.Clean.{keep_elements, elements, clean_path, join_path}
use argocd_tag_updater.Writeback.Paths.Names.{
  IsName, IsKept, split-HasNoSlash, keep_elements-IsKept, names_or_back,
}

or_true : (b : Bool) → b || true ≡ true
or_true true = refl
or_true false = refl

differs : (s t : String) → s ≢ t → s == t ≡ false
differs s t h = ground (arith, eq_iff s t)

-- The text of a path that begins with a step back is refused.
step_back_escapes : (t : String) → t ≢ "" → escapes ("../" <> t) ≡ true
unfolding escapes
step_back_escapes t h =
    rw (escapes, strip_prefix-append "../" t, differs t "" h, or_true ("../" <> t == ".."))

join-ne-empty : (parts : List String) (part : String) → part ≢ "" → join "/" (part ∷ parts) ≢ ""
unfolding join
join-ne-empty [] part h = h
join-ne-empty (next ∷ parts) part h = λ e. h (append-eq-nil_iff.0 e).0

join_back_escapes :
    (rest : List String) → All (λ part. part ≢ "") rest → escapes (join "/" (".." ∷ rest)) ≡ true
unfolding escapes join
join_back_escapes [] h = refl
join_back_escapes (part ∷ rest) h =
    subst (λ t. escapes t ≡ true) (append_assoc ".." "/" (join "/" (part ∷ rest)))
      (step_back_escapes (join "/" (part ∷ rest)) (join-ne-empty rest part h.0))

git_refused : (t : String) → is_git_metadata (".git/" <> t) ≡ true
unfolding is_git_metadata has_prefix
git_refused t =
    rw
      (is_git_metadata, has_prefix, strip_prefix-append ".git/" t, or_true (".git/" <> t == ".git"))

join_git_refused : (rest : List String) → is_git_metadata (join "/" (".git" ∷ rest)) ≡ true
unfolding is_git_metadata join has_prefix
join_git_refused [] = refl
join_git_refused (part ∷ rest) =
    subst (λ t. is_git_metadata t ≡ true) (append_assoc ".git" "/" (join "/" (part ∷ rest)))
      (git_refused (join "/" (part ∷ rest)))

-- A file inside the repository: names below its root, the first one not that of git's own directory.
pub record IsInside (full clean root : String) : Type 0 where
  pub first : String
  pub rest : List String
  pub spelled : clean ≡ join "/" (first ∷ rest)
  pub names : All IsName (first ∷ rest)
  pub no_metadata : first ≢ ".git"
  pub located : full ≡ join_path root clean

IsKept-ne-empty : (stack : List String) → IsKept stack → All (λ part. part ≢ "") stack
IsKept-ne-empty [] h = tt
IsKept-ne-empty (part ∷ stack) h = (h.0, IsKept-ne-empty stack h.4)

abbrev kept_stack : String → List String
kept_stack path = keep_elements false [] (split b'/' path)

kept : (path : String) → IsKept (kept_stack path)
kept path = keep_elements-IsKept [] (split b'/' path) tt (split-HasNoSlash path)

elements_relative :
    (path : String) → has_prefix path "/" ≡ false → elements path ≡ reverse (kept_stack path)
unfolding elements
elements_relative path e = rw (elements, e)

abbrev spell : List String → String
spell [] = "."
spell (part ∷ parts) = join "/" (part ∷ parts)

clean_relative :
    (path : String)
    → has_prefix path "/" ≡ false
    → clean_path path ≡ spell (reverse (kept_stack path))
unfolding clean_path
clean_relative path e =
    rw (clean_path, e, elements_relative path e) (spelled (reverse (kept_stack path)))
  where
    spelled :
        (parts : List String)
        → elim parts as (λ _. String) [ [] ↦ "." | part ∷ more ↦ join "/" (part ∷ more) ]
          ≡ spell parts
    spelled [] = refl
    spelled (part ∷ more) = refl

names_of :
    (stack rest : List String) (first : String)
    → IsKept stack
    → reverse stack ≡ first ∷ rest
    → escapes (join "/" (first ∷ rest)) ≡ false
    → All IsName (first ∷ rest)
names_of stack rest first h e up = elim (names_or_back stack h) [
  | inl names ↦ subst (All IsName) e (All-reverse IsName stack names)
  | inr (more, e') ↦ absurd (back more e')
]
  where
    filled : All (λ part. part ≢ "") (first ∷ rest)
    filled =
        subst (All (λ part. part ≢ "")) e
          (All-reverse (λ part. part ≢ "") stack (IsKept-ne-empty stack h))

    back : (more : List String) → reverse stack ≡ ".." ∷ more → ⊥
    back more e' =
        let here : join "/" (first ∷ rest) ≡ join "/" (".." ∷ rest) =
          ap (λ (p : String). join "/" (p ∷ rest)) (cc (e, e')) in
        cc (up, ap escapes here, join_back_escapes rest filled.1)

inside :
    (stack parts : List String) (root clean : String)
    → IsKept stack
    → reverse stack ≡ parts
    → clean ≡ spell parts
    → clean == "." ≡ false
    → escapes clean ≡ false
    → is_git_metadata clean ≡ false
    → IsInside (join_path root clean) clean root
inside stack [] root clean h e c dot up git = absurd (cc ((eq_iff clean ".").1 c, dot))
inside stack (first ∷ rest) root clean h e c dot up git = record {
  first = first;
  rest = rest;
  spelled = c;
  names = names_of stack rest first h e (cc (up, ap escapes c));
  no_metadata = λ g. cc (
    git,
    ap is_git_metadata c,
    ap (λ (p : String). is_git_metadata (join "/" (p ∷ rest))) g,
    join_git_refused rest,
  );
  located = refl;
}

accepted :
    (quote : String → String) (root path full clean : String)
    → safe_manifest_path quote root path ≡ ok (full, clean)
    → (has_prefix path "/" ≡ false)
      × (clean_path path ≡ clean)
      × (join_path root (clean_path path) ≡ full)
      × (clean_path path == "." ≡ false)
      × (escapes (clean_path path) ≡ false)
      × (is_git_metadata (clean_path path) ≡ false)
unfolding safe_manifest_path
accepted quote root path full clean h = ground arith

-- An accepted manifest path is spelled by names of directory entries, with no `.` and no `..` among
-- them, the first of which is not git's own directory, and the file is that path below the root.
pub safe_manifest_path-IsInside :
    (quote : String → String) (root path full clean : String)
    → safe_manifest_path quote root path ≡ ok (full, clean)
    → IsInside full clean root
safe_manifest_path-IsInside quote root path full clean h =
    let (relative, here, there, dot, up, git) = accepted quote root path full clean h in
    subst (λ f. IsInside f clean root) (ap (join_path root) (sym here) ∙ there)
      (subst (λ c. IsInside (join_path root c) c root) here
        (inside (kept_stack path) (reverse (kept_stack path)) root (clean_path path) (kept path)
          refl (clean_relative path relative) dot up git))
