-- ===== src/Tests/Writing.antt =====
-- The git write-back, at concrete inputs.
use argocd_tag_updater.Base.{
  ℕ, zero, suc, ◌≤◌, ◌<◌, ◌≡◌, ◌↔◌, ◌⊎◌, ◌<>◌, inl, inr, refl, ◌∷◌, [], String, Bool, true, false,
  none, ok, err, arith, length, All, Member,
}
use argocd_tag_updater.Base.Int.{pos}
use argocd_tag_updater.Base.Text.{contains_char}
use argocd_tag_updater.Writeback.Urls.{to_https}
use argocd_tag_updater.Writeback.Urls.Laws.{to_https_rewrites}
use argocd_tag_updater.Writeback.Paths.{safe_manifest_path}
use argocd_tag_updater.Writeback.Paths.Inside.{IsInside, safe_manifest_path-IsInside}
use argocd_tag_updater.Writeback.Yaml.{panic}
use argocd_tag_updater.Writeback.Yaml.Bytes.{bytes}
use argocd_tag_updater.Writeback.Yaml.Nodes.{Kind, Heap, at, is_mapping, plain}
use argocd_tag_updater.Writeback.Yaml.Fields.{Editing, set_scalar, add_entry}
use argocd_tag_updater.Writeback.Yaml.Fields.Trees.{IsWellFormed, IsPaired}
use argocd_tag_updater.Writeback.Yaml.Fields.Reaches.{Arrives, set_scalar-Arrives}
use argocd_tag_updater.Writeback.Yaml.Tokens.{line_starts, scalar_token_end}
use argocd_tag_updater.Writeback.Yaml.Tokens.Bounds.{
  IsQuotedToken, IsPlainToken, scalar_token_end_bounds,
}
use argocd_tag_updater.Writeback.Yaml.Insertion.{mapping_insertion_point}
use argocd_tag_updater.Writeback.Yaml.Insertion.Places.{
  IsBoundary, mapping_insertion_point-IsBoundary, mapping_insertion_point_top_level,
}
use argocd_tag_updater.Writeback.Yaml.Edits.{ScalarEdit, sort_edits, replace_all}
use argocd_tag_updater.Writeback.Yaml.Edits.Order.{sort_edits_unordered}
use argocd_tag_updater.Writeback.Yaml.Edits.Splice.{splice, replace_all-eq-splice}
use argocd_tag_updater.Writeback.Yaml.Apply.{insertion_edit}
use argocd_tag_updater.Writeback.Yaml.Apply.Insertions.{add_entry_panics}
use argocd_tag_updater.Writeback.Yaml.Update.{update_manifest}
use argocd_tag_updater.Writeback.Git.{GitEnv, none_needed, insecure_ignore_host_key}
use argocd_tag_updater.Writeback.Git.Auth.{host_key_callback}
use argocd_tag_updater.Writeback.Git.Auth.HostKeys.{host_key_callback_insecure}
use argocd_tag_updater.Writeback.Git.Apply.{apply, attempts}
use argocd_tag_updater.Writeback.Git.Apply.Pushes.{apply_pushed}
use argocd_tag_updater.Writeback.Git.Apply.Accounts.{pushes}
use argocd_tag_updater.Writeback.Git.Apply.Cleans.{IsTidy, apply-IsTidy}
use argocd_tag_updater.Tests.Manifest.{text, tree, yaml, deployment, writer, git_env, session}

updated :
    update_manifest yaml (bytes text) (deployment ∷ []) []
    ≡ ok (bytes "apiVersion: apps/v1\nkind: Deployment\nmetadata:\n  name: web\ntag: v2\n", true)
unfolding update_manifest bytes
updated = refl

applied : (apply git_env writer session).0 ≡ ok (record { committed = true; commit_sha = "c2" })
unfolding apply bytes
applied = refl

apply_pushed_example :
    (apply git_env writer session).1.pushed ≡ pushes (apply git_env writer session).0 []
apply_pushed_example = apply_pushed git_env writer session

apply-IsTidy_example : IsTidy session (apply git_env writer session).1
apply-IsTidy_example = apply-IsTidy git_env writer session

-- Another writer is always faster.
abbrev busy : GitEnv
busy = record git_env {
  push = λ n dir method. err (record {
    message = "non-fast-forward update";
    is_non_fast_forward = true;
    is_empty_commit = false;
  });
}

-- Each of the three attempts ends with a rejected push.
three_clones : (attempts busy writer none_needed "https://example.org/r" 3 session).1.clones ≡ 3
unfolding apply bytes
three_clones = refl

any_host : (host_key_callback git_env "" true session).0 ≡ ok (insecure_ignore_host_key, none)
unfolding host_key_callback
any_host = refl

host_key_callback_insecure_example :
    ((let s : String = "" in s) ≡ "") × ((let b : Bool = true in b) ≡ true)
host_key_callback_insecure_example =
    host_key_callback_insecure git_env "" true session none any_host

accepted_path :
    safe_manifest_path (λ s. s) "/tmp/clone-1" "apps/./web/../web.yaml"
    ≡ ok ("/tmp/clone-1/apps/web.yaml", "apps/web.yaml")
unfolding safe_manifest_path
accepted_path = refl

safe_manifest_path-IsInside_example :
    IsInside "/tmp/clone-1/apps/web.yaml" "apps/web.yaml" "/tmp/clone-1"
safe_manifest_path-IsInside_example =
    safe_manifest_path-IsInside (λ s. s) "/tmp/clone-1" "apps/./web/../web.yaml"
      "/tmp/clone-1/apps/web.yaml" "apps/web.yaml" accepted_path

to_https_rewrites_example :
    (to_https ("https://" <> "o/r") ≡ "https://" <> "o/r")
    × (to_https ("ssh://" <> "git" <> "@" <> "o/r") ≡ "https://" <> "o/r")
    × (to_https ("ssh://" <> "git") ≡ "https://" <> "git")
    × (to_https ("git@" <> "github.com" <> ":" <> "o/r")
        ≡ "https://" <> "github.com" <> "/" <> "o/r")
    × (to_https ("git@" <> "github.com") ≡ "https://" <> "github.com")
    × (to_https (to_https "git@github.com:o/r") ≡ to_https "git@github.com:o/r")
unfolding contains_char
to_https_rewrites_example =
    to_https_rewrites "git@github.com:o/r" "git" "github.com" "o/r" refl refl

-- `tag: v1`
abbrev small : Heap
small =
    record {
      kind = Kind.mapping;
      tag = "";
      value = "";
      style = plain;
      line = 1;
      column = 1;
      content = 1 ∷ 2 ∷ [];
    }
    ∷ record {
      kind = Kind.scalar;
      tag = "";
      value = "tag";
      style = plain;
      line = 1;
      column = 1;
      content = [];
    }
    ∷ record {
      kind = Kind.scalar;
      tag = "";
      value = "v1";
      style = plain;
      line = 1;
      column = 6;
      content = [];
    }
    ∷ []

small-IsWellFormed : IsWellFormed small
unfolding at is_mapping
small-IsWellFormed = record { closed = closed; paired = paired }
  where
    closed : (p : ℕ) → p < 3 → All (λ q. q < 3) (at small p).content
    closed zero h = (omega arith, (omega arith, tt))
    closed (suc zero) h = tt
    closed (suc (suc zero)) h = tt
    closed (suc (suc (suc p))) h = absurd (omega arith)

    paired : (p : ℕ) → p < 3 → is_mapping (at small p).kind ≡ true → IsPaired (at small p).content
    paired zero h k = tt
    paired (suc zero) h k = tt
    paired (suc (suc zero)) h k = tt
    paired (suc (suc (suc p))) h k = absurd (omega arith)

abbrev editing : Editing
editing = record { heap = small; edits = []; insertions = [] }

added_scalar : (set_scalar (λ s. s) 0 [] ("image" ∷ "tag" ∷ []) "v2" editing).0 ≡ ok 6
unfolding set_scalar
added_scalar = refl

set_scalar-Arrives_example :
    Arrives small
      (set_scalar (λ s. s) 0 [] ("image" ∷ "tag" ∷ []) "v2" editing).1.heap
      0
      ("image" ∷ "tag" ∷ [])
      6
set_scalar-Arrives_example =
    set_scalar-Arrives (λ s. s) 0 [] ("image" ∷ "tag" ∷ []) "v2" editing small-IsWellFormed
      (omega arith) added_scalar

-- `{}`
abbrev empty : Editing
empty = record {
  heap =
      record {
        kind = Kind.mapping;
        tag = "";
        value = "";
        style = plain;
        line = 1;
        column = 1;
        content = [];
      }
      ∷ [];
  edits = [];
  insertions = [];
}

empty-mapping : is_mapping (at empty.heap 0).kind ≡ true
unfolding is_mapping at
empty-mapping = refl

empty-content : (at empty.heap 0).content ≡ []
unfolding at
empty-content = refl

add_entry_panics_example :
    insertion_edit yaml
      (add_entry 0 "tag" true "v2" empty).heap
      (bytes "{}\n")
      (0 ∷ 3 ∷ [])
      (at (add_entry 0 "tag" true "v2" empty).heap 0)
      (1 ∷ 2 ∷ [])
    ≡ err (panic "strings: negative Repeat count")
add_entry_panics_example =
    add_entry_panics yaml empty 0 "tag" "v2" true (bytes "{}\n") (0 ∷ 3 ∷ []) (1 ∷ 2 ∷ [])
      {out = "tag: v2\n"} (omega arith) empty-mapping empty-content refl refl

token : scalar_token_end (bytes "tag: v1 # old\n") 5 plain ≡ ok 7
unfolding scalar_token_end bytes
token = refl

scalar_token_end_bounds_example :
    (5 < length (bytes "tag: v1 # old\n"))
    × (7 ≤ length (bytes "tag: v1 # old\n"))
    × (IsQuotedToken (bytes "tag: v1 # old\n") 5 7 plain
        ⊎ IsPlainToken (bytes "tag: v1 # old\n") 5 7 plain)
scalar_token_end_bounds_example = scalar_token_end_bounds (bytes "tag: v1 # old\n") 5 7 plain token

point :
    mapping_insertion_point tree (bytes text) (line_starts (bytes text)) (at tree 7)
    ≡ ok (59, pos 2)
unfolding mapping_insertion_point line_starts bytes at
point = refl

mapping_insertion_point-IsBoundary_example : IsBoundary (bytes text) 59
mapping_insertion_point-IsBoundary_example =
    mapping_insertion_point-IsBoundary tree (bytes text) (at tree 7) 59 (pos 2) point

root-mapping : is_mapping (at tree 1).kind ≡ true
unfolding is_mapping at
root-mapping = refl

root-content : (at tree 1).content ≡ 2 ∷ 3 ∷ 4 ∷ 5 ∷ 6 ∷ 7 ∷ 10 ∷ 11 ∷ []
unfolding at
root-content = refl

first-column : (at tree 2).column ≡ 1
unfolding at
first-column = refl

mapping_insertion_point_top_level_example :
    mapping_insertion_point tree (bytes text) (line_starts (bytes text)) (at tree 1)
    ≡ ok (length (bytes text), pos 0)
mapping_insertion_point_top_level_example =
    mapping_insertion_point_top_level tree (bytes text) (line_starts (bytes text)) (at tree 1) 2
      (3 ∷ 4 ∷ 5 ∷ 6 ∷ 7 ∷ 10 ∷ 11 ∷ []) root-mapping root-content first-column

abbrev left : ScalarEdit
left = record { start = 0; end = 1; value = 65 ∷ 66 ∷ [] }

abbrev right : ScalarEdit
right = record { start = 2; end = 3; value = [] }

swapped : (a : ScalarEdit) → Member a (right ∷ left ∷ []) ↔ Member a (left ∷ right ∷ [])
swapped a = (flip a right left, flip a left right)
  where
    flip : (a x y : ScalarEdit) → Member a (x ∷ y ∷ []) → Member a (y ∷ x ∷ [])
    flip a x y (inl e) = inr (inl e)
    flip a x y (inr (inl e)) = inl e
    flip a x y (inr (inr e)) = absurd e

replace_all-eq-splice_example :
    replace_all (sort_edits (right ∷ left ∷ [])) (97 ∷ 98 ∷ 99 ∷ 100 ∷ [])
    ≡ ok (splice 0 (left ∷ right ∷ []) (97 ∷ 98 ∷ 99 ∷ 100 ∷ []))
replace_all-eq-splice_example =
    replace_all-eq-splice (left ∷ right ∷ []) (right ∷ left ∷ []) (97 ∷ 98 ∷ 99 ∷ 100 ∷ [])
      (omega arith, omega arith, (omega arith, omega arith, omega arith))
      (((λ e. absurd (omega arith)), tt), (tt, tt)) (((λ e. absurd (omega arith)), tt), (tt, tt))
      swapped

spliced : splice 0 (left ∷ right ∷ []) (97 ∷ 98 ∷ 99 ∷ 100 ∷ []) ≡ 65 ∷ 66 ∷ 98 ∷ 100 ∷ []
unfolding splice
spliced = refl

sort_edits_unordered_example : sort_edits (right ∷ left ∷ []) ≡ sort_edits (left ∷ right ∷ [])
sort_edits_unordered_example =
    sort_edits_unordered (right ∷ left ∷ []) (left ∷ right ∷ [])
      (((λ e. absurd (omega arith)), tt), (tt, tt)) (((λ e. absurd (omega arith)), tt), (tt, tt))
      swapped
