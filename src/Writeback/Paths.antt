-- ===== src/Writeback/Paths.antt =====
-- `safeManifestPath` of internal/writeback/git.go, and what it uses of Go's path/filepath on a system
-- whose separator is `/`.
pub mod Clean
pub mod Names
pub mod Inside
use argocd_tag_updater.Base.{
  String, ◌<>◌, Bool, true, false, ◌||◌, not, none, some, List, [], ◌∷◌, Result, ok, err, ◌==◌,
  if◌then◌else◌,
}
use argocd_tag_updater.Base.Text.{strip_prefix, has_prefix}
use argocd_tag_updater.Writeback.Paths.Clean.{clean_path, join_path}

-- `clean == ".." || len(clean) > 3 && clean[:3] == "../"`: more than the three bytes are there.
unfoldable pub escapes : String → Bool
unfolding strip_prefix
escapes clean =
    clean == ".." || elim (strip_prefix clean "../") [ none ↦ false | some rest ↦ not (rest == "") ]

unfoldable pub is_git_metadata : String → Bool
unfolding has_prefix
is_git_metadata clean = clean == ".git" || has_prefix clean ".git/"

-- The path inside the root, and the path inside the repository. `quote` is the `%q` of `fmt`.
unfoldable pub safe_manifest_path :
    (String → String) → String → String → Result String (String × String)
unfolding has_prefix clean_path join_path escapes is_git_metadata
safe_manifest_path quote root path =
    let clean = clean_path path in
    if path == "" || has_prefix path "/"
    then err "manifest path must be a non-empty repository-relative path"
    else if clean == "."
    then err "manifest path must name a repository file"
    else if escapes clean
    then err ("manifest path " <> quote path <> " escapes repository")
    else if is_git_metadata clean
    then err ("manifest path " <> quote path <> " targets reserved .git metadata")
    else ok (join_path root clean, clean)
