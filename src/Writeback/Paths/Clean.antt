-- ===== src/Writeback/Paths/Clean.antt =====
-- `filepath.Clean` and `filepath.Join` on a system whose separator is `/`.
use mathlib.Core.List.{reverse}
use argocd_tag_updater.Base.{String, ◌<>◌, Bool, ◌||◌, List, [], ◌∷◌, ◌==◌, if◌then◌else◌}
use argocd_tag_updater.Base.Text.{has_prefix, split, join}

-- One element of the path. The elements that are kept so far stand in front of it, the last one first.
unfoldable pub keep_element : Bool → List String → String → List String
keep_element rooted [] part =
    if part == "" || part == "."
    then []
    else if part == ".."
    then (if rooted then [] else ".." ∷ [])
    else part ∷ []
keep_element rooted (top ∷ stack) part =
    if part == "" || part == "."
    then top ∷ stack
    else if part == ".."
    then (if top == ".." then ".." ∷ top ∷ stack else stack)
    else part ∷ top ∷ stack

unfoldable pub keep_elements : Bool → List String → List String → List String
unfolding keep_element
keep_elements rooted stack [] = stack
keep_elements rooted stack (part ∷ parts) =
    keep_elements rooted (keep_element rooted stack part) parts

unfoldable pub elements : String → List String
unfolding has_prefix split keep_elements
elements path = reverse (keep_elements (has_prefix path "/") [] (split b'/' path))

unfoldable pub clean_path : String → String
unfolding elements has_prefix join
clean_path path =
    if has_prefix path "/"
    then "/" <> join "/" (elements path)
    else elim (elements path) [ [] ↦ "." | part ∷ parts ↦ join "/" (part ∷ parts) ]

-- `filepath.Join` of two parts that are not both empty.
unfoldable pub join_path : String → String → String
unfolding clean_path
join_path root path =
    clean_path (if root == "" then path else if path == "" then root else root <> "/" <> path)
