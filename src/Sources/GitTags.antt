-- ===== src/Sources/GitTags.antt =====
-- internal/source/git.go. What it takes from go-git is the record `Remote`.
pub mod Peeled
use argocd_tag_updater.Base.{
  ℕ, ◌<>◌, String, Bool, true, false, Option, none, some, List, [], ◌∷◌, Result, ok, err, ◌==◌,
  if◌then◌else◌,
}
use argocd_tag_updater.Base.Text.{strip_suffix}
use argocd_tag_updater.Base.Dict.{Dict, insert, merge}
use argocd_tag_updater.Sources.{Git}
use argocd_tag_updater.Writeback.Urls.{to_https}

pub record Reference : Type 0 where
  pub name : String
  pub hash : String

pub data Auth : Type 0 where
  no_auth : Auth
  basic_auth : String → String → Auth
  public_keys : String → Option String → Auth

-- `is_tag` and `short` are the methods of a reference's name. A key without known hosts takes any host.
pub record Remote : Type 0 where
  pub is_tag : String → Bool
  pub short : String → String
  pub load_key : String → Result String (Unit {0})
  pub load_known_hosts : String → Result String (Unit {0})
  pub list : String → Auth → Result String (List Reference)

-- The loop of `tagRevsFromRefs`, over the two maps `out` and `peeled`.
unfoldable pub sort_refs :
    Remote → List Reference → Dict String → Dict String → Dict String × Dict String
unfolding strip_suffix insert
sort_refs remote [] out peeled = (out, peeled)
sort_refs remote (ref ∷ refs) out peeled =
    let skipped = sort_refs remote refs out peeled in
    let plain = sort_refs remote refs (insert (remote.short ref.name) ref.hash out) peeled in
    if remote.is_tag ref.name
    then elim (strip_suffix (remote.short ref.name) "^{}") [
      | some bare ↦ sort_refs remote refs out (insert bare ref.hash peeled)
      | none ↦ plain
    ]
    else skipped

unfoldable pub tag_revs_from_refs : Remote → List Reference → Dict String
unfolding sort_refs merge
tag_revs_from_refs remote refs =
    merge (sort_refs remote refs [] []).0 (sort_refs remote refs [] []).1

-- The `switch` of `listRefs`: the URL and the method.
unfoldable pub list_auth : Remote → Git → Result String (String × Auth)
unfolding to_https
list_auth remote g =
    if g.token == ""
    then (if g.ssh_key_file == ""
        then ok (g.repo, no_auth)
        else elim (remote.load_key g.ssh_key_file) [
          | err e ↦ err ("load SSH key " <> g.ssh_key_file <> ": " <> e)
          | ok _ ↦
              if g.known_hosts_file == ""
              then (if g.insecure_ignore_host_key
                  then ok (g.repo, public_keys g.ssh_key_file none)
                  else err
                      "SSH source requires GIT_KNOWN_HOSTS_FILE or GIT_INSECURE_IGNORE_HOST_KEY=true")
              else elim (remote.load_known_hosts g.known_hosts_file) [
                | err e ↦ err ("load known_hosts " <> g.known_hosts_file <> ": " <> e)
                | ok _ ↦ ok (g.repo, public_keys g.ssh_key_file (some g.known_hosts_file))
              ]
        ])
    else ok (to_https g.repo, basic_auth "x-access-token" g.token)

unfoldable pub list_refs : Remote → Git → Result String (List Reference)
unfolding list_auth
list_refs remote g = elim (list_auth remote g) [
  | err e ↦ err e
  | ok (repo, method) ↦ elim (remote.list repo method) [
    | err e ↦ err ("ls-remote " <> repo <> ": " <> e)
    | ok refs ↦ ok refs
  ]
]

unfoldable pub tag_revs : Remote → Git → Result String (Dict String)
unfolding list_refs tag_revs_from_refs
tag_revs remote g = elim (list_refs remote g) [
  | err e ↦ err e
  | ok refs ↦ ok (tag_revs_from_refs remote refs)
]

unfoldable pub tag_names : Remote → List Reference → List String
tag_names remote [] = []
tag_names remote (ref ∷ refs) =
    let rest = tag_names remote refs in
    if remote.is_tag ref.name then remote.short ref.name ∷ rest else rest

unfoldable pub git_tags : Remote → Git → Result String (List String)
unfolding list_refs tag_names
git_tags remote g = elim (list_refs remote g) [
  | err e ↦ err e
  | ok refs ↦ ok (tag_names remote refs)
]
