-- ===== src/Sources/Registry.antt =====
-- internal/source/oci.go.
pub mod Pages
use argocd_tag_updater.Base.{
  ℕ, zero, suc, ◌<>◌, String, ◌||◌, not, Option, none, some, List, [], ◌++◌, ok, err, ◌==◌, eqb,
  if◌then◌else◌, return, stop, branch, on_result, ◌>>=◌,
}
use argocd_tag_updater.Base.Text.{cut, contains, contains_char}
use argocd_tag_updater.Sources.{Oci}
use argocd_tag_updater.Sources.Http.{HttpEnv, Request, Fetch, exchange}
use argocd_tag_updater.Sources.NixCache.{scheme_of}

-- The text between the first `<` and the first `>`, which has to stand behind it.
unfoldable pub link_target : String → Option String
unfolding cut contains_char
link_target link = elim (cut b'<' link) [
  | none ↦ none
  | some (before, rest) ↦
      if contains_char (λ c. eqb c b'>') before
      then none
      else elim (cut b'>' rest) [ none ↦ none | some (rel, behind) ↦ some rel ]
]

unfoldable pub next_page_url : HttpEnv → String → String → String → String
unfolding contains link_target
next_page_url env scheme host link =
    if link == "" || not (contains link "rel=\"next\"") then "" else elim (link_target link) [
      | none ↦ ""
      | some rel ↦ elim (env.parse_url rel) [
        | err e ↦ ""
        | ok u ↦ if u.scheme == "" then scheme <> "://" <> host <> rel else env.print_url u
      ]
    ]

unfoldable pub page_request : Oci → String → Request
page_request o url = record {
  method = "GET";
  url = url;
  accept = "";
  authorization = if o.basic_auth == "" then "" else "Basic " <> o.basic_auth;
}

-- One page: its tags, and the link to the next one.
unfoldable pub page : HttpEnv → Oci → String → Fetch (List String × String)
unfolding page_request exchange ◌>>=◌
page env o url =
    on_result (env.new_request "GET" url)
      (λ _. do
        answer ← exchange env (page_request o url)
        on_result answer
            (λ response.
              branch (eqb response.status 200)
                (on_result (env.decode_tags response)
                  (λ tags. return (tags, response.header "Link"))
                  (λ e. stop ("ls-tags " <> o.repo <> ": decode: " <> e)))
                (stop ("ls-tags " <> o.repo <> ": status " <> env.print response.status)))
            (λ e. stop ("ls-tags " <> o.repo <> ": " <> e)))
      (λ e. stop ("oci tags request: " <> e))

-- The loop, over at most that many pages; `none` if there are more.
unfoldable pub pages :
    ℕ → HttpEnv → Oci → String → String → String → List String → Fetch (Option (List String))
unfolding page next_page_url ◌>>=◌
pages zero env o scheme host next found = return none
pages (suc fuel) env o scheme host next found = branch (next == "") (return (some found)) (do
  (tags, link) ← page env o next
  pages fuel env o scheme host (next_page_url env scheme host link) (found ++ tags))

unfoldable pub list_tags : ℕ → HttpEnv → Oci → Fetch (Option (List String))
unfolding scheme_of cut pages
list_tags fuel env o = elim (cut b'/' (scheme_of o.repo).1) [
  | none ↦ stop ("OCI repo " <> env.quote o.repo <> " must be <host>/<path>")
  | some (host, repo) ↦
      branch (repo == "") (stop ("OCI repo " <> env.quote o.repo <> " must be <host>/<path>")) (
        pages fuel env o (scheme_of o.repo).0 host
          ((scheme_of o.repo).0 <> "://" <> host <> "/v2/" <> repo <> "/tags/list?n=1000") [])
]
