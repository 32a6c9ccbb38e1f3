-- ===== src/Sources/Lookup.antt =====
-- `Digest` of internal/source/oci_digest.go.
pub mod Valid
use argocd_tag_updater.Base.{
  ℕ, ◌+◌, ◌<>◌, String, Bool, true, false, ◌&&◌, ◌||◌, not, none, some, Option, Result, ok, err,
  ◌==◌, eqb, if◌then◌else◌, return, stop, lift, branch, on_result, ◌>>=◌, ◌>>◌,
}
use argocd_tag_updater.Base.Text.{contains, trim_left, trim_right}
use argocd_tag_updater.Sources.{Oci}
use argocd_tag_updater.Sources.Http.{HttpEnv, Request, Response, Url, Fetch, exchange}
use argocd_tag_updater.Sources.Digest.{valid_digest, valid_tag}
use argocd_tag_updater.Sources.Bearer.{bearer_token}

-- `strings.Trim(path, "/")`
unfoldable pub trim_slashes : String → String
unfolding trim_left trim_right
trim_slashes path = trim_right (λ c. eqb c b'/') (trim_left (λ c. eqb c b'/') path)

unfoldable pub repository_url : String → String
unfolding contains
repository_url repo = if contains repo "://" then repo else "https://" <> repo

-- May the repository's URL be used?
unfoldable pub is_repository : Url → Bool
unfolding trim_slashes
is_repository u = not (
    u.host == ""
    || u.has_user
    || not (u.raw_query == "")
    || not (u.fragment == "")
    || not (u.scheme == "http") && not (u.scheme == "https")
    || trim_slashes u.path == "")

-- The URL of the tag's manifest.
unfoldable pub manifest_url : HttpEnv → Oci → String → Result String Url
unfolding repository_url is_repository trim_slashes valid_tag
manifest_url env o tag =
    if valid_tag tag
    then elim (env.parse_url (repository_url o.repo)) [
      | err e ↦ err "invalid digest repository"
      | ok u ↦
          if is_repository u
          then ok (record u { path = "/v2/" <> trim_slashes u.path <> "/manifests/" <> tag })
          else err "invalid digest repository"
    ]
    else err "invalid OCI manifest tag"

unfoldable pub head : HttpEnv → Url → String → Request
head env u authorization = record {
  method = "HEAD";
  url = env.print_url u;
  accept =
      "application/vnd.oci.image.index.v1+json, application/vnd.oci.image.manifest.v1+json, application/vnd.docker.distribution.manifest.list.v2+json, application/vnd.docker.distribution.manifest.v2+json";
  authorization = authorization;
}

-- The digest in the last response.
unfoldable pub digest_of : HttpEnv → Response → Result String String
unfolding valid_digest
digest_of env response =
    if eqb response.status 200
    then (if valid_digest (response.header "Docker-Content-Digest")
        then ok (response.header "Docker-Content-Digest")
        else err "resolve OCI digest: missing or invalid sha256 Docker-Content-Digest")
    else err ("resolve OCI digest: status " <> env.print response.status)

-- Behind a response of status 401.
unfoldable pub after_challenge : HttpEnv → Oci → Url → Response → Fetch Response
unfolding bearer_token head exchange ◌>>=◌
after_challenge env o u response = do
  token ← bearer_token env o u (response.header "WWW-Authenticate")
  answer ← exchange env (head env u ("Bearer " <> token))
  on_result answer return (λ e. stop ("resolve OCI digest after challenge: " <> e))

-- Everything behind the manifest's URL.
unfoldable pub ask : HttpEnv → Oci → Url → Fetch Response
unfolding head exchange after_challenge ◌>>=◌
ask env o u = do
  checked ← lift (env.new_request "HEAD" (env.print_url u))
  answer ← exchange env (head env u (if o.basic_auth == "" then "" else "Basic " <> o.basic_auth))
  first ← on_result answer return (λ e. stop ("resolve OCI digest: " <> e))
  branch (eqb first.status 401) (after_challenge env o u first) (return first)

unfoldable pub digest : HttpEnv → Oci → String → Fetch String
unfolding manifest_url ask digest_of ◌>>=◌
digest env o tag = do
  u ← lift (manifest_url env o tag)
  last ← ask env o u
  lift (digest_of env last)
