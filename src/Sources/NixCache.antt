-- ===== src/Sources/NixCache.antt =====
-- internal/source/nix.go.
pub mod Split
pub mod Release
use argocd_tag_updater.Base.{
  ℕ, ◌<>◌, String, Bool, true, false, ◌&&◌, ◌||◌, not, Option, none, some, List, [], ◌∷◌, Result,
  ok, err, ◌==◌, eqb, if◌then◌else◌, return, stop, lift, branch, on_result, ◌>>=◌, ◌>>◌,
}
use argocd_tag_updater.Base.Text.{strip_prefix, trim_suffix, cut_last}
use argocd_tag_updater.Base.Dict.{Dict, insert}
use argocd_tag_updater.Sources.{Nix}
use argocd_tag_updater.Sources.Http.{HttpEnv, Request, Response, NixTagEntry, Fetch, exchange}

-- `ref[:i]` and `ref[i+1:]` at the last slash, both of which have to have text.
unfoldable pub split_last : String → Option (String × String)
unfolding cut_last
split_last ref = elim (cut_last b'/' ref) [
  | none ↦ none
  | some (host, name) ↦ if host == "" || name == "" then none else some (host, name)
]

-- The scheme, and the reference behind it.
unfoldable pub scheme_of : String → String × String
unfolding strip_prefix
scheme_of repo = elim (strip_prefix repo "http://") [
  | some ref ↦ ("http", ref)
  | none ↦ elim (strip_prefix repo "https://") [
    | some ref ↦ ("https", ref)
    | none ↦ ("https", repo)
  ]
]

-- Scheme, host and name, as both `Tags` and `Resolve` work them out.
unfoldable pub location : HttpEnv → Nix → Result String (String × String × String)
unfolding scheme_of split_last trim_suffix
location env n = elim (split_last (trim_suffix (scheme_of n.repo).1 "/")) [
  | none ↦ err ("nix repo " <> env.quote n.repo <> " must be <host>/<name>")
  | some (host, name) ↦ ok ((scheme_of n.repo).0, trim_suffix host "/v1/tags", name)
]

unfoldable pub get : Nix → String → Request
get n url = record {
  method = "GET";
  url = url;
  accept = "";
  authorization = if n.token == "" then "" else "Bearer " <> n.token;
}

-- One request: the response, if its status is 200. `shown` names what was asked for if it is not.
unfoldable pub fetch : HttpEnv → Nix → String → String → String → String → Fetch Response
unfolding get exchange ◌>>=◌
fetch env n what verb url shown =
    on_result (env.new_request "GET" url)
      (λ _. do
        answer ← exchange env (get n url)
        on_result answer
            (λ response.
              branch (eqb response.status 200) (return response)
                (stop (verb <> " " <> shown <> ": status " <> env.print response.status)))
            (λ e. stop (verb <> " " <> n.repo <> ": " <> e)))
      (λ e. stop ("nix " <> what <> " request: " <> e))

unfoldable pub tags : HttpEnv → Nix → Fetch (List String)
unfolding location fetch ◌>>=◌
tags env n = do
  (scheme, host, name) ← lift (location env n)
  response ←
      fetch env n "tags" "ls-tags" (scheme <> "://" <> host <> "/v1/tags/" <> name <> "/list")
        n.repo
  on_result (env.decode_tags response) return
      (λ e. stop ("ls-tags " <> n.repo <> ": decode: " <> e))

unfoldable pub with_text : String → String → Dict String → Dict String
unfolding insert
with_text key text out = if text == "" then out else insert key text out

-- What `Resolve` makes of the record.
unfoldable pub release_fields : HttpEnv → String → NixTagEntry → Result String (Dict String)
unfolding insert with_text
release_fields env tag entry =
    if not (entry.tag == "") && not (entry.tag == tag)
    then err (
        "release record tag "
        <> env.quote entry.tag
        <> " does not match requested tag "
        <> env.quote tag)
    else if entry.store_path == ""
    then err ("release record for tag " <> tag <> " is missing store_path")
    else if entry.rev == ""
    then err ("release record for tag " <> tag <> " is missing rev")
    else ok (
        with_text "image_tag" entry.image_tag (
          insert "rev" entry.rev
            (with_text "root" entry.root (insert "store_path" entry.store_path []))))

unfoldable pub resolve : HttpEnv → Nix → String → Fetch (Dict String)
unfolding location fetch release_fields ◌>>=◌
resolve env n tag = do
  (scheme, host, name) ← lift (location env n)
  let endpoint =
      scheme <> "://" <> host <> "/v1/tags/" <> env.path_escape name <> "/" <> env.path_escape tag
  response ← fetch env n "resolve" "resolve" endpoint endpoint
  on_result (env.decode_entry response) (λ entry. lift (release_fields env tag entry))
      (λ e. stop ("resolve " <> n.repo <> ": decode: " <> e))
