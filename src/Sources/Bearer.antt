-- ===== src/Sources/Bearer.antt =====
-- internal/source/oci_bearer.go.
pub mod Trust
use argocd_tag_updater.Base.{
  ℕ, ◌+◌, ◌<>◌, String, Bool, true, false, ◌&&◌, ◌||◌, not, Option, none, some, List, [], ◌∷◌,
  Result, ok, err, ◌==◌, eqb, ltb, length, if◌then◌else◌, return, stop, lift, branch, on_result,
  ◌>>=◌, ◌>>◌,
}
use argocd_tag_updater.Base.Text.{strip_prefix, trim_prefix, contains_char, has_prefix}
use argocd_tag_updater.Base.Dict.{Dict, lookup, insert, value}
use argocd_tag_updater.Sources.{Oci}
use argocd_tag_updater.Sources.Http.{HttpEnv, Request, Response, Url, Fetch, exchange}

-- The loop over the attributes of the challenge; `none` if one is there twice.
unfoldable pub attributes : List (String × String) → Dict String → Option (Dict String)
unfolding lookup insert
attributes [] seen = some seen
attributes ((name, text) ∷ rest) seen =
    let further = attributes rest (insert name text seen) in
    elim (lookup name seen) [ some old ↦ none | none ↦ further ]

-- `manifest.Path[:marker]` at the last `/manifests/`
unfoldable pub before_last : String → String → Option String
unfolding has_prefix
before_last marker String.[] = none
before_last marker (String.◌∷◌ c s) = elim (before_last marker s) [
  | some front ↦ some (String.◌∷◌ c front)
  | none ↦ if has_prefix (String.◌∷◌ c s) marker then some "" else none
]

unfoldable pub is_same_origin : Url → Url → Bool
is_same_origin realm manifest = realm.scheme == manifest.scheme && realm.host == manifest.host

-- The tests of the realm.
unfoldable pub check_realm : HttpEnv → Oci → Url → Url → Result String Url
unfolding is_same_origin
check_realm env o manifest realm =
    if realm.host == ""
      || realm.has_user
      || not (realm.raw_query == "")
      || not (realm.fragment == "")
    then err "invalid digest auth realm"
    else if not (o.auth_realm == "") && not (env.print_url realm == o.auth_realm)
    then err "digest auth realm differs from configured endpoint"
    else if is_same_origin realm manifest
    then (if not (realm.scheme == "https") && not (realm.scheme == "http")
        then err "invalid digest auth realm scheme"
        else ok realm)
    else if not (realm.scheme == "https")
        || o.auth_realm == ""
        || not (env.print_url realm == o.auth_realm)
    then err "digest auth realm is not explicitly trusted"
    else ok realm

-- The realm, if it may be asked for a token.
unfoldable pub trusted_realm : HttpEnv → Oci → Url → String → Result String Url
unfolding check_realm
trusted_realm env o manifest text = elim (env.parse_url text) [
  | err e ↦ err "invalid digest auth realm"
  | ok realm ↦ check_realm env o manifest realm
]

-- The scope that the challenge has to name.
unfoldable pub pull_scope : Url → Option String
unfolding before_last trim_prefix
pull_scope manifest = elim (before_last "/manifests/" manifest.path) [
  | none ↦ none
  | some front ↦ some ("repository:" <> trim_prefix front "/v2/" <> ":pull")
]

unfoldable pub token_query : Dict String → String → Dict String
unfolding insert value
token_query attrs scope =
    if value "service" attrs == ""
    then insert "scope" scope []
    else insert "service" (value "service" attrs) (insert "scope" scope [])

-- The realm with its query, behind all the tests of the challenge.
unfoldable pub token_realm : HttpEnv → Oci → Url → String → Result String Url
unfolding attributes trusted_realm pull_scope token_query value strip_prefix
token_realm env o manifest challenge = elim (strip_prefix challenge "Bearer ") [
  | none ↦ err "digest registry requires unsupported authentication"
  | some rest ↦ elim (attributes (env.find_attributes rest) []) [
    | none ↦ err "duplicate registry challenge attribute"
    | some attrs ↦ elim (trusted_realm env o manifest (value "realm" attrs)) [
      | err e ↦ err e
      | ok realm ↦ elim (pull_scope manifest) [
        | none ↦ err "invalid manifest repository path"
        | some scope ↦
            if value "scope" attrs == scope
            then ok (record realm { raw_query = env.encode_query (token_query attrs scope) })
            else err "digest auth challenge scope differs from exact repository pull"
      ]
    ]
  ]
]

unfoldable pub token_request : HttpEnv → Oci → Url → Request
token_request env o realm = record {
  method = "GET";
  url = env.print_url realm;
  accept = "";
  authorization = if o.basic_auth == "" then "" else "Basic " <> o.basic_auth;
}

-- The token in the body of the response.
unfoldable pub token_of : HttpEnv → Response → Result String String
unfolding contains_char
token_of env response = elim (response.read 65537) [
  | err e ↦ err "digest token response exceeds limit or is unreadable"
  | ok body ↦
      if ltb 65536 (length body)
      then err "digest token response exceeds limit or is unreadable"
      else elim (env.decode_token body) [
        | err e ↦ err "invalid digest token response"
        | ok (token, access_token) ↦
            let chosen = if token == "" then access_token else token in
            if chosen == "" || contains_char (λ c. eqb c 13 || eqb c 10) chosen
            then err "missing or invalid digest token"
            else ok chosen
      ]
]

-- What the response to the request is good for.
unfoldable pub granted : HttpEnv → Result String Response → Result String String
unfolding token_of
granted env (err e) = err "digest token request failed"
granted env (ok response) =
    if eqb response.status 200
    then token_of env response
    else err ("digest token endpoint: status " <> env.print response.status)

unfoldable pub bearer_token : HttpEnv → Oci → Url → String → Fetch String
unfolding token_realm token_request granted exchange ◌>>=◌
bearer_token env o manifest challenge = do
  realm ← lift (token_realm env o manifest challenge)
  checked ← lift (env.new_request "GET" (env.print_url realm))
  answer ← exchange env (token_request env o realm)
  lift (granted env answer)
