-- ===== src/Sources/Bearer/Trust.antt =====
-- Whom a registry's challenge can make the program ask for a token.
use mathlib.Core.Path.{subst}
use argocd_tag_updater.Base.{
  ◌≡◌, ◌≢◌, ◌⊎◌, inl, inr, refl, sym, ap, ok_injective, [], String, ◌∷◌, Result, ok, err, arith,
  Bool-cases, Option-cases, ◌==◌, eq_iff,
}
use argocd_tag_updater.Base.Dict.{value}
use argocd_tag_updater.Base.Text.{strip_prefix}
use argocd_tag_updater.Sources.{Oci}
use argocd_tag_updater.Sources.Http.{HttpEnv, Request, Url, Wire}
use argocd_tag_updater.Sources.Bearer.{
  is_same_origin, check_realm, trusted_realm, attributes, token_realm, token_query, pull_scope,
  token_request, bearer_token,
}

-- The realm has the scheme and the host of the manifest's URL, or it is an https URL that is spelled
-- exactly as the configured realm, which there is.
abbrev pub IsTrusted : HttpEnv → Oci → Url → Url → Type 0
IsTrusted env o manifest realm =
    ((realm.scheme ≡ manifest.scheme) × (realm.host ≡ manifest.host))
    ⊎ ((realm.scheme ≡ "https") × (o.auth_realm ≢ "") × (env.print_url realm ≡ o.auth_realm))

Result-cases :
    {A : Type 0} (r : Result String A) → ((e : String) × (r ≡ err e)) ⊎ ((a : A) × (r ≡ ok a))
Result-cases (ok a) = inr (a, refl)
Result-cases (err e) = inl (e, refl)

check_realm_lem :
    (env : HttpEnv) (o : Oci) (manifest u realm : Url)
    → check_realm env o manifest u ≡ ok realm
    → IsTrusted env o manifest u × (u ≡ realm)
unfolding check_realm is_same_origin
check_realm_lem env o manifest u realm h = (
  ground (
    arith,
    eq_iff u.scheme manifest.scheme,
    eq_iff u.host manifest.host,
    eq_iff u.scheme "https",
    eq_iff o.auth_realm "",
    eq_iff (env.print_url u) o.auth_realm,
  ),
  ground arith,
)

trusted_realm_lem :
    (env : HttpEnv) (o : Oci) (manifest : Url) (text : String) (realm : Url)
    → trusted_realm env o manifest text ≡ ok realm
    → IsTrusted env o manifest realm
unfolding trusted_realm
trusted_realm_lem env o manifest text realm h = go (env.parse_url text) h
  where
    go :
        (r : Result String Url)
        → elim r as (λ _. Result String Url) [
          | err e ↦ err "invalid digest auth realm"
          | ok u ↦ check_realm env o manifest u
        ]
          ≡ ok realm
        → IsTrusted env o manifest realm
    go (err e) p = absurd cc
    go (ok u) p =
        let (t, e) = check_realm_lem env o manifest u realm p in
        subst (IsTrusted env o manifest) e t

-- A request for a token: the realm it goes to is trusted, apart from the query that is added.
abbrev pub IsTokenRequest : HttpEnv → Oci → Url → Request → Type 0
IsTokenRequest env o manifest request =
    (realm : Url) × IsTrusted env o manifest realm
    × ((query : String) × (request ≡ token_request env o (record realm { raw_query = query })))

token_realm_lem :
    (env : HttpEnv) (o : Oci) (manifest : Url) (challenge : String) (asked : Url)
    → token_realm env o manifest challenge ≡ ok asked
    → IsTokenRequest env o manifest (token_request env o asked)
unfolding token_realm
token_realm_lem env o manifest challenge asked h =
    elim (Option-cases (strip_prefix challenge "Bearer ")) [
      | inl e ↦ absurd (cc (rw (token_realm, e) at h))
      | inr (rest, e) ↦ elim (Option-cases (attributes (env.find_attributes rest) [])) [
        | inl e' ↦ absurd (cc (rw (token_realm, e, e') at h))
        | inr (attrs, e') ↦
            elim (Result-cases (trusted_realm env o manifest (value "realm" attrs))) [
              | inl (x, r) ↦ absurd (cc (rw (token_realm, e, e', r) at h))
              | inr (realm, r) ↦ elim (Option-cases (pull_scope manifest)) [
                | inl p ↦ absurd (cc (rw (token_realm, e, e', r, p) at h))
                | inr (scope, p) ↦ elim (Bool-cases (value "scope" attrs == scope)) [
                  | inr other ↦ absurd (cc (rw (token_realm, e, e', r, p, other) at h))
                  | inl same ↦ (
                    realm,
                    trusted_realm_lem env o manifest (value "realm" attrs) realm r,
                    (
                      env.encode_query (token_query attrs scope),
                      ap (token_request env o)
                          (sym (ok_injective (rw (token_realm, e, e', r, p, same) at h))),
                    ),
                  )
                ]
              ]
            ]
      ]
    ]

-- Asking for a token sends nothing, or one request, to a trusted realm.
pub bearer_token-IsTrusted :
    (env : HttpEnv) (o : Oci) (manifest : Url) (challenge : String) (s : Wire)
    → ((bearer_token env o manifest challenge s).1.sent ≡ s.sent)
      ⊎ ((request : Request) × IsTokenRequest env o manifest request
          × ((bearer_token env o manifest challenge s).1.sent ≡ request ∷ s.sent))
unfolding bearer_token
bearer_token-IsTrusted env o manifest challenge s =
    elim (Result-cases (token_realm env o manifest challenge)) [
      | inl (x, e) ↦ inl (rw (bearer_token, e) refl)
      | inr (asked, e) ↦ elim (Result-cases (env.new_request "GET" (env.print_url asked))) [
        | inl (x, r) ↦ inl (rw (bearer_token, e, r) refl)
        | inr (checked, r) ↦ inr (
          token_request env o asked,
          token_realm_lem env o manifest challenge asked e,
          rw (bearer_token, e, r) refl,
        )
      ]
    ]
