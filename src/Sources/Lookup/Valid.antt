-- ===== src/Sources/Lookup/Valid.antt =====
-- What a digest lookup returns.
use mathlib.Core.Path.{subst}
use argocd_tag_updater.Base.{
  ◌≡◌, inl, inr, String, true, ok, ok_injective, eqb, Bool-cases, lift, ◌>>=◌,
}
use argocd_tag_updater.Base.Flow.Success.{bind_ok}
use argocd_tag_updater.Sources.{Oci}
use argocd_tag_updater.Sources.Http.{HttpEnv, Response, Url, Wire}
use argocd_tag_updater.Sources.Digest.{valid_digest, valid_tag}
use argocd_tag_updater.Sources.Lookup.{manifest_url, ask, digest_of, digest}

digest_of_lem :
    (env : HttpEnv) (response : Response) (found : String)
    → digest_of env response ≡ ok found
    → valid_digest found ≡ true
unfolding digest_of
digest_of_lem env response found h = elim (Bool-cases (eqb response.status 200)) [
  | inr other ↦ absurd (cc (rw (digest_of, other) at h))
  | inl fine ↦ elim (Bool-cases (valid_digest (response.header "Docker-Content-Digest"))) [
    | inr bad ↦ absurd (cc (rw (digest_of, fine, bad) at h))
    | inl good ↦
        subst (λ v. valid_digest v ≡ true) (ok_injective (rw (digest_of, fine, good) at h)) good
  ]
]

manifest_url_lem :
    (env : HttpEnv) (o : Oci) (tag : String) {u : Url}
    → manifest_url env o tag ≡ ok u
    → valid_tag tag ≡ true
unfolding manifest_url
manifest_url_lem env o tag h = elim (Bool-cases (valid_tag tag)) [
  | inl good ↦ good
  | inr bad ↦ absurd (cc (rw (manifest_url, bad) at h))
]

-- A digest that is looked up is `sha256:` with 64 lower-case hexadecimal digits, and the tag that it
-- was looked up for is one that the registry's naming rules allow.
pub digest_valid :
    (env : HttpEnv) (o : Oci) (tag : String) (s : Wire) (found : String)
    → (digest env o tag s).0 ≡ ok found
    → (valid_digest found ≡ true) × (valid_tag tag ≡ true)
unfolding digest lift
digest_valid env o tag s found h =
    let (u, e, h', _) =
      bind_ok (lift (manifest_url env o tag))
        (λ u. ask env o u >>= λ last. lift (digest_of env last)) s h in
    let (last, _, h2, _) = bind_ok (ask env o u) (λ last. lift (digest_of env last)) s h' in
    (digest_of_lem env last found h2, manifest_url_lem env o tag e)
