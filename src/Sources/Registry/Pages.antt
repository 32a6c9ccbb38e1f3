-- ===== src/Sources/Registry/Pages.antt =====
-- The pages of a registry's tags.
use mathlib.Core.List.{append-nil, append_assoc}
use argocd_tag_updater.Base.{
  ℕ, zero, suc, ◌+◌, ◌<◌, ◌≡◌, ◌≢◌, ◌∙◌, refl, sym, ap, String, true, false, Option, some, List, [],
  ◌∷◌, ◌++◌, Result, ok, err, arith, length, eqb, ◌==◌, eq_iff, ◌>>=◌,
}
use argocd_tag_updater.Sources.{Oci}
use argocd_tag_updater.Sources.Http.{HttpEnv, Response, Wire, Fetch}
use argocd_tag_updater.Sources.Registry.{next_page_url, page_request, page, pages}

abbrev pub concat : List (List String) → List String
concat [] = []
concat (tags ∷ rest) = tags ++ concat rest

-- From the request number `n` on, the registry answers for `url` with these pages, each of which links
-- to the next one; the last one has no link.
abbrev pub Serves : HttpEnv → Oci → String → String → ℕ → String → List (List String) → Type 0
Serves env o scheme host n url [] = url ≡ ""
Serves env o scheme host n url (tags ∷ rest) =
    (url ≢ "")
    × (env.new_request "GET" url ≡ ok tt)
    × ((response : Response) × (env.send n (page_request o url) ≡ ok response)
        × (eqb response.status 200 ≡ true)
        × (env.decode_tags response ≡ ok tags)
        × Serves env o scheme host (n + 1) (next_page_url env scheme host (response.header "Link"))
            rest)

page_lem :
    (env : HttpEnv) (o : Oci) (url : String) (s : Wire) (response : Response) (tags : List String)
    → env.new_request "GET" url ≡ ok tt
    → env.send s.calls (page_request o url) ≡ ok response
    → eqb response.status 200 ≡ true
    → env.decode_tags response ≡ ok tags
    → page env o url s ≡ (
      ok (tags, response.header "Link"),
      record { calls = s.calls + 1; sent = page_request o url ∷ s.sent },
    )
unfolding page
page_lem env o url s response tags a b c d = rw (page, a, b, c, d) refl

bind_step :
    {A B : Type 0} (m : Fetch A) (f : A → Fetch B) (s : Wire) {a : A} {t : Wire}
    → m s ≡ (ok a, t)
    → (m >>= f) s ≡ f a t
unfolding ◌>>=◌
bind_step {A = A} {B = B} m f s e =
    ap
      (λ (r : Result String A × Wire).
        let p : Result String B × Wire = elim r.0 [ ok a ↦ f a r.1 | err x ↦ (err x, r.1) ] in p)
      e

differs : (url : String) → url ≢ "" → url == "" ≡ false
differs url h = ground (arith, eq_iff url "")

-- Where the registry serves a chain of pages that ends, the loop returns behind the last one, with the
-- tags of all pages in their order, if it may make more rounds than there are pages.
pub pages_enough :
    (env : HttpEnv) (o : Oci) (scheme host next : String) (served : List (List String))
    (found : List String) (fuel : ℕ) (s : Wire)
    → length served < fuel
    → Serves env o scheme host s.calls next served
    → (pages fuel env o scheme host next found s).0 ≡ ok (some (found ++ concat served))
unfolding pages
pages_enough env o scheme host next served found zero s h k = absurd (omega arith)
pages_enough env o scheme host next [] found (suc fuel) s h k =
    rw ((eq_iff next "").1 k) (ap (λ (l : List String). ok (some l)) (sym (append-nil found)))
pages_enough env o scheme host next (tags ∷ rest) found (suc fuel) s h
      (ne, a, (response, b, c, d, more)) =
    rw (differs next ne) (
      ap (λ (r : Result String (Option (List String)) × Wire). r.0)
        (bind_step (page env o next)
          (λ p. pages fuel env o scheme host (next_page_url env scheme host p.1) (found ++ p.0)) s
          (page_lem env o next s response tags a b c d))
      ∙ pages_enough env o scheme host (next_page_url env scheme host (response.header "Link")) rest
          (found ++ tags) fuel (record { calls = s.calls + 1; sent = page_request o next ∷ s.sent })
          (omega arith) more
      ∙ ap (λ (l : List String). ok (some l)) (append_assoc found tags (concat rest)))
