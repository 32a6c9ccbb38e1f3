-- ===== src/Controller/Repo/Urls.antt =====
-- The template fields that an https URL gives.
use argocd_tag_updater.Base.{◌≡◌, ◌∙◌, ap, String, ◌<>◌}
use text.Mathlib.TextLemmas.{nil-append, cons-append}
use argocd_tag_updater.Base.Dict
use argocd_tag_updater.Base.Dict.{Dict}
use argocd_tag_updater.Controller.Repo.{parse_short}

-- A text in front of another, by its characters.
glue : String → String → String
glue String.[] t = t
glue (String.◌∷◌ c s) t = String.◌∷◌ c (glue s t)

append-eq-glue : (s t : String) → s <> t ≡ glue s t
unfolding glue
append-eq-glue String.[] t = nil-append t
append-eq-glue (String.◌∷◌ c s) t =
    cons-append c s t ∙ ap (λ u. String.◌∷◌ c u) (append-eq-glue s t)

-- Behind the test for `git@`, every https URL takes the branch for `host:owner/repo`: its host is
-- `https.com`, its owner is empty, and its repository is the rest of the URL behind one slash.
pub parse_short_https :
    (out : Dict String) (rest : String)
    → parse_short out ("https://" <> rest)
      ≡ Dict.insert "repo"
          ("/" <> rest)
          (Dict.insert "owner" "" (Dict.insert "host" "https.com" out))
unfolding parse_short glue
parse_short_https out rest = rw (append-eq-glue "https://" rest, append-eq-glue "/" rest)
