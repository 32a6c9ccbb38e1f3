-- ===== src/Writeback/Urls/Laws.antt =====
-- What `toHTTPS` makes of a remote.
use argocd_tag_updater.Base.{◌≡◌, ◌∙◌, String, ◌<>◌, Option-cases, refl, inl, inr, none, some}
use argocd_tag_updater.Base.Text.{strip_prefix, replace_first, cut}
use argocd_tag_updater.Base.Text.Laws.{
  glue, append-eq-glue, strip_prefix-append, Lacks, cut-append, cut-Lacks,
}
use argocd_tag_updater.Writeback.Urls.{to_https, scp_to_https, behind_user}

-- A text with the https scheme stays.
https_stays : (rest : String) → to_https ("https://" <> rest) ≡ "https://" <> rest
unfolding to_https
https_stays rest = rw (strip_prefix-append "https://" rest, to_https)

https_stays_at :
    (repo rest : String) → strip_prefix repo "https://" ≡ some rest → to_https repo ≡ repo
unfolding to_https
https_stays_at repo rest e = rw (e, to_https)

to_https_scp :
    (repo : String)
    → strip_prefix repo "https://" ≡ none
    → strip_prefix repo "ssh://" ≡ none
    → to_https repo ≡ scp_to_https repo
unfolding to_https
to_https_scp repo h k = rw (h, k, to_https)

to_https_ssh :
    (repo rest : String)
    → strip_prefix repo "https://" ≡ none
    → strip_prefix repo "ssh://" ≡ some rest
    → to_https repo ≡ "https://" <> behind_user rest
unfolding to_https
to_https_ssh repo rest h k = rw (h, k, to_https)

scp_to_https_scp :
    (repo rest : String)
    → strip_prefix repo "git@" ≡ some rest
    → scp_to_https repo ≡ "https://" <> replace_first b':' "/" rest
unfolding scp_to_https
scp_to_https_scp repo rest e = rw (scp_to_https, e)

scp_to_https_other : (repo : String) → strip_prefix repo "git@" ≡ none → scp_to_https repo ≡ repo
unfolding scp_to_https
scp_to_https_other repo e = rw (scp_to_https, e)

scp_idempotent :
    (repo : String)
    → strip_prefix repo "https://" ≡ none
    → strip_prefix repo "ssh://" ≡ none
    → to_https (scp_to_https repo) ≡ scp_to_https repo
scp_idempotent repo h k = elim (Option-cases (strip_prefix repo "git@")) [
  | inr (rest, e) ↦ rw (scp_to_https_scp repo rest e) (https_stays (replace_first b':' "/" rest))
  | inl e ↦ rw (scp_to_https_other repo e) (to_https_scp repo h k ∙ scp_to_https_other repo e)
]

to_https_idempotent : (repo : String) → to_https (to_https repo) ≡ to_https repo
to_https_idempotent repo = elim (Option-cases (strip_prefix repo "https://")) [
  | inr (rest, e) ↦ rw (https_stays_at repo rest e) (https_stays_at repo rest e)
  | inl h ↦ elim (Option-cases (strip_prefix repo "ssh://")) [
    | inr (rest, e) ↦ rw (to_https_ssh repo rest h e) (https_stays (behind_user rest))
    | inl k ↦ rw (to_https_scp repo h k) (scp_idempotent repo h k)
  ]
]

ssh_is_no_https : (rest : String) → strip_prefix ("ssh://" <> rest) "https://" ≡ none
unfolding strip_prefix glue
ssh_is_no_https rest = rw (append-eq-glue "ssh://" rest) refl

scp_is_no_https : (rest : String) → strip_prefix ("git@" <> rest) "https://" ≡ none
unfolding strip_prefix glue
scp_is_no_https rest = rw (append-eq-glue "git@" rest) refl

scp_is_no_ssh : (rest : String) → strip_prefix ("git@" <> rest) "ssh://" ≡ none
unfolding strip_prefix glue
scp_is_no_ssh rest = rw (append-eq-glue "git@" rest) refl

to_https-ssh : (rest : String) → to_https ("ssh://" <> rest) ≡ "https://" <> behind_user rest
to_https-ssh rest =
    to_https_ssh ("ssh://" <> rest) rest (ssh_is_no_https rest) (strip_prefix-append "ssh://" rest)

to_https-scp :
    (rest : String) → to_https ("git@" <> rest) ≡ "https://" <> replace_first b':' "/" rest
to_https-scp rest =
    to_https_scp ("git@" <> rest) (scp_is_no_https rest) (scp_is_no_ssh rest)
    ∙ scp_to_https_scp ("git@" <> rest) rest (strip_prefix-append "git@" rest)

user_cut : (user path : String) → Lacks b'@' user → behind_user (user <> "@" <> path) ≡ path
unfolding behind_user
user_cut user path h =
    let e : cut b'@' (user <> "@" <> path) ≡ some (user, path) =
      cut-append b'@' _ user path h refl in
    rw (behind_user, e) refl

no_user : (user : String) → Lacks b'@' user → behind_user user ≡ user
unfolding behind_user
no_user user h = rw (behind_user, cut-Lacks b'@' user h) refl

colon_replaced :
    (host path : String)
    → Lacks b':' host
    → replace_first b':' "/" (host <> ":" <> path) ≡ host <> "/" <> path
unfolding replace_first
colon_replaced host path h =
    let e : cut b':' (host <> ":" <> path) ≡ some (host, path) =
      cut-append b':' _ host path h refl in
    rw (replace_first, e) refl

no_colon : (host : String) → Lacks b':' host → replace_first b':' "/" host ≡ host
unfolding replace_first
no_colon host h = rw (replace_first, cut-Lacks b':' host h) refl

-- Let the user have no `@` and the host no colon. An https remote stays, the user of an ssh remote is
-- dropped, and in `git@host:path` the colon becomes a slash; where there is no user or no colon, only the
-- scheme changes. A remote that was rewritten is not rewritten again.
pub to_https_rewrites :
    (repo user host path : String)
    → Lacks b'@' user
    → Lacks b':' host
    → (to_https ("https://" <> path) ≡ "https://" <> path)
      × (to_https ("ssh://" <> user <> "@" <> path) ≡ "https://" <> path)
      × (to_https ("ssh://" <> user) ≡ "https://" <> user)
      × (to_https ("git@" <> host <> ":" <> path) ≡ "https://" <> host <> "/" <> path)
      × (to_https ("git@" <> host) ≡ "https://" <> host)
      × (to_https (to_https repo) ≡ to_https repo)
to_https_rewrites repo user host path h k = (
  https_stays path,
  rw (to_https-ssh (user <> "@" <> path), user_cut user path h) refl,
  rw (to_https-ssh user, no_user user h) refl,
  rw (to_https-scp (host <> ":" <> path), colon_replaced host path k) refl,
  rw (to_https-scp host, no_colon host k) refl,
  to_https_idempotent repo,
)
