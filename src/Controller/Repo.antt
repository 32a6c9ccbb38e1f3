-- ===== src/Controller/Repo.antt =====
-- `parseRepo`: the template fields that come from `source.repo`.
pub mod Urls
use argocd_tag_updater.Base.{String, ◌<>◌, not, ◌&&◌, Option, none, some, [], ◌==◌, if◌then◌else◌}
use argocd_tag_updater.Base.Text.{strip_prefix, trim_suffix, cut, contains_char}
use argocd_tag_updater.Base.{eqb}
use argocd_tag_updater.Base.Dict
use argocd_tag_updater.Base.Dict.{Dict}

unfoldable pub set_owner_repo : Dict String → String → Dict String
unfolding cut Dict.insert
set_owner_repo out path = elim (cut b'/' path) [
  | none ↦ out
  | some (owner, repo) ↦ Dict.insert "repo" repo (Dict.insert "owner" owner out)
]

-- The text behind "http://" or "https://", by the first "://".
abbrev behind_scheme : String → Option String
behind_scheme raw = elim (strip_prefix raw "https://") [
  | some rest ↦ some rest
  | none ↦ strip_prefix raw "http://"
]

-- The last branch: `https://host/owner/repo`.
unfoldable pub parse_url : Dict String → String → Dict String
unfolding strip_prefix cut set_owner_repo
parse_url out raw = elim (behind_scheme raw) [
  | none ↦ out
  | some rest ↦ elim (cut b'/' rest) [
    | none ↦ out
    | some (host, path) ↦
        if host == "" then out else set_owner_repo (Dict.insert "host" host out) path
  ]
]

-- The branch for `host:owner/repo`, and the last branch where it does not fit.
unfoldable pub parse_short : Dict String → String → Dict String
unfolding cut contains_char parse_url
parse_short out raw = elim (cut b':' raw) [
  | none ↦ parse_url out raw
  | some (before, after) ↦
      if not (before == "") && not (contains_char (λ c. eqb c b'/') before)
      then set_owner_repo (Dict.insert "host" (before <> ".com") out) after
      else parse_url out raw
]

-- The branch for `git@host:owner/repo`, behind its prefix.
unfoldable pub parse_scp : Dict String → String → Dict String
unfolding cut set_owner_repo
parse_scp out rest = elim (cut b':' rest) [
  | none ↦ out
  | some (host, path) ↦ set_owner_repo (Dict.insert "host" host out) path
]

unfoldable pub parse_repo : String → Dict String
unfolding trim_suffix strip_prefix parse_scp parse_short
parse_repo url =
    let out = Dict.insert "repoURL" url [] in
    let raw = trim_suffix url ".git" in
    elim (strip_prefix raw "git@") [ some rest ↦ parse_scp out rest | none ↦ parse_short out raw ]
