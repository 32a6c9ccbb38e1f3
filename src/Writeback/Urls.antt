-- ===== src/Writeback/Urls.antt =====
-- `toHTTPS` of internal/writeback/git.go.
pub mod Laws
use argocd_tag_updater.Base.{String, ◌<>◌, none, some}
use argocd_tag_updater.Base.Text.{strip_prefix, has_prefix, replace_first, cut}

-- What stands behind the first `@`, or the whole text.
unfoldable pub behind_user : String → String
unfolding cut
behind_user rest = elim (cut b'@' rest) [ none ↦ rest | some (user, host) ↦ host ]

-- The last two cases of the `switch`.
unfoldable pub scp_to_https : String → String
unfolding strip_prefix replace_first
scp_to_https repo = elim (strip_prefix repo "git@") [
  | some rest ↦ "https://" <> replace_first b':' "/" rest
  | none ↦ repo
]

unfoldable pub to_https : String → String
unfolding strip_prefix behind_user scp_to_https
to_https repo = elim (strip_prefix repo "https://") [
  | some rest ↦ repo
  | none ↦ elim (strip_prefix repo "ssh://") [
    | some rest ↦ "https://" <> behind_user rest
    | none ↦ scp_to_https repo
  ]
]
