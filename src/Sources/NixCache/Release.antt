-- ===== src/Sources/NixCache/Release.antt =====
-- The fields of a release record.
use argocd_tag_updater.Base.{
  ◌≡◌, ◌≢◌, ◌⊎◌, String, none, some, ok, arith, ◌==◌, eq_iff, if◌then◌else◌,
}
use argocd_tag_updater.Base.Dict.{Dict, lookup}
use argocd_tag_updater.Sources.Http.{HttpEnv, NixTagEntry}
use argocd_tag_updater.Sources.NixCache.{release_fields}

-- The record is for the tag, or names none, and its store path and its revision are there and are the
-- two fields of the release.
pub record IsRelease (tag : String) (entry : NixTagEntry) (out : Dict String) : Type 0 where
  pub matches : (entry.tag ≡ "") ⊎ (entry.tag ≡ tag)
  pub has_path : entry.store_path ≢ ""
  pub has_rev : entry.rev ≢ ""
  pub store_path : lookup "store_path" out ≡ some entry.store_path
  pub rev : lookup "rev" out ≡ some entry.rev
  pub root : lookup "root" out ≡ (if entry.root == "" then none else some entry.root)
  pub image_tag :
      lookup "image_tag" out ≡ (if entry.image_tag == "" then none else some entry.image_tag)

-- A release record that is accepted is for the requested tag or names no tag, it has a store path and a
-- revision, and the template fields are those of the record that have text.
pub release_fields-IsRelease :
    (env : HttpEnv) (tag : String) (entry : NixTagEntry) (out : Dict String)
    → release_fields env tag entry ≡ ok out
    → IsRelease tag entry out
unfolding release_fields lookup
release_fields-IsRelease env tag entry out h = ground (
  arith,
  eq_iff entry.tag "",
  eq_iff entry.tag tag,
  eq_iff entry.store_path "",
  eq_iff entry.rev "",
)
