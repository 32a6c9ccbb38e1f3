-- ===== src/Controller/Validation/Required.antt =====
-- When `validateWriteBack` accepts.
use argocd_tag_updater.Base.{◌≡◌, ◌↔◌, false, none, arith}
use argocd_tag_updater.Base.Text.{is_blank}
use argocd_tag_updater.Api.{WriteBackSpec}
use argocd_tag_updater.Controller.Validation.{validate_write_back, missing_fields}

-- The write-back block is accepted just where repository, branch and path each have more than white
-- space.
pub validate_write_back-eq-none_iff :
    (spec : WriteBackSpec)
    → (validate_write_back spec ≡ none) ↔ (
        (is_blank spec.repo ≡ false)
        × (is_blank spec.branch ≡ false)
        × (is_blank spec.path ≡ false))
unfolding validate_write_back missing_fields
validate_write_back-eq-none_iff spec = ground arith
