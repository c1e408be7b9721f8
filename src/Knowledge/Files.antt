-- ===== src/Knowledge/Files.antt =====
-- backend/app/db/repositories/file_repository.py. A listing is in the order of creation, newest first; the
-- order of the rows of the table is taken for it.
use ai_knowledge_hub.Base.{
  ℕ, zero, suc, String, Bool, not, ◌&&◌, ◌||◌, Option, List, [], ◌∷◌, keep, reverse, find_first,
  str_eq, ◌==◌, is_some,
}
use ai_knowledge_hub.Base.Table.{update}
use ai_knowledge_hub.Knowledge.Tables.{FileStatus, FileResource, file_is, add_row}

abbrev pub is_ready : FileResource → Bool
is_ready f = file_is f.status FileStatus.ready && not (is_some f.deleted_at)

abbrev pub is_owned_ready : ℕ → FileResource → Bool
is_owned_ready owner_id f = f.owner_id == owner_id && is_ready f

-- `uq_files_storage_location` and the key.
abbrev pub file_clashes : FileResource → FileResource → Bool
file_clashes file f =
    str_eq f.id file.id
    || (str_eq f.storage_provider file.storage_provider
        && str_eq f.bucket file.bucket
        && str_eq f.object_key file.object_key)

unfoldable pub create_file : FileResource → List FileResource → Option (List FileResource)
create_file resource files = add_row file_clashes resource files

unfoldable pub get_owned_file : String → ℕ → List FileResource → Option FileResource
get_owned_file file_id owner_id files =
    find_first (λ f. str_eq f.id file_id && is_owned_ready owner_id f) files

unfoldable pub get_cleanup_required : String → List FileResource → Option FileResource
get_cleanup_required file_id files =
    find_first (λ f. str_eq f.id file_id && file_is f.status FileStatus.cleanup_required) files

-- `LIMIT` and `OFFSET`.
abbrev pub limited {ℓ} : {A : Type ℓ} → ℕ → List A → List A
limited zero xs = []
limited (suc n) [] = []
limited (suc n) (x ∷ xs) = x ∷ limited n xs

abbrev pub skipped {ℓ} : {A : Type ℓ} → ℕ → List A → List A
skipped zero xs = xs
skipped (suc n) [] = []
skipped (suc n) (x ∷ xs) = skipped n xs

unfoldable pub list_owned_files : ℕ → ℕ → ℕ → List FileResource → List FileResource
list_owned_files owner_id limit offset files =
    limited limit (skipped offset (reverse (keep (is_owned_ready owner_id) files)))

-- `update_status(resource, status, failure_reason, deleted_at)`
unfoldable pub update_file_status :
    String → FileStatus → Option String → Option ℕ → List FileResource → List FileResource
update_file_status file_id status failure_reason deleted_at files =
    update (λ f. str_eq f.id file_id)
      (λ f. record f { status = status; failure_reason = failure_reason; deleted_at = deleted_at })
      files
