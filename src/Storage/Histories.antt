-- ===== src/Storage/Histories.antt =====
-- backend/app/services/file_service.py: sequences of uploads, deletions, downloads and cleanups.
use ai_knowledge_hub.Base.{
  ℕ, ◌≡◌, ◌≢◌, refl, subst, String, false, not, ◌&&◌, Option, none, some, str_eq, eq_refl, arith,
  Bool-cases, Option-cases, inl, inr, Result, err,
}
use ai_knowledge_hub.Base.Table.{find-any, find-all, find-test}
use ai_knowledge_hub.Knowledge.Tables.{FileStatus, FileResource, file_is}
use ai_knowledge_hub.Knowledge.Files.{
  is_ready, is_owned_ready, get_owned_file, get_cleanup_required, update_file_status,
}
use ai_knowledge_hub.Storage.{StorageProvider, Opened}
use ai_knowledge_hub.Storage.Service.{
  FileError, Fault, InspectedUpload, Files, is_refused, is_here, deleted_object, upload,
  delete_file, opened, download_file, clean_object, cleanup_file, cleanup_target,
}
use ai_knowledge_hub.Storage.Backing.{
  IsBacked, is_at, is_backed, IsReleased, set_status-IsBacked, deleted_object-IsBacked,
}
use ai_knowledge_hub.Storage.Operations.{
  upload-IsBacked, delete_file-IsBacked, download_file-IsBacked,
}

-- A cleanup never aims at the ready status.
cleanup_target-ready :
    (reason : Option String) (now : ℕ) (target : FileStatus × Option ℕ)
    → cleanup_target reason now ≡ some target
    → file_is target.0 FileStatus.ready ≡ false
unfolding cleanup_target
cleanup_target-ready none now target h = absurd (cc)
cleanup_target-ready (some reason) now target h =
    elim (Bool-cases (str_eq reason "cleanup_failed")) [
      | inl a ↦
          reached (FileStatus.upload_failed, none) target (cc (rw (cleanup_target, a) at h)) refl
      | inr a ↦ elim (Bool-cases (str_eq reason "provider_delete_failed")) [
        | inl b ↦
            reached (FileStatus.deleted, some now) target (cc (rw (cleanup_target, a, b) at h)) refl
        | inr b ↦ elim (Bool-cases (str_eq reason "metadata_delete_commit_failed")) [
          | inl c ↦
              reached (FileStatus.deleted, some now) target (cc (rw (cleanup_target, a, b, c) at h))
                refl
          | inr c ↦ elim (Bool-cases (str_eq reason "storage_object_missing")) [
            | inl d ↦
                reached (FileStatus.deleted, some now) target
                  (cc (rw (cleanup_target, a, b, c, d) at h)) refl
            | inr d ↦ absurd (cc (rw (cleanup_target, a, b, c, d) at h))
          ]
        ]
      ]
    ]
  where
    reached :
        (s t : FileStatus × Option ℕ)
        → s ≡ t
        → file_is s.0 FileStatus.ready ≡ false
        → file_is t.0 FileStatus.ready ≡ false
    reached s t e k =
        subst (λ (x : FileStatus × Option ℕ). file_is x.0 FileStatus.ready ≡ false) e k

module _ (storage : StorageProvider) (storage_provider_name bucket : String) (chunk_size : ℕ) where
  open storage use {Store, Content, has, delete, open_object, missing-has}

  abbrev Backed : Files storage → Type 0
  Backed = IsBacked storage storage_provider_name bucket

  clean_object-Backed :
      (fails : ℕ → Fault) (r : FileResource) (target : FileStatus × Option ℕ) (w : Files storage)
      → file_is target.0 FileStatus.ready ≡ false
      → IsReleased storage storage_provider_name bucket r.object_key w.rows
      → Backed w
      → Backed (clean_object storage storage_provider_name bucket chunk_size fails r target w).0
  unfolding update_file_status
  clean_object-Backed fails r target w end released sound =
      let after = deleted_object-IsBacked storage storage_provider_name bucket r w released sound in
      elim (Bool-cases (delete r.object_key w.objects).1) [
        | inl b ↦ rw (clean_object, b) after
        | inr b ↦ elim (Bool-cases (is_refused (fails 0))) [
          | inl c ↦ rw (clean_object, b, c) after
          | inr c ↦
              rw (clean_object, b, c)
                (set_status-IsBacked storage storage_provider_name bucket r target.0
                  r.failure_reason target.1 (deleted_object storage r w) end after)
        ]
      ]

  cleanup_file-IsBacked :
      (fails : ℕ → Fault) (file_id : String) (now : ℕ) (w : Files storage)
      → Backed w
      → Backed (cleanup_file storage storage_provider_name bucket chunk_size fails file_id now w).0
  unfolding cleanup_file get_cleanup_required update_file_status
  cleanup_file-IsBacked fails file_id now w sound =
      elim (Option-cases (get_cleanup_required file_id w.rows)) [
        | inl q ↦ rw (cleanup_file, q) sound
        | inr (r, q) ↦ elim (Bool-cases (is_here storage_provider_name bucket r)) [
          | inr h ↦ rw (cleanup_file, q, h) sound
          | inl h ↦ elim (Option-cases (cleanup_target r.failure_reason now)) [
            | inl t ↦ rw (cleanup_file, q, h, t) sound
            | inr (target, t) ↦
                let wanted = λ (f : FileResource).
                  str_eq f.id file_id && file_is f.status FileStatus.cleanup_required in
                let test = (find-test wanted w.rows r q).0 in
                let released =
                  find-any wanted
                    (λ f.
                      is_at storage storage_provider_name bucket r.object_key f && not (is_ready f))
                    w.rows r q (ground (arith, test, h, eq_refl r.object_key)) in
                rw (cleanup_file, q, h, t)
                  (clean_object-Backed fails r target w
                    (cleanup_target-ready r.failure_reason now target t) released sound)
          ]
        ]
      ]

  -- What the files may have become after methods of the service, whatever the database refuses of them.
  pub data History (before : Files storage) : Files storage → Type 0 where
    begins : History before before
    uploads :
        {w : Files storage} (fails : ℕ → Fault) (owner_id : ℕ) (file_id object_key : String)
        (inspected : Result FileError InspectedUpload) (source : Content)
        → History before w
        → History before
            (upload storage storage_provider_name bucket chunk_size fails owner_id file_id
              object_key inspected source w).0
    deletes :
        {w : Files storage} (fails : ℕ → Fault) (owner_id : ℕ) (file_id : String) (now : ℕ)
        → History before w
        → History before
            (delete_file storage storage_provider_name bucket chunk_size fails owner_id file_id now
              w).0
    downloads :
        {w : Files storage} (fails : ℕ → Fault) (owner_id : ℕ) (file_id : String)
        → History before w
        → History before
            (download_file storage storage_provider_name bucket chunk_size fails owner_id file_id
              w).0
    cleans :
        {w : Files storage} (fails : ℕ → Fault) (file_id : String) (now : ℕ)
        → History before w
        → History before
            (cleanup_file storage storage_provider_name bucket chunk_size fails file_id now w).0

  -- When no two files of the provider and bucket have the same key and every ready one has its object, this
  -- holds after any sequence of uploads, deletions, downloads and cleanups, also when commits are refused and
  -- the storage raises errors.
  pub History-IsBacked :
      (before after : Files storage)
      → IsBacked storage storage_provider_name bucket before
      → History before after
      → IsBacked storage storage_provider_name bucket after
  History-IsBacked before after sound History.begins = sound
  History-IsBacked before after sound
        (History.uploads {w} fails owner_id file_id object_key inspected source r) =
      upload-IsBacked storage storage_provider_name bucket chunk_size fails owner_id file_id
        object_key inspected source w (History-IsBacked before w sound r)
  History-IsBacked before after sound (History.deletes {w} fails owner_id file_id now r) =
      delete_file-IsBacked storage storage_provider_name bucket chunk_size fails owner_id file_id
        now w (History-IsBacked before w sound r)
  History-IsBacked before after sound (History.downloads {w} fails owner_id file_id r) =
      download_file-IsBacked storage storage_provider_name bucket chunk_size fails owner_id file_id
        w (History-IsBacked before w sound r)
  History-IsBacked before after sound (History.cleans {w} fails file_id now r) =
      cleanup_file-IsBacked fails file_id now w (History-IsBacked before w sound r)

  -- When no two files of the provider and bucket have the same key and every ready one has its object, a
  -- download of a file never ends in `FileContentUnavailableError`.
  pub download_file-available :
      (fails : ℕ → Fault) (owner_id : ℕ) (file_id : String) (w : Files storage)
      → IsBacked storage storage_provider_name bucket w
      → (download_file storage storage_provider_name bucket chunk_size fails owner_id file_id w).1
        ≢ err FileError.file_content_unavailable
  unfolding download_file update_file_status
  download_file-available fails owner_id file_id w sound h =
      elim (Option-cases (get_owned_file file_id owner_id w.rows)) [
        | inl q ↦ cc (rw (download_file, q) at h)
        | inr (r, q) ↦ elim (Bool-cases (is_here storage_provider_name bucket r)) [
          | inr k ↦ cc (rw (download_file, q, k) at h)
          | inl k ↦
              let wanted = λ (f : FileResource). str_eq f.id file_id && is_owned_ready owner_id f in
              let test = (find-test wanted w.rows r q).0 in
              let here =
                find-all wanted (is_backed storage storage_provider_name bucket w.objects) w.rows r
                  q sound.backed in
              opened-available r (open_object r.object_key w.objects)
                (λ o.
                  let gone : has w.objects r.object_key ≡ false =
                    missing-has r.object_key w.objects o in
                  ground (arith, gone, test, here, k))
                (rw (download_file, q, k) at h)
        ]
      ]
    where
      opened-available :
          (r : FileResource) (o : Opened Content)
          → o ≢ Opened.missing
          → (opened storage storage_provider_name bucket chunk_size fails r w o).1
            ≢ err FileError.file_content_unavailable
      opened-available r Opened.missing n h = n refl
      opened-available r Opened.failed n h = cc
      opened-available r (Opened.stream content) n h = cc
