-- ===== src/Storage/Operations.antt =====
-- backend/app/services/file_service.py: the methods, and the ready files with their objects.
use ai_knowledge_hub.Base.{
  ◌⊎◌, ℕ, ◌≡◌, refl, String, true, false, not, ◌&&◌, ◌||◌, none, some, all, str_eq, eq_refl, arith,
  Bool-cases, Option-cases, inl, inr, Result, ok, err,
}
use ai_knowledge_hub.Knowledge.Tables.{FileStatus, FileResource, file_is}
use ai_knowledge_hub.Knowledge.Files.{
  is_owned_ready, get_owned_file, update_file_status, create_file,
}
use ai_knowledge_hub.Storage.{StorageProvider, Opened}
use ai_knowledge_hub.Storage.Service.{
  FileError, Fault, InspectedUpload, Files, is_refused, is_here, set_status, deleted_object,
  save_then_raise, compensate, make_ready, store_object, new_resource, upload, make_deleted,
  delete_object, delete_file, opened, download_file,
}
use ai_knowledge_hub.Storage.Backing.{
  create_file-IsReleased, IsBacked, IsReleased, set_status-IsBacked, set_status-IsReleased,
  deleted_object-IsBacked, put-IsBacked, create_file-IsBacked, ready-IsBacked,
}

Fault-cases : (f : Fault) → (f ≡ Fault.no_fault) ⊎ ((f ≡ Fault.at_flush) ⊎ (f ≡ Fault.at_commit))
Fault-cases Fault.no_fault = inl refl
Fault-cases Fault.at_flush = inr (inl refl)
Fault-cases Fault.at_commit = inr (inr refl)

module _ (storage : StorageProvider) (storage_provider_name bucket : String) (chunk_size : ℕ)
    (fails : ℕ → Fault) where
  open storage use {Store, Content, has, put, delete, open_object, put-has, missing-has}

  abbrev Backed : Files storage → Type 0
  Backed = IsBacked storage storage_provider_name bucket

  abbrev Released : FileResource → Files storage → Type 0
  Released r w = IsReleased storage storage_provider_name bucket r.object_key w.rows

  save_then_raise-Backed :
      (A : Type 0) (n : ℕ) (r : FileResource) (status : FileStatus) (reason : String)
      (refused error : FileError) (w : Files storage)
      → file_is status FileStatus.ready ≡ false
      → Backed w
      → Backed
          (save_then_raise storage storage_provider_name bucket chunk_size fails {A = A} n r status
            reason refused error w).0
  unfolding update_file_status
  save_then_raise-Backed A n r status reason refused error w h sound =
      elim (Bool-cases (is_refused (fails n))) [
        | inl b ↦ rw (save_then_raise, b) sound
        | inr b ↦
            rw (save_then_raise, b)
              (set_status-IsBacked storage storage_provider_name bucket r status (some reason) none
                w h sound)
      ]

  compensate-Backed :
      (A : Type 0) (n : ℕ) (r : FileResource) (reason : String) (error : FileError)
      (w : Files storage)
      → Released r w
      → Backed w
      → Backed
          (compensate storage storage_provider_name bucket chunk_size fails {A = A} n r reason error
            w).0
  unfolding update_file_status
  compensate-Backed A n r reason error w released sound =
      let after = deleted_object-IsBacked storage storage_provider_name bucket r w released sound in
      elim (Bool-cases (delete r.object_key w.objects).1) [
        | inl b ↦
            rw (compensate, b)
              (save_then_raise-Backed A n r FileStatus.cleanup_required "cleanup_failed"
                FileError.database error (deleted_object storage r w) refl after)
        | inr b ↦
            rw (compensate, b)
              (save_then_raise-Backed A n r FileStatus.upload_failed reason FileError.database error
                (deleted_object storage r w) refl after)
      ]

  -- A row whose object is written becomes ready.
  make_ready-Backed :
      (r : FileResource) (w : Files storage)
      → all (λ f. not (str_eq f.id r.id) || str_eq f.object_key r.object_key) w.rows ≡ true
      → has w.objects r.object_key ≡ true
      → Released r w
      → Backed w
      → Backed (make_ready storage storage_provider_name bucket chunk_size fails r w).0
  unfolding update_file_status
  make_ready-Backed r w own there released sound = elim (Fault-cases (fails 2)) [
    | inl q ↦
        rw (make_ready, q) (ready-IsBacked storage storage_provider_name bucket r w own there sound)
    | inr (inl q) ↦ rw (make_ready, q) sound
    | inr (inr q) ↦
        rw (make_ready, q)
          (compensate-Backed FileResource 3 r "metadata_commit_failed" FileError.file_upload_failed
            w released sound)
  ]

  store_object-Backed :
      (r : FileResource) (source : Content) (w : Files storage)
      → all (λ f. not (str_eq f.id r.id) || str_eq f.object_key r.object_key) w.rows ≡ true
      → Released r w
      → Backed w
      → Backed (store_object storage storage_provider_name bucket chunk_size fails r source w).0
  unfolding update_file_status
  store_object-Backed r source w own released sound =
      let after = put-IsBacked storage storage_provider_name bucket r.object_key source w sound in
      elim (Bool-cases (put r.object_key source w.objects).1) [
        | inl b ↦
            rw (store_object, b)
              (compensate-Backed FileResource 1 r "provider_write_failed"
                FileError.storage_unavailable
                (record w { objects = (put r.object_key source w.objects).0 }) released after)
        | inr b ↦
            rw (store_object, b)
              (make_ready-Backed r (record w { objects = (put r.object_key source w.objects).0 })
                own (put-has r.object_key source w.objects b) released after)
      ]

  pub upload-IsBacked :
      (owner_id : ℕ) (file_id object_key : String) (inspected : Result FileError InspectedUpload)
      (source : Content) (w : Files storage)
      → Backed w
      → Backed
          (upload storage storage_provider_name bucket chunk_size fails owner_id file_id object_key
            inspected source w).0
  unfolding upload update_file_status
  upload-IsBacked owner_id file_id object_key (err e) source w sound = sound
  upload-IsBacked owner_id file_id object_key (ok found) source w sound =
      let r =
        new_resource storage storage_provider_name bucket chunk_size fails owner_id file_id
          object_key found in
      let here : is_here storage_provider_name bucket r ≡ true =
        ground (arith, eq_refl storage_provider_name, eq_refl bucket) in
      elim (Bool-cases (is_refused (fails 0))) [
        | inl b ↦ rw (upload, b) sound
        | inr b ↦ elim (Option-cases (create_file r w.rows)) [
          | inl q ↦ rw (upload, b, q) sound
          | inr (rows, q) ↦
              let (released, own) =
                create_file-IsReleased storage storage_provider_name bucket r w.rows rows refl here
                  q in
              rw (upload, b, q)
                (store_object-Backed r source (record w { rows = rows }) own released
                  (create_file-IsBacked storage storage_provider_name bucket r w rows refl here q
                    sound))
        ]
      ]

  delete_object-Backed :
      (r : FileResource) (now : ℕ) (w : Files storage)
      → Released r w
      → Backed w
      → Backed (delete_object storage storage_provider_name bucket chunk_size fails r now w).0
  unfolding update_file_status
  delete_object-Backed r now w released sound =
      let after = deleted_object-IsBacked storage storage_provider_name bucket r w released sound in
      elim (Bool-cases (delete r.object_key w.objects).1) [
        | inl b ↦
            rw (delete_object, b)
              (save_then_raise-Backed Unit 1 r FileStatus.cleanup_required "provider_delete_failed"
                FileError.file_delete_failed FileError.storage_unavailable
                (deleted_object storage r w) refl after)
        | inr b ↦ elim (Bool-cases (is_refused (fails 2))) [
          | inl c ↦
              rw (delete_object, b, make_deleted, c)
                (save_then_raise-Backed Unit 3 r FileStatus.cleanup_required
                  "metadata_delete_commit_failed" FileError.file_delete_failed
                  FileError.file_delete_failed (deleted_object storage r w) refl after)
          | inr c ↦
              rw (delete_object, b, make_deleted, c)
                (set_status-IsBacked storage storage_provider_name bucket r FileStatus.deleted none
                  (some now) (deleted_object storage r w) refl after)
        ]
      ]

  pub delete_file-IsBacked :
      (owner_id : ℕ) (file_id : String) (now : ℕ) (w : Files storage)
      → Backed w
      → Backed
          (delete_file storage storage_provider_name bucket chunk_size fails owner_id file_id now
            w).0
  unfolding delete_file get_owned_file update_file_status
  delete_file-IsBacked owner_id file_id now w sound =
      elim (Option-cases (get_owned_file file_id owner_id w.rows)) [
        | inl q ↦ rw (delete_file, q) sound
        | inr (r, q) ↦ elim (Bool-cases (is_here storage_provider_name bucket r)) [
          | inr h ↦ rw (delete_file, q, h) sound
          | inl h ↦ elim (Bool-cases (is_refused (fails 0))) [
            | inl b ↦ rw (delete_file, q, h, b) sound
            | inr b ↦
                let marked = set_status storage r FileStatus.deleting none none w in
                rw (delete_file, q, h, b)
                  (delete_object-Backed r now marked
                    (set_status-IsReleased storage storage_provider_name bucket
                      (λ f. str_eq f.id file_id && is_owned_ready owner_id f) r FileStatus.deleting
                      none none w refl q h)
                    (set_status-IsBacked storage storage_provider_name bucket r FileStatus.deleting
                      none none w refl sound))
          ]
        ]
      ]

  pub download_file-IsBacked :
      (owner_id : ℕ) (file_id : String) (w : Files storage)
      → Backed w
      → Backed
          (download_file storage storage_provider_name bucket chunk_size fails owner_id file_id w).0
  unfolding download_file update_file_status
  download_file-IsBacked owner_id file_id w sound =
      elim (Option-cases (get_owned_file file_id owner_id w.rows)) [
        | inl q ↦ rw (download_file, q) sound
        | inr (r, q) ↦ elim (Bool-cases (is_here storage_provider_name bucket r)) [
          | inr h ↦ rw (download_file, q, h) sound
          | inl h ↦ rw (download_file, q, h) (opened-Backed r (open_object r.object_key w.objects))
        ]
      ]
    where
      opened-Backed :
          (r : FileResource) (o : Opened Content)
          → Backed (opened storage storage_provider_name bucket chunk_size fails r w o).0
      opened-Backed r Opened.missing =
          save_then_raise-Backed _ 0 r FileStatus.cleanup_required "storage_object_missing"
            FileError.file_content_unavailable FileError.file_content_unavailable w refl sound
      opened-Backed r Opened.failed = sound
      opened-Backed r (Opened.stream content) = sound
