-- ===== src/Storage/Service.antt =====
-- backend/app/services/file_service.py: the files of the users, in the tables and in the object storage.
-- `fails n` is what the database does at the n-th commit of a method. What `inspect_upload` makes of an upload,
-- the id of a new file and the time are arguments.
use ai_knowledge_hub.Base.{
  ℕ, String, Bool, true, false, not, ◌&&◌, Option, none, some, List, str_eq, Result, ok, err,
  if◌then◌else◌,
}
use ai_knowledge_hub.Knowledge.Tables.{FileStatus, FileResource}
use ai_knowledge_hub.Knowledge.Files.{
  create_file, get_owned_file, get_cleanup_required, list_owned_files, update_file_status,
}
use ai_knowledge_hub.Storage.{StorageProvider, Opened}

pub data FileError : Type 0 where
  invalid_file_name unsupported_file_type file_too_large empty_file storage_unavailable
        file_upload_failed file_delete_failed file_resource_not_found file_content_unavailable
        file_cleanup_failed database :
      FileError

-- A commit that is accepted, or refused; or the flush before it, which `update_status` sends, is.
pub data Fault : Type 0 where
  no_fault at_flush at_commit : Fault

pub record InspectedUpload : Type 0 where
  pub original_filename : String
  pub content_type : String
  pub size_bytes : ℕ
  pub sha256 : String

pub record FileDownload (Content : Type 0) : Type 0 where
  pub content : Content
  pub original_filename : String
  pub content_type : String
  pub size_bytes : ℕ
  pub chunk_size : ℕ

abbrev pub is_refused : Fault → Bool
is_refused Fault.no_fault = false
is_refused Fault.at_flush = true
is_refused Fault.at_commit = true

-- The status that a cleanup aims at, by the reason of the failure.
unfoldable pub cleanup_target : Option String → ℕ → Option (FileStatus × Option ℕ)
cleanup_target none now = none
cleanup_target (some reason) now =
    if str_eq reason "cleanup_failed"
    then some (FileStatus.upload_failed, none)
    else (if str_eq reason "provider_delete_failed"
        then some (FileStatus.deleted, some now)
        else (if str_eq reason "metadata_delete_commit_failed"
            then some (FileStatus.deleted, some now)
            else (if str_eq reason "storage_object_missing"
                then some (FileStatus.deleted, some now)
                else none)))

-- Whether `_ensure_storage_matches` passes.
abbrev pub is_here : String → String → FileResource → Bool
is_here storage_provider_name bucket f =
    str_eq f.storage_provider storage_provider_name && str_eq f.bucket bucket

module _ (storage : StorageProvider) where
  open storage use {Store, Content, put, delete, open_object}

  pub record Files : Type 0 where
    pub rows : List FileResource
    pub objects : Store

  abbrev pub set_status : FileResource → FileStatus → Option String → Option ℕ → Files → Files
  unfolding update_file_status
  set_status resource status reason deleted_at w = record w {
    rows = update_file_status resource.id status reason deleted_at w.rows;
  }

  abbrev pub deleted_object : FileResource → Files → Files
  deleted_object resource w = record w { objects = (delete resource.object_key w.objects).0 }

  module _ (storage_provider_name bucket : String) (chunk_size : ℕ) (fails : ℕ → Fault) where
    -- `update_status` and `commit`, the n-th of the method, and then an error; another one when refused.
    abbrev pub save_then_raise {ℓ} :
        {A : Type ℓ}
        → ℕ
        → FileResource
        → FileStatus
        → String
        → FileError
        → FileError
        → Files
        → Files × Result FileError A
    unfolding update_file_status
    save_then_raise n resource status reason refused error w =
        if is_refused (fails n)
        then (w, err refused)
        else (set_status resource status (some reason) none w, err error)

    -- What the failed write of an upload is compensated by, and what its failed last commit is.
    abbrev pub compensate {ℓ} :
        {A : Type ℓ} → ℕ → FileResource → String → FileError → Files → Files × Result FileError A
    unfolding update_file_status
    compensate n resource reason error w =
        let after = deleted_object resource w in
        if (delete resource.object_key w.objects).1
        then save_then_raise n resource FileStatus.cleanup_required "cleanup_failed"
            FileError.database error after
        else save_then_raise n resource FileStatus.upload_failed reason FileError.database error
            after

    -- The last commit of an upload. A refusal at the flush is not caught.
    abbrev pub make_ready : FileResource → Files → Files × Result FileError FileResource
    unfolding update_file_status
    make_ready resource w = elim (fails 2) [
      | Fault.no_fault ↦ (
        set_status resource FileStatus.ready none none w,
        ok (record resource {
          status = FileStatus.ready;
          failure_reason = none;
          deleted_at = none;
        }),
      )
      | Fault.at_flush ↦ (w, err FileError.database)
      | Fault.at_commit ↦
          compensate 3 resource "metadata_commit_failed" FileError.file_upload_failed w
    ]

    abbrev pub store_object : FileResource → Content → Files → Files × Result FileError FileResource
    unfolding update_file_status
    store_object resource source w =
        let after = record w { objects = (put resource.object_key source w.objects).0 } in
        if (put resource.object_key source w.objects).1
        then compensate 1 resource "provider_write_failed" FileError.storage_unavailable after
        else make_ready resource after

    abbrev pub new_resource : ℕ → String → String → InspectedUpload → FileResource
    new_resource owner_id file_id object_key inspected = record {
      id = file_id;
      owner_id = owner_id;
      storage_provider = storage_provider_name;
      bucket = bucket;
      object_key = object_key;
      original_filename = inspected.original_filename;
      content_type = inspected.content_type;
      size_bytes = inspected.size_bytes;
      sha256 = inspected.sha256;
      status = FileStatus.pending_upload;
      failure_reason = none;
      deleted_at = none;
    }

    -- `upload`, with the object key that it makes of the owner and the new id.
    unfoldable pub upload :
        ℕ
        → String
        → String
        → Result FileError InspectedUpload
        → Content
        → Files
        → Files × Result FileError FileResource
    unfolding create_file store_object
    upload owner_id file_id object_key inspected source w = elim inspected [
      | err e ↦ (w, err e)
      | ok found ↦
          let resource = new_resource owner_id file_id object_key found in
          elim (if is_refused (fails 0) then none else create_file resource w.rows) [
            | none ↦ (w, err FileError.database)
            | some rows ↦ store_object resource source (record w { rows = rows })
          ]
    ]

    unfoldable pub get_file : ℕ → String → Files → Result FileError FileResource
    unfolding get_owned_file
    get_file owner_id file_id w = elim (get_owned_file file_id owner_id w.rows) [
      | none ↦ err FileError.file_resource_not_found
      | some resource ↦ ok resource
    ]

    unfoldable pub list_files : ℕ → ℕ → ℕ → Files → List FileResource
    unfolding list_owned_files
    list_files owner_id limit offset w = list_owned_files owner_id limit offset w.rows

    -- The last commits of a deletion.
    abbrev pub make_deleted : FileResource → ℕ → Files → Files × Result FileError (Unit {0})
    unfolding update_file_status
    make_deleted resource now w =
        if is_refused (fails 2)
        then save_then_raise 3 resource FileStatus.cleanup_required "metadata_delete_commit_failed"
            FileError.file_delete_failed FileError.file_delete_failed w
        else (set_status resource FileStatus.deleted none (some now) w, ok tt)

    abbrev pub delete_object : FileResource → ℕ → Files → Files × Result FileError (Unit {0})
    unfolding update_file_status
    delete_object resource now w =
        let after = deleted_object resource w in
        if (delete resource.object_key w.objects).1
        then save_then_raise 1 resource FileStatus.cleanup_required "provider_delete_failed"
            FileError.file_delete_failed FileError.storage_unavailable after
        else make_deleted resource now after

    unfoldable pub delete_file : ℕ → String → ℕ → Files → Files × Result FileError (Unit {0})
    unfolding get_owned_file delete_object
    delete_file owner_id file_id now w = elim (get_owned_file file_id owner_id w.rows) [
      | none ↦ (w, err FileError.file_resource_not_found)
      | some resource ↦
          if not (is_here storage_provider_name bucket resource)
          then (w, err FileError.storage_unavailable)
          else (if is_refused (fails 0)
              then (w, err FileError.file_delete_failed)
              else delete_object resource now (set_status resource FileStatus.deleting none none w))
    ]

    abbrev pub opened :
        FileResource → Files → Opened Content → Files × Result FileError (FileDownload Content)
    unfolding update_file_status
    opened resource w Opened.missing =
        save_then_raise 0 resource FileStatus.cleanup_required "storage_object_missing"
          FileError.file_content_unavailable FileError.file_content_unavailable w
    opened resource w Opened.failed = (w, err FileError.storage_unavailable)
    opened resource w (Opened.stream content) = (
      w,
      ok (record {
        content = content;
        original_filename = resource.original_filename;
        content_type = resource.content_type;
        size_bytes = resource.size_bytes;
        chunk_size = chunk_size;
      }),
    )

    unfoldable pub download_file :
        ℕ → String → Files → Files × Result FileError (FileDownload Content)
    unfolding get_owned_file opened
    download_file owner_id file_id w = elim (get_owned_file file_id owner_id w.rows) [
      | none ↦ (w, err FileError.file_resource_not_found)
      | some resource ↦
          if not (is_here storage_provider_name bucket resource)
          then (w, err FileError.storage_unavailable)
          else opened resource w (open_object resource.object_key w.objects)
    ]

    -- The deletion of a cleanup, and the status that it aims at.
    abbrev pub clean_object :
        FileResource → FileStatus × Option ℕ → Files → Files × Result FileError Bool
    unfolding update_file_status
    clean_object resource target w =
        let after = deleted_object resource w in
        if (delete resource.object_key w.objects).1
        then (after, err FileError.storage_unavailable)
        else (if is_refused (fails 0)
            then (after, err FileError.file_cleanup_failed)
            else (set_status resource target.0 resource.failure_reason target.1 after, ok true))

    unfoldable pub cleanup_file : String → ℕ → Files → Files × Result FileError Bool
    unfolding get_cleanup_required cleanup_target clean_object
    cleanup_file file_id now w = elim (get_cleanup_required file_id w.rows) [
      | none ↦ (w, ok false)
      | some resource ↦
          if not (is_here storage_provider_name bucket resource)
          then (w, err FileError.storage_unavailable)
          else elim (cleanup_target resource.failure_reason now) [
            | none ↦ (w, err FileError.file_cleanup_failed)
            | some target ↦ clean_object resource target w
          ]
    ]
