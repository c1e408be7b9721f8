-- ===== src/Storage.antt =====
-- backend/app/storage/provider.py, and what backend/app/services/file_service.py relies on: the object storage
-- is an interface with its documented effects.
pub mod Service
pub mod Backing
pub mod Operations
pub mod Histories
pub mod Tests
use ai_knowledge_hub.Base.{◌≡◌, String, Bool, true, false, str_eq}

-- What `open` gives: a stream, `StorageObjectNotFoundError`, or another `StorageOperationError`.
pub data Opened (Content : Type 0) : Type 0 where
  stream : Content → Opened Content
  missing failed : Opened Content

pub record StorageProvider : Type 1 where
  pub Store : Type 0
  pub Content : Type 0
  pub has : Store → String → Bool
  -- `put` and `delete` say whether they raise a `StorageOperationError`.
  pub put : String → Content → Store → Store × Bool
  pub delete : String → Store → Store × Bool
  pub open_object : String → Store → Opened Content
  pub put-has :
      (k : String) (c : Content) (s : Store) → (put k c s).1 ≡ false → has (put k c s).0 k ≡ true
  pub put-others :
      (k : String) (c : Content) (s : Store) (j : String)
      → has s j ≡ true
      → has (put k c s).0 j ≡ true
  pub delete-others :
      (k : String) (s : Store) (j : String) → str_eq j k ≡ false → has (delete k s).0 j ≡ has s j
  pub missing-has : (k : String) (s : Store) → open_object k s ≡ Opened.missing → has s k ≡ false
