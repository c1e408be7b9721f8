-- ===== src/Knowledge/Publishing.antt =====
-- backend/app/services/knowledge_service.py: what its transactions keep of the versions that are active.
pub mod Transactions
pub mod Completion
pub mod Methods
pub mod Persisting
pub mod System
pub mod Runs
pub mod Ingesting
pub mod Adding
pub mod Rows
pub mod Saving
pub mod Tests
use ai_knowledge_hub.Base.{
  List, ℕ, ◌≤◌, ◌≡◌, refl, String, Bool, true, ◌&&◌, Option, none, some, any, all, find_first,
  str_eq, arith,
}
use ai_knowledge_hub.Base.Table.{number}
use ai_knowledge_hub.Knowledge.Tables.{
  VersionStatus, KnowledgeDocument, DocumentVersion, Db, version_is,
}
use ai_knowledge_hub.Knowledge.Repository.{version_of}

-- The version to which a document points is a row of that document, and indexed.
abbrev pub is_indexed_of : String → String → DocumentVersion → Bool
is_indexed_of document_id version_id v =
    version_of document_id version_id v && version_is v.status VersionStatus.indexed

abbrev pub leads_to_indexed : List DocumentVersion → String → Option String → Bool
leads_to_indexed versions document_id none = true
leads_to_indexed versions document_id (some active) =
    any (is_indexed_of document_id active) versions

abbrev pub publishes : List DocumentVersion → KnowledgeDocument → Bool
publishes versions d = leads_to_indexed versions d.id d.active_version_id

abbrev pub IsPublished : Db → Type 0
IsPublished db = all (publishes db.versions) db.documents ≡ true

-- The number of the version to which a pointer leads, 0 for none.
abbrev pub number_of : List DocumentVersion → Option String → ℕ
number_of versions none = 0
number_of versions (some active) =
    number (λ v. v.version_number) (find_first (λ v. str_eq v.id active) versions)

abbrev pub active_number : String → Db → ℕ
active_number document_id db =
    number (λ d. number_of db.versions d.active_version_id)
      (find_first (λ d. str_eq d.id document_id) db.documents)

-- A change of the tables that keeps what is published, and takes no document back to an older version.
pub record Advances (before after : Db) : Type 0 where
  pub publishing : IsPublished before → IsPublished after
  pub raising : (k : String) → active_number k before ≤ active_number k after

pub Advances-refl : (db : Db) → Advances db db
Advances-refl db = (record { publishing = λ h. h; raising = λ k. omega arith })

pub Advances-trans : (a b c : Db) → Advances a b → Advances b c → Advances a c
Advances-trans a b c first second = (record {
  publishing = λ h. second.publishing (first.publishing h);
  raising = λ k. omega (arith, first.raising k, second.raising k);
})
