-- ===== src/Knowledge/Publishing/Transactions.antt =====
-- backend/app/services/knowledge_service.py: the changes of the versions that its transactions make, and what
-- is published.
use ai_knowledge_hub.Base.{
  ◌≤◌, ◌≡◌, refl, String, Bool, true, false, Option, none, some, List, ◌++◌, any, find_first,
  str_eq, arith,
}
use ai_knowledge_hub.Base.Table.{
  number_mono, number-update, number-append, any-update, any-append, all-implied, update,
}
use ai_knowledge_hub.Knowledge.Tables.{VersionStatus, DocumentVersion, Db, version_is}
use ai_knowledge_hub.Knowledge.Repository.{version_at, set_version}
use ai_knowledge_hub.Knowledge.Publishing.{
  leads_to_indexed, is_indexed_of, publishes, number_of, Advances,
}

module _ (db : Db) (rows : List DocumentVersion)
    (keeps : (d a : String)
      → any (is_indexed_of d a) db.versions ≡ true
      → any (is_indexed_of d a) rows ≡ true) where
  pub leads-kept :
      (d : String) (a : Option String)
      → leads_to_indexed db.versions d a ≡ true
      → leads_to_indexed rows d a ≡ true
  leads-kept d none h = refl
  leads-kept d (some active) h = keeps d active h

-- The versions change, and the documents do not.
pub versions-Advances :
    (db : Db) (rows : List DocumentVersion)
    → ((d a : String)
        → any (is_indexed_of d a) db.versions ≡ true
        → any (is_indexed_of d a) rows ≡ true)
    → ((a : Option String) → number_of db.versions a ≤ number_of rows a)
    → Advances db (record db { versions = rows })
versions-Advances db rows keeps grows = (record {
  publishing = λ h.
      all-implied (publishes db.versions) (publishes rows) db.documents
        (λ d k. leads-kept db rows keeps d.id d.active_version_id k) h;
  raising = λ k.
      number_mono (λ d. number_of db.versions d.active_version_id)
        (λ d. number_of rows d.active_version_id) (find_first (λ d. str_eq d.id k) db.documents)
        (λ d. grows d.active_version_id);
})

-- An update of the status of versions leaves the number that a pointer leads to.
pub number_of-update :
    (db : Db) (test : DocumentVersion → Bool) (status : VersionStatus) (reason : Option String)
    (a : Option String)
    → number_of db.versions a ≤ number_of (update test (set_version status reason) db.versions) a
number_of-update db test status reason none = omega arith
number_of-update db test status reason (some a) =
    number-update (λ v. str_eq v.id a) test (set_version status reason) (λ v. v.version_number)
      (λ v. v.version_number) db.versions (λ v. refl) (λ v. omega arith) (λ v h. omega arith)

-- An update of the status of versions that are not indexed.
pub update-Advances :
    (db : Db) (test : DocumentVersion → Bool) (status : VersionStatus) (reason : Option String)
    → ((v : DocumentVersion) → test v ≡ true → version_is v.status VersionStatus.indexed ≡ false)
    → Advances db (record db { versions = update test (set_version status reason) db.versions })
update-Advances db test status reason unmatched =
    versions-Advances db (update test (set_version status reason) db.versions)
      (λ d a.
        any-update (is_indexed_of d a) test (set_version status reason) db.versions
          (λ v h k. absurd (ground (arith, unmatched v))))
      (number_of-update db test status reason)

-- New versions.
pub append-Advances :
    (db : Db) (more : List DocumentVersion)
    → Advances db (record db { versions = db.versions ++ more })
append-Advances db more =
    versions-Advances db (db.versions ++ more)
      (λ d a. any-append (is_indexed_of d a) db.versions more) (grows)
  where
    grows : (a : Option String) → number_of db.versions a ≤ number_of (db.versions ++ more) a
    grows none = omega arith
    grows (some a) = number-append (λ v. str_eq v.id a) (λ v. v.version_number) db.versions more

-- A version by its old status, when the status is not the indexed one.
pub version_at-unindexed :
    (d a : String) (status : VersionStatus) (v : DocumentVersion)
    → version_is status VersionStatus.indexed ≡ false
    → version_at d a status v ≡ true
    → version_is v.status VersionStatus.indexed ≡ false
version_at-unindexed d a status v h k = ground arith
