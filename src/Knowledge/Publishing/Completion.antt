-- ===== src/Knowledge/Publishing/Completion.antt =====
-- backend/app/services/knowledge_service.py: the transaction that completes a version and makes it active.
use ai_knowledge_hub.Base.{
  ℕ, ◌≤◌, ◌≡◌, refl, sym, subst, String, Bool, true, Option, none, some, List, any, find_first,
  count, str_eq, arith, Option-cases, inl, inr, eq_iff,
}
use ai_knowledge_hub.Base.Table.{
  number-update, any-update, any-updated, all-update, update, find-test,
}
use ai_knowledge_hub.Knowledge.Tables.{VersionStatus, KnowledgeDocument, DocumentVersion, Db}
use ai_knowledge_hub.Knowledge.Repository.{
  version_at, set_version, promotable, is_older, promote_active_version,
}
use ai_knowledge_hub.Knowledge.Publishing.{is_indexed_of, publishes, number_of, Advances}
use ai_knowledge_hub.Knowledge.Publishing.Transactions.{
  leads-kept, number_of-update, version_at-unindexed,
}

-- A pointer that may be replaced leads to a smaller number.
pub is_older-number_of :
    (db : Db) (n : ℕ) (a : Option String) → is_older db n a ≡ true → number_of db.versions a ≤ n
is_older-number_of db n none h = omega arith
is_older-number_of db n (some a) h =
    elim (Option-cases (find_first (λ v. str_eq v.id a) db.versions)) [
      | inl q ↦ rw q (omega arith)
      | inr (v, q) ↦ rw q (ground (arith, rw (is_older, q) at h))
    ]

abbrev indexing : String → String → List DocumentVersion → List DocumentVersion
indexing d a =
    update (version_at d a VersionStatus.processing) (set_version VersionStatus.indexed none)

module _ (db : Db) (d a : String) (version : DocumentVersion)
    (matched : 1 ≤ count (version_at d a VersionStatus.processing) db.versions)
    (found : find_first (λ v. str_eq v.id a) (indexing d a db.versions) ≡ some version) where
  abbrev after : Db
  after = record db { versions = indexing d a db.versions }

  abbrev test : KnowledgeDocument → Bool
  test = promotable after d version.version_number

  abbrev change : KnowledgeDocument → KnowledgeDocument
  change x = record x { active_version_id = some version.id }

  same_id : version.id ≡ a
  same_id =
      (eq_iff version.id a).0
        (find-test (λ v. str_eq v.id a) (indexing d a db.versions) version found).0

  still_indexed :
      (e b : String)
      → any (is_indexed_of e b) db.versions ≡ true
      → any (is_indexed_of e b) after.versions ≡ true
  still_indexed e b =
      any-update (is_indexed_of e b) (version_at d a VersionStatus.processing)
        (set_version VersionStatus.indexed none) db.versions
        (λ v h k.
          absurd (ground (arith, version_at-unindexed d a VersionStatus.processing v refl h)))

  newly_indexed : any (is_indexed_of d a) after.versions ≡ true
  newly_indexed =
      any-updated (is_indexed_of d a) (version_at d a VersionStatus.processing)
        (set_version VersionStatus.indexed none) db.versions (λ v h. ground arith) matched

  promoted_indexed :
      (x : KnowledgeDocument) → test x ≡ true → publishes after.versions (change x) ≡ true
  promoted_indexed x t =
      subst (λ e. any (is_indexed_of e version.id) after.versions ≡ true)
        (sym ((eq_iff x.id d).0 (ground arith)))
        (subst (λ b. any (is_indexed_of d b) after.versions ≡ true) (sym same_id) newly_indexed)

  promoted_number :
      (x : KnowledgeDocument)
      → test x ≡ true
      → number_of db.versions x.active_version_id ≤ number_of after.versions (some version.id)
  promoted_number x t =
      let kept : number_of db.versions x.active_version_id
          ≤ number_of after.versions x.active_version_id =
        number_of-update db (version_at d a VersionStatus.processing) VersionStatus.indexed none
          x.active_version_id in
      let older : number_of after.versions x.active_version_id ≤ version.version_number =
        is_older-number_of after version.version_number x.active_version_id (ground arith) in
      let leads : number_of after.versions (some version.id) ≡ version.version_number =
        subst (λ b. number_of after.versions (some b) ≡ version.version_number) (sym same_id)
          (rw found refl) in
      omega (arith, kept, older, leads)

  -- A version that is indexed, and then its document's active one if the number is greater.
  pub promotion-Advances :
      Advances db (promote_active_version d version.id version.version_number after).0
  unfolding promote_active_version
  promotion-Advances = (record {
    publishing = λ h.
        all-update (publishes db.versions) (publishes after.versions) test change db.documents
          (λ x k. leads-kept db after.versions still_indexed x.id x.active_version_id k)
          promoted_indexed h;
    raising = λ k.
        number-update (λ x. str_eq x.id k) test change
          (λ x. number_of db.versions x.active_version_id)
          (λ x. number_of after.versions x.active_version_id) db.documents (λ x. refl)
          (λ x.
            number_of-update db (version_at d a VersionStatus.processing) VersionStatus.indexed none
              x.active_version_id)
          promoted_number;
  })
