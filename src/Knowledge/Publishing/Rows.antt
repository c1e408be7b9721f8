-- ===== src/Knowledge/Publishing/Rows.antt =====
-- backend/app/services/knowledge_service.py: the rows that a version and its chunks are.
use ai_knowledge_hub.Base.{
  ℕ, suc, ◌≡◌, refl, subst, ◌∙◌, inl, inr, String, Bool, true, ◌&&◌, none, some, List, [], ◌∷◌,
  ◌++◌, any, all, keep, Option-cases, Bool-cases, arith, str_eq, ◌==◌, eq_iff, eq_refl,
}
use ai_knowledge_hub.Base.Table.{find-test, find-any, any-append, all-implied}
use ai_knowledge_hub.Knowledge.Chunking.{ChunkDraft}
use ai_knowledge_hub.Knowledge.Ingestion.{chunks_from, with_chunks}
use ai_knowledge_hub.Knowledge.Repository.{
  get_version_by_fingerprint, create_version, create_chunks, add_chunks, list_chunks, sort_by_index,
  insert_by_index,
}
use ai_knowledge_hub.Knowledge.Tables.{
  DocumentVersion, DocumentChunk, Db, version_clashes, chunk_clashes,
}

-- A row of the table has the version's id, its document and its fingerprint.
abbrev pub has_version : DocumentVersion → Db → Bool
has_version version db =
    any
      (λ v.
        str_eq v.id version.id
        && str_eq v.document_id version.document_id
        && str_eq v.processing_fingerprint version.processing_fingerprint)
      db.versions

-- Each chunk is of the version and a row of the tables.
abbrev pub are_chunks_of : DocumentVersion → Db → List DocumentChunk → Bool
are_chunks_of version db chunks =
    all
      (λ c.
        str_eq c.document_version_id version.id
        && any
            (λ d. str_eq d.id c.id && str_eq d.content c.content && d.chunk_index == c.chunk_index)
            db.chunks)
      chunks

-- The version of a fingerprint with its chunks, as the tables have them.
abbrev pub IsSaved : String → String → Db → DocumentVersion × List DocumentChunk → Type 0
IsSaved document_id processing_fingerprint db (version, chunks) =
    (version.document_id ≡ document_id)
    × (version.processing_fingerprint ≡ processing_fingerprint)
    × (has_version version db ≡ true)
    × (are_chunks_of version db chunks ≡ true)

all-insert :
    (p : DocumentChunk → Bool) (c : DocumentChunk) (chunks : List DocumentChunk)
    → all p (insert_by_index c chunks) ≡ (p c && all p chunks)
all-insert p c [] = refl
all-insert p c (d ∷ chunks) = ground (arith, all-insert p c chunks)

all-sort :
    (p : DocumentChunk → Bool) (chunks : List DocumentChunk)
    → all p (sort_by_index chunks) ≡ all p chunks
all-sort p [] = refl
all-sort p (c ∷ chunks) = ground (arith, all-sort p chunks, all-insert p c (sort_by_index chunks))

abbrev same_chunk : DocumentChunk → DocumentChunk → Bool
same_chunk c d = str_eq d.id c.id && str_eq d.content c.content && d.chunk_index == c.chunk_index

same_chunk_refl : (c : DocumentChunk) → same_chunk c c ≡ true
same_chunk_refl c = ground (arith, eq_refl c.id, eq_refl c.content)

self-rows : (rows : List DocumentChunk) → all (λ c. any (same_chunk c) rows) rows ≡ true
self-rows [] = refl
self-rows (c ∷ rows) = ground (
  arith,
  same_chunk_refl c,
  all-implied (λ d. any (same_chunk d) rows) (λ d. any (same_chunk d) (c ∷ rows)) rows
      (λ d h. ground arith) (self-rows rows),
)

all-keep :
    (test p : DocumentChunk → Bool) (rows : List DocumentChunk)
    → all p rows ≡ true
    → all (λ c. test c && p c) (keep test rows) ≡ true
all-keep test p [] h = refl
all-keep test p (c ∷ rows) h = ground (arith, all-keep test p rows)

list_chunks-are_chunks_of :
    (version : DocumentVersion) (db : Db)
    → are_chunks_of version db (list_chunks version.id db) ≡ true
unfolding list_chunks
list_chunks-are_chunks_of version db =
    all-sort _ (keep (λ c. str_eq c.document_version_id version.id) db.chunks)
    ∙ all-keep (λ c. str_eq c.document_version_id version.id) (λ c. any (same_chunk c) db.chunks)
        db.chunks (self-rows db.chunks)

add_chunks-grow :
    (p : DocumentChunk → Bool) (chunks rows : List DocumentChunk) {after : List DocumentChunk}
    → add_chunks chunks rows ≡ some after
    → any p rows ≡ true
    → any p after ≡ true
add_chunks-grow p [] rows h k = ground arith
add_chunks-grow p (c ∷ chunks) rows h k = elim (Bool-cases (any (chunk_clashes c) rows)) [
  | inl e ↦ cc (rw (add_chunks, e) at h)
  | inr e ↦
      add_chunks-grow p chunks (rows ++ (c ∷ [])) (rw (add_chunks, e) at h)
        (any-append p rows (c ∷ []) k)
]

any-last :
    (c : DocumentChunk) (rows : List DocumentChunk) → any (same_chunk c) (rows ++ (c ∷ [])) ≡ true
any-last c [] = ground (arith, same_chunk_refl c)
any-last c (r ∷ rows) = ground (arith, any-last c rows)

add_chunks-rows :
    (chunks rows : List DocumentChunk) {after : List DocumentChunk}
    → add_chunks chunks rows ≡ some after
    → all (λ c. any (same_chunk c) after) chunks ≡ true
add_chunks-rows [] rows h = refl
add_chunks-rows (c ∷ chunks) rows {after} h = elim (Bool-cases (any (chunk_clashes c) rows)) [
  | inl e ↦ cc (rw (add_chunks, e) at h)
  | inr e ↦ ground (
    arith,
    add_chunks-grow (same_chunk c) chunks (rows ++ (c ∷ [])) (rw (add_chunks, e) at h)
        (any-last c rows),
    add_chunks-rows chunks (rows ++ (c ∷ [])) (rw (add_chunks, e) at h),
  )
]

-- The new chunks are of the new version.
chunks_from-version :
    (p : DocumentChunk → Bool) (ids : ℕ → String) (id : String) (index : ℕ)
    (drafts : List ChunkDraft)
    → all p (chunks_from ids id index drafts) ≡ true
    → all (λ c. str_eq c.document_version_id id && p c) (chunks_from ids id index drafts) ≡ true
chunks_from-version p ids id index [] h = refl
chunks_from-version p ids id index (d ∷ drafts) h =
    ground (arith, eq_refl id, chunks_from-version p ids id (suc index) drafts)

any-new :
    (v : DocumentVersion) (rows : List DocumentVersion)
    → any
        (λ w.
          str_eq w.id v.id
          && str_eq w.document_id v.document_id
          && str_eq w.processing_fingerprint v.processing_fingerprint)
        (rows ++ (v ∷ []))
      ≡ true
any-new v [] = ground (arith, eq_refl v.id, eq_refl v.document_id, eq_refl v.processing_fingerprint)
any-new v (r ∷ rows) = ground (arith, any-new v rows)

pub existing-IsSaved :
    (document_id processing_fingerprint : String) (db : Db) {version : DocumentVersion}
    → get_version_by_fingerprint document_id processing_fingerprint db ≡ some version
    → IsSaved document_id processing_fingerprint db (with_chunks db version)
unfolding get_version_by_fingerprint
existing-IsSaved document_id processing_fingerprint db {version} h =
    let test = (find-test _ db.versions version h).0 in
    (
      (eq_iff version.document_id document_id).0 (ground arith),
      (eq_iff version.processing_fingerprint processing_fingerprint).0 (ground arith),
      find-any _ _ db.versions version h (
          ground (
            arith,
            eq_refl version.id,
            eq_refl version.document_id,
            eq_refl version.processing_fingerprint,
          )),
      list_chunks-are_chunks_of version db,
    )

pub create_version-rows :
    (version : DocumentVersion) (db : Db) {after : Db}
    → create_version version db ≡ some after
    → has_version version after ≡ true
unfolding create_version
create_version-rows version db {after} h =
    elim (Bool-cases (any (version_clashes version) db.versions)) [
      | inl e ↦ cc (rw (create_version, e) at h)
      | inr e ↦
          subst (λ o. elim o [ none ↦ Unit {0} | some t ↦ has_version version t ≡ true ])
            (rw (create_version, e) at h) (any-new version db.versions)
    ]

pub create_chunks-rows :
    (version : DocumentVersion) (ids : ℕ → String) (drafts : List ChunkDraft) (db : Db) {after : Db}
    → create_chunks (chunks_from ids version.id 0 drafts) db ≡ some after
    → has_version version db ≡ true
    → (has_version version after ≡ true)
      × (are_chunks_of version after (chunks_from ids version.id 0 drafts) ≡ true)
unfolding create_chunks
create_chunks-rows version ids drafts db {after} h k =
    elim (Option-cases (add_chunks (chunks_from ids version.id 0 drafts) db.chunks)) [
      | inl e ↦ cc (rw (create_chunks, e) at h)
      | inr (rows, e) ↦
          subst
            (λ o. elim o [
              | none ↦ Unit {0}
              | some t ↦
                  (has_version version t ≡ true)
                  × (are_chunks_of version t (chunks_from ids version.id 0 drafts) ≡ true)
            ])
            (rw (create_chunks, e) at h)
            (
              k,
              chunks_from-version _ ids version.id 0 drafts
                  (add_chunks-rows (chunks_from ids version.id 0 drafts) db.chunks e),
            )
    ]
