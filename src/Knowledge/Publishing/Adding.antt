-- ===== src/Knowledge/Publishing/Adding.antt =====
-- backend/app/services/knowledge_service.py: what `add_file_to_base` and `persist_chunks` promise.
use ai_knowledge_hub.Base.{
  ℕ, ◌≡◌, refl, sym, ap, subst, ◌∙◌, ◌⊎◌, inl, inr, String, Bool, true, false, ◌&&◌, Option, none,
  some, List, [], ◌∷◌, ◌++◌, any, Result, err, ok, or_raise, or_raise-eq-ok, >>=-eq-ok,
  ok-injective, Result-cases, Option-cases, Bool-cases, arith, str_eq, ◌==◌, eq_iff, eq_refl,
}
use ai_knowledge_hub.Base.Table.{find-test, find-any}
use ai_knowledge_hub.Knowledge.Error.{KnowledgeError}
use ai_knowledge_hub.Knowledge.Files.{get_owned_file, is_owned_ready}
use ai_knowledge_hub.Knowledge.Ingestion.{
  add_file_to_base, addable, insert_document, new_document, existing_document,
}
use ai_knowledge_hub.Knowledge.Repository.{
  get_owned_base, get_document_by_base_and_file, create_document,
}
use ai_knowledge_hub.Knowledge.Tables.{
  KnowledgeBase, KnowledgeDocument, FileResource, Db, document_clashes,
}

abbrev pub owns_base : ℕ → String → Db → Bool
owns_base owner_id id db = any (λ b. str_eq b.id id && b.owner_id == owner_id) db.bases

abbrev pub owns_ready_file : ℕ → String → Db → Bool
owns_ready_file owner_id id db = any (λ f. str_eq f.id id && is_owned_ready owner_id f) db.files

-- A row of the table has the document's id, its base and its file.
abbrev pub has_row : KnowledgeDocument → Db → Bool
has_row document db =
    any
      (λ d.
        str_eq d.id document.id
        && str_eq d.knowledge_base_id document.knowledge_base_id
        && str_eq d.file_id document.file_id)
      db.documents

-- What a call may do to the tables: nothing but wait for the other sessions, or one more document.
abbrev pub Inserts : (Db → Db) → Db → KnowledgeDocument → Db → Type 0
Inserts others db document after =
    (after ≡ db)
    ⊎ ((after ≡ others db)
        ⊎ (after ≡ record (others db) { documents = (others db).documents ++ (document ∷ []) }))

-- The answer of a call: a document of the file in the base, which are both the user's, and a row of the
-- tables; or an error and no change of the session's own.
abbrev pub AddsFile :
    ℕ → String → String → (Db → Db) → Db → Db × Result KnowledgeError KnowledgeDocument → Type 0
AddsFile owner_id knowledge_base_id file_id others db (after, ok document) =
    (owns_base owner_id knowledge_base_id db ≡ true)
    × (owns_ready_file owner_id file_id db ≡ true)
    × (document.knowledge_base_id ≡ knowledge_base_id)
    × (document.file_id ≡ file_id)
    × (has_row document after ≡ true)
    × Inserts others db document after
AddsFile owner_id knowledge_base_id file_id others db (after, err e) =
    (after ≡ db) ⊎ (after ≡ others db)

self_row :
    (d : KnowledgeDocument) (rows : List KnowledgeDocument) (db : Db)
    → has_row d (record db { documents = rows ++ (d ∷ []) }) ≡ true
self_row d [] db = rw (eq_refl d.id, eq_refl d.knowledge_base_id, eq_refl d.file_id) refl
self_row d (r ∷ rows) db = ground (arith, self_row d rows db)

found_row :
    (knowledge_base_id file_id : String) (db : Db) {d : KnowledgeDocument}
    → get_document_by_base_and_file knowledge_base_id file_id db ≡ some d
    → (d.knowledge_base_id ≡ knowledge_base_id) × (d.file_id ≡ file_id) × (has_row d db ≡ true)
unfolding get_document_by_base_and_file
found_row knowledge_base_id file_id db {d} h =
    let test = (find-test _ db.documents d h).0 in
    (
      (eq_iff d.knowledge_base_id knowledge_base_id).0 (ground arith),
      (eq_iff d.file_id file_id).0 (ground arith),
      find-any _ _ db.documents d h
          (rw (eq_refl d.id, eq_refl d.knowledge_base_id, eq_refl d.file_id) refl),
    )

-- What the reads of `add_file_to_base` have found.
addable-owned :
    (owner_id : ℕ) (knowledge_base_id file_id : String) (db : Db) {b : KnowledgeBase}
    {f : FileResource}
    → addable owner_id knowledge_base_id file_id db ≡ ok (b, f)
    → (owns_base owner_id knowledge_base_id db ≡ true)
      × (owns_ready_file owner_id file_id db ≡ true)
      × (b.id ≡ knowledge_base_id)
      × (f.id ≡ file_id)
unfolding get_owned_base get_owned_file
addable-owned owner_id knowledge_base_id file_id db {b} {f} h =
    let (b', p, h₁) =
      >>=-eq-ok
        (or_raise (get_owned_base knowledge_base_id owner_id db) KnowledgeError.base_not_found) _
        h in
    let (f', q, h₂) =
      >>=-eq-ok (or_raise (get_owned_file file_id owner_id db.files) KnowledgeError.file_not_found)
        _ h₁ in
    let same : (b', f') ≡ (b, f) = ok-injective (b', f') (b, f) refl h₂ in
    let base_found = or_raise-eq-ok _ _ p in
    let file_found = or_raise-eq-ok _ _ q in
    let base_test = (find-test _ db.bases b' base_found).0 in
    let file_test = (find-test _ db.files f' file_found).0 in
    (
      find-any _ _ db.bases b' base_found base_test,
      find-any _ _ db.files f' file_found file_test,
      ap (λ x. x.0.id) (sym same) ∙ (eq_iff b'.id knowledge_base_id).0 (ground arith),
      ap (λ x. x.1.id) (sym same) ∙ (eq_iff f'.id file_id).0 (ground arith),
    )

create_document-appends :
    (d : KnowledgeDocument) (db : Db) {after : Db}
    → create_document d db ≡ some after
    → after ≡ record db { documents = db.documents ++ (d ∷ []) }
unfolding create_document
create_document-appends d db {after} h = elim (Bool-cases (any (document_clashes d) db.documents)) [
  | inl e ↦ cc (rw (create_document, e) at h)
  | inr e ↦ ground (arith)
]

insert-created :
    (d : KnowledgeDocument) (db : Db) {after : Db}
    → create_document d db ≡ some after
    → insert_document d false db ≡ (after, ok d)
insert-created d db h = rw (insert_document, h) refl

insert-clash :
    (d : KnowledgeDocument) (db : Db) (existing : Option KnowledgeDocument)
    → create_document d db ≡ none
    → get_document_by_base_and_file d.knowledge_base_id d.file_id db ≡ existing
    → insert_document d false db ≡ (db, or_raise existing KnowledgeError.document_write)
insert-clash d db existing h k = rw (insert_document, h, existing_document, k) refl

module _ (owner_id : ℕ) (knowledge_base_id file_id id : String) (fails : Bool) (others : Db → Db)
    (db : Db) where
  -- The insertion of a document in the tables as the other sessions leave them.
  inserted :
      (d : KnowledgeDocument) (refused : Bool)
      → d.knowledge_base_id ≡ knowledge_base_id
      → d.file_id ≡ file_id
      → owns_base owner_id knowledge_base_id db ≡ true
      → owns_ready_file owner_id file_id db ≡ true
      → AddsFile owner_id knowledge_base_id file_id others db
          (insert_document d refused (others db))
  inserted d true p q b f = inr refl
  inserted d false p q b f = elim (Option-cases (create_document d (others db))) [
    | inr (after, e) ↦
        let made = create_document-appends d (others db) e in
        subst (AddsFile owner_id knowledge_base_id file_id others db)
          (sym (insert-created d (others db) e))
          (
            b,
            f,
            p,
            q,
            subst (λ t. has_row d t ≡ true) (sym made)
                (self_row d (others db).documents (others db)),
            inr (inr made),
          )
    | inl e ↦
        elim (Option-cases
          (get_document_by_base_and_file d.knowledge_base_id d.file_id (others db))) [
            | inl n ↦
                subst (AddsFile owner_id knowledge_base_id file_id others db)
                  (sym (insert-clash d (others db) none e n)) (inr refl)
            | inr (o, n) ↦
                let (kb, file, row) = found_row d.knowledge_base_id d.file_id (others db) n in
                subst (AddsFile owner_id knowledge_base_id file_id others db)
                  (sym (insert-clash d (others db) (some o) e n))
                  (b, f, kb ∙ p, file ∙ q, row, inr (inl refl))
          ]
  ]

  -- Whatever the other sessions commit meanwhile and whether the database refuses: `add_file_to_base` gives
  -- a document of the given file in the given base, of which the tables have a row afterwards, and then the
  -- base and the ready file were the user's, and it has inserted at most that row; or it gives an error, and
  -- has changed nothing itself.
  pub add_file_to_base-AddsFile :
      AddsFile owner_id knowledge_base_id file_id others db
        (add_file_to_base owner_id knowledge_base_id file_id id fails others db)
  unfolding add_file_to_base
  add_file_to_base-AddsFile = elim (Result-cases (addable owner_id knowledge_base_id file_id db)) [
    | inr (e, q) ↦ rw (add_file_to_base, q) (inl refl)
    | inl ((base, file), q) ↦
        let (b, f, kb, fl) = addable-owned owner_id knowledge_base_id file_id db q in
        elim (Option-cases (get_document_by_base_and_file base.id file.id db)) [
          | inr (o, n) ↦
              let (okb, ofl, row) = found_row base.id file.id db n in
              rw (add_file_to_base, q, n) (b, f, okb ∙ kb, ofl ∙ fl, row, inl refl)
          | inl n ↦
              rw (add_file_to_base, q, n)
                (inserted (new_document id base.id file.id) fails kb fl b f)
        ]
  ]
