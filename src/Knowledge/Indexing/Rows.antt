-- ===== src/Knowledge/Indexing/Rows.antt =====
-- backend/app/services/knowledge_service.py: what the transactions of a run do to the row of its version.
use ai_knowledge_hub.Base.{
  ok-injective, ◌∙◌, ℕ, ◌+◌, ◌≤◌, ◌≡◌, refl, subst, ap, String, Bool, true, false, ◌&&◌, ◌||◌,
  Option, none, some, List, [], ◌∷◌, find_first, count, str_eq, arith, Bool-cases, Option-cases,
  inl, inr, ◌⊎◌, ◌==◌, ltb, length, codes, is_blank, Result, ok, err, is_some, eq_iff,
}
use ai_knowledge_hub.Base.Table.{
  count-update_same, count-congr, count-zero, update, count-le, find-test, count-update,
}
use ai_knowledge_hub.Knowledge.Error.{KnowledgeError}
use ai_knowledge_hub.Knowledge.Tables.{VersionStatus, KnowledgeDocument, DocumentVersion, Db}
use ai_knowledge_hub.Knowledge.Repository.{
  is_available, version_of, version_at, set_version, update_version, get_owned_document,
  complete_processing_version, fail_processing_version, promote_active_version, is_failure,
}
use ai_knowledge_hub.Knowledge.Repository
use ai_knowledge_hub.Knowledge.Indexing.{
  claim_pending_version, complete_version_indexing, mark_version_indexing_failed, failure_status,
}

abbrev pub has_version_id : String → DocumentVersion → Bool
has_version_id a v = str_eq v.id a

-- The version is processing, and the only row of its id.
pub record IsProcessing (d a : String) (db : Db) : Type 0 where
  pub unique : count (has_version_id a) db.versions ≡ 1
  pub processing : count (version_at d a VersionStatus.processing) db.versions ≡ 1

abbrev pub IsAvailable : ℕ → String → Db → Type 0
IsAvailable owner_id d db = is_some (get_owned_document d owner_id db) ≡ true

-- The only row of an id is the row that an update by the id changes, when it matches one.
pub find-updated :
    {A : Type 0} (p test : A → Bool) (change : A → A) (xs : List A)
    → ((x : A) → test x ≡ true → p x ≡ true)
    → ((x : A) → p (change x) ≡ p x)
    → count p xs ≡ 1
    → count test xs ≡ 1
    → (x : A) × (find_first p (update test change xs) ≡ some (change x)) × (test x ≡ true)
find-updated p test change [] narrower same h k = absurd (omega arith)
find-updated p test change (x ∷ xs) narrower same h k = elim (Bool-cases (test x)) [
  | inl b ↦ (x, ground (arith, narrower x, same x), b)
  | inr b ↦
      let here : p x ≡ false = ground (arith, count-le test p xs narrower) in
      let (y, q, t) = find-updated p test change xs narrower same (ground arith) (ground arith) in
      (y, rw (b, here) q, t)
]

-- An update of the processing row gives it back with the new status.
pub update_version-lem :
    (d a : String) (status : VersionStatus) (reason : Option String) (db : Db)
    → IsProcessing d a db
    → (x : DocumentVersion) × ((update_version
          (version_at d a VersionStatus.processing)
          (set_version status reason)
          a
          db).1
        ≡ some x)
      × (x.status ≡ status)
      × (x.id ≡ a)
      × (x.document_id ≡ d)
      × (find_first
            (has_version_id a)
            (update_version
              (version_at d a VersionStatus.processing)
              (set_version status reason)
              a
              db).0.versions
          ≡ some x)
update_version-lem d a status reason db row =
    let (x, q, t) =
      find-updated (has_version_id a) (version_at d a VersionStatus.processing)
        (set_version status reason) db.versions (λ v h. ground arith) (λ v. refl) row.unique
        row.processing in
    let one : (count (version_at d a VersionStatus.processing) db.versions == 1) ≡ true =
      ground (arith, row.processing) in
    (
      set_version status reason x,
      rw one q,
      refl,
      (eq_iff x.id a).0 (ground arith),
      (eq_iff x.document_id d).0 (ground arith),
      q,
    )

pub get_owned_document-id :
    (d : String) (owner_id : ℕ) (db : Db) (document : KnowledgeDocument)
    → get_owned_document d owner_id db ≡ some document
    → document.id ≡ d
unfolding get_owned_document
get_owned_document-id d owner_id db document h = (eq_iff document.id d).0 (
    ground
      (arith, find-test (λ x. str_eq x.id d && is_available owner_id db x) db.documents document h))

-- The answer is the row of the version, as the tables have it, with the status.
pub record SettlesAs (a : String) (status : VersionStatus) (after : Db)
    (answer : Result KnowledgeError (Option DocumentVersion)) : Type 0 where
  pub version : DocumentVersion
  pub answered : answer ≡ ok (some version)
  pub settled : version.status ≡ status
  pub same_id : version.id ≡ a
  pub recorded : find_first (has_version_id a) after.versions ≡ some version

abbrev pub IsReason : String → Type 0
IsReason reason = (is_blank reason || ltb 64 (length (codes reason))) ≡ false

pub fail_processing_version-lem :
    (d a : String) (b : Bool) (reason : String) (db : Db)
    → IsReason reason
    → fail_processing_version d a (failure_status b) reason db
      ≡ some (
          update_version
            (version_at d a VersionStatus.processing)
            (set_version (failure_status b) (some reason))
            a
            db)
unfolding fail_processing_version
fail_processing_version-lem d a true reason db h = rw h refl
fail_processing_version-lem d a false reason db h = rw h refl

-- A transaction that is not refused marks a processing version of a document that is there.
pub mark_version_indexing_failed-SettlesAs :
    (owner_id : ℕ) (d a : String) (b : Bool) (reason : String) (db : Db)
    → IsReason reason
    → IsAvailable owner_id d db
    → IsProcessing d a db
    → SettlesAs a
        (failure_status b)
        (mark_version_indexing_failed owner_id d a b reason false db).0
        (mark_version_indexing_failed owner_id d a b reason false db).1
unfolding mark_version_indexing_failed
mark_version_indexing_failed-SettlesAs owner_id d a b reason db h available row =
    elim (Option-cases (get_owned_document d owner_id db)) [
      | inl q ↦ absurd (cc (rw q at available))
      | inr (document, q) ↦
          let (x, answered, status, id, of, found) =
            update_version-lem d a (failure_status b) (some reason) db row in
          rw
            (
              mark_version_indexing_failed,
              q,
              get_owned_document-id d owner_id db document q,
              fail_processing_version-lem d a b reason db h,
            )
            (record {
              version = x;
              answered = ap ok answered;
              settled = status;
              same_id = id;
              recorded = found;
            })
    ]

-- What a completion leaves: the version indexed, or the tables as they are and an error that is caught.
pub complete_version_indexing-cases :
    (owner_id : ℕ) (d a : String) (fails : Bool) (db : Db)
    → IsAvailable owner_id d db
    → IsProcessing d a db
    → SettlesAs a VersionStatus.indexed
        (complete_version_indexing owner_id d a fails db).0
        (complete_version_indexing owner_id d a fails db).1
      ⊎ (complete_version_indexing owner_id d a fails db ≡ (db, err KnowledgeError.version_write))
unfolding complete_version_indexing complete_processing_version promote_active_version
complete_version_indexing-cases owner_id d a fails db available row =
    elim (Option-cases (get_owned_document d owner_id db)) [
      | inl q ↦ absurd (cc (rw q at available))
      | inr (document, q) ↦ elim (Bool-cases fails) [
        | inl f ↦ inr (rw (complete_version_indexing, q, f) refl)
        | inr f ↦
            let (x, answered, status, id, of, found) =
              update_version-lem d a VersionStatus.indexed none db row in
            inl (
              rw
                (
                  complete_version_indexing,
                  q,
                  f,
                  get_owned_document-id d owner_id db document q,
                  complete_processing_version,
                  answered,
                )
                (record {
                  version = x;
                  answered = refl;
                  settled = status;
                  same_id = id;
                  recorded = found;
                }))
      ]
    ]

count-disjoint :
    {A : Type 0} (p q r : A → Bool) (xs : List A)
    → ((x : A) → p x ≡ true → r x ≡ true)
    → ((x : A) → q x ≡ true → r x ≡ true)
    → ((x : A) → p x ≡ true → q x ≡ false)
    → count p xs + count q xs ≤ count r xs
count-disjoint p q r [] h k l = omega arith
count-disjoint p q r (x ∷ xs) h k l = ground (arith, h x, k x, l x, count-disjoint p q r xs h k l)

-- The one pending row, when it is claimed.
claimed-IsProcessing :
    (d a : String) (db : Db)
    → count (has_version_id a) db.versions ≡ 1
    → count (version_at d a VersionStatus.pending) db.versions ≡ 1
    → IsProcessing d a (Repository.claim_pending_version d a db).0
unfolding Repository.claim_pending_version
claimed-IsProcessing d a db unique one =
    let test = version_at d a VersionStatus.pending in
    let change = set_version VersionStatus.processing none in
    let p = version_at d a VersionStatus.processing in
    let apart =
      count-disjoint p test (has_version_id a) db.versions (λ v h. ground arith)
        (λ v h. ground arith) (λ v h. ground arith) in
    let none_before = count-zero (λ v. test v && p v) db.versions (λ v. ground arith) in
    let all_after =
      count-congr (λ v. test v && p (change v)) test db.versions (λ v. ground arith) in
    (record {
      unique = count-update_same (has_version_id a) test change db.versions (λ v h. refl) ∙ unique;
      processing = omega (
        arith,
        count-update p test change db.versions,
        apart,
        none_before,
        all_after,
        one,
        unique,
      );
    })

pending_row :
    (d a : String) (db : Db) (version : DocumentVersion)
    → count (has_version_id a) db.versions ≡ 1
    → (Repository.claim_pending_version d a db).1 ≡ some version
    → IsProcessing d a (Repository.claim_pending_version d a db).0
      × (version.id ≡ a)
      × (version.document_id ≡ d)
unfolding Repository.claim_pending_version
pending_row d a db version unique h =
    let test = version_at d a VersionStatus.pending in
    elim (Bool-cases (count test db.versions == 1)) [
      | inr c ↦ absurd (cc (rw (Repository.claim_pending_version, c) at h))
      | inl c ↦
          let (x, r, t) =
            find-updated (has_version_id a) test (set_version VersionStatus.processing none)
              db.versions (λ v k. ground arith) (λ v. refl) unique (ground arith) in
          let same : set_version VersionStatus.processing none x ≡ version =
            cc (rw (Repository.claim_pending_version, c, r) at h) in
          (
            claimed-IsProcessing d a db unique (ground arith),
            (eq_iff version.id a).0 (subst (λ v. str_eq v.id a ≡ true) same (ground arith)),
            (eq_iff version.document_id d).0
                (subst (λ v. str_eq v.document_id d ≡ true) same (ground arith)),
          )
    ]

-- A claim that gives the row leaves the version processing.
pub claim_pending_version-IsProcessing :
    (owner_id : ℕ) (d a : String) (fails : Bool) (db : Db) (version : DocumentVersion)
    → count (has_version_id a) db.versions ≡ 1
    → (claim_pending_version owner_id d a fails db).1 ≡ ok (some version)
    → IsAvailable owner_id d (claim_pending_version owner_id d a fails db).0
      × IsProcessing d a (claim_pending_version owner_id d a fails db).0
      × (version.id ≡ a)
      × (version.document_id ≡ d)
unfolding claim_pending_version get_owned_document Repository.claim_pending_version
claim_pending_version-IsProcessing owner_id d a fails db version unique h =
    elim (Option-cases (get_owned_document d owner_id db)) [
      | inl q ↦ absurd (cc (rw (claim_pending_version, q) at h))
      | inr (document, q) ↦ elim (Bool-cases fails) [
        | inl f ↦ absurd (cc (rw (claim_pending_version, q, f) at h))
        | inr f ↦
            let id = get_owned_document-id d owner_id db document q in
            let row : (Repository.claim_pending_version d a db).1 ≡ some version =
              ok-injective _ _ refl (rw (claim_pending_version, q, f, id) at h) in
            let (held, same, of) = pending_row d a db version unique row in
            rw (claim_pending_version, q, f, id) (ap is_some q, held, same, of)
      ]
    ]
