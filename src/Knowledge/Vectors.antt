-- ===== src/Knowledge/Vectors.antt =====
-- backend/app/knowledge/vector_store.py, and how backend/app/services/knowledge_service.py writes to a
-- vector store and clears it. The store is outside the repository: an interface with its documented effects.
use ai_knowledge_hub.Base.{
  ℕ, zero, suc, ◌≡◌, String, Bool, true, false, not, ◌||◌, Option, none, some, List, [], ◌∷◌, any,
  all, length, leb, str_eq, is_blank, Result, ok, err, if◌then◌else◌,
}
use ai_knowledge_hub.Knowledge.Error.{KnowledgeError, VectorError}
use ai_knowledge_hub.Knowledge.Files.{limited, skipped}

pub record VectorPoint (Vector : Type 0) : Type 0 where
  pub chunk_id : String
  pub vector : Vector
  pub knowledge_base_id : String
  pub document_version_id : String

abbrev pub is_point_of : {Vector : Type 0} → String → VectorPoint Vector → Bool
is_point_of version_id p = str_eq p.document_version_id version_id

abbrev pub has_chunk_id : {Vector : Type 0} → String → VectorPoint Vector → Bool
has_chunk_id chunk_id p = str_eq p.chunk_id chunk_id

pub record VectorStore (Vector : Type 0) : Type 1 where
  pub Store : Type 0
  -- Whether there is a point of a version for a chunk.
  pub holds : Store → String → String → Bool
  -- `upsert` of a batch: a batch that is refused may be written in part.
  pub upsert : List (VectorPoint Vector) → Store → Store × Option VectorError
  pub delete_by_document_version : String → Store → Store × Option VectorError
  pub holds-upsert :
      (points : List (VectorPoint Vector)) (s : Store) (version_id chunk_id : String)
      → all (is_point_of version_id) points ≡ true
      → (upsert points s).1 ≡ none
      → holds (upsert points s).0 version_id chunk_id
        ≡ (any (has_chunk_id chunk_id) points || holds s version_id chunk_id)
  pub holds-delete :
      (version_id : String) (s : Store) (chunk_id : String)
      → (delete_by_document_version version_id s).1 ≡ none
      → holds (delete_by_document_version version_id s).0 version_id chunk_id ≡ false

-- The slices `xs[start : start + size]` for the starts from 0 in steps of `size`. A slice takes at least one
-- element, so there are no more of them than elements, which are the fuel.
unfoldable pub batches_on {ℓ} : {A : Type ℓ} → ℕ → ℕ → List A → List (List A)
batches_on zero size xs = []
batches_on (suc fuel) size [] = []
batches_on (suc fuel) size (x ∷ xs) =
    limited size (x ∷ xs) ∷ batches_on fuel size (skipped size (x ∷ xs))

unfoldable pub batches {ℓ} : {A : Type ℓ} → ℕ → List A → List (List A)
unfolding batches_on
batches size xs = batches_on (length xs) size xs

module _ {Vector : Type 0} (vector_store : VectorStore Vector) where
  open vector_store use {Store, upsert, delete_by_document_version}

  -- `_cleanup_failed_vector_write`
  abbrev pub cleaned : Option VectorError → Result KnowledgeError (Unit {0})
  cleaned none = ok tt
  cleaned (some e) = err KnowledgeError.vector_cleanup_required

  unfoldable pub cleanup_failed_vector_write :
      String → Store → Store × Result KnowledgeError (Unit {0})
  cleanup_failed_vector_write version_id s =
      let (after, error) = delete_by_document_version version_id s in (after, cleaned error)

  -- The loop of `upsert_vector_points`, which the first error ends.
  unfoldable pub upsert_batches :
      List (List (VectorPoint Vector)) → Store → Store × Option VectorError
  upsert_batches [] s = (s, none)
  upsert_batches (points ∷ rest) s = elim (upsert points s).1 [
    | some e ↦ ((upsert points s).0, some e)
    | none ↦ upsert_batches rest (upsert points s).0
  ]

  abbrev pub no_points : List (VectorPoint Vector) → Bool
  no_points [] = true
  no_points (_ ∷ _) = false

  -- The handler of a failed write: the error of the write, or that of the cleanup.
  abbrev pub after_cleanup :
      VectorError
      → Store × Result KnowledgeError (Unit {0})
      → Store × Result KnowledgeError (Unit {0})
  after_cleanup e (s, err cleanup) = (s, err cleanup)
  after_cleanup e (s, ok _) = (s, err (KnowledgeError.vector_failed e))

  abbrev pub write_points :
      ℕ → String → List (VectorPoint Vector) → Store → Store × Result KnowledgeError (Unit {0})
  unfolding cleanup_failed_vector_write upsert_batches batches
  write_points batch_size version_id points s =
      elim (upsert_batches (batches batch_size points) s).1 [
        | none ↦ ((upsert_batches (batches batch_size points) s).0, ok tt)
        | some e ↦ after_cleanup e (
            cleanup_failed_vector_write version_id (upsert_batches (batches batch_size points) s).0)
      ]

  unfoldable pub upsert_vector_points :
      ℕ → String → List (VectorPoint Vector) → Store → Store × Result KnowledgeError (Unit {0})
  unfolding write_points is_blank
  upsert_vector_points batch_size version_id points s =
      if is_blank version_id
      then (s, err (KnowledgeError.vector_failed VectorError.input))
      else (if any (λ p. not (is_point_of version_id p)) points
          then (s, err (KnowledgeError.vector_failed VectorError.input))
          else (if no_points points
              then (s, ok tt)
              else (if leb batch_size 0
                  then (s, err (KnowledgeError.vector_failed VectorError.input))
                  else write_points batch_size version_id points s)))
