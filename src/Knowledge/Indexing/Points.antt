-- ===== src/Knowledge/Indexing/Points.antt =====
-- backend/app/services/knowledge_service.py: what a run leaves of the vectors of its version.
use ai_knowledge_hub.Base.{
  ℕ, ◌≤◌, ◌≡◌, refl, ◌∙◌, String, Bool, true, false, ◌||◌, not, none, List, [], ◌∷◌, ◌++◌, map, any,
  all, leb, eq_refl, arith, Bool-cases, Option-cases, inl, inr, Result, ok, err, is_blank,
}
use ai_knowledge_hub.Base.Table.{all-implied}
use ai_knowledge_hub.Knowledge.Error.{KnowledgeError, VectorError}
use ai_knowledge_hub.Knowledge.Vectors.{
  no_points, after_cleanup, VectorPoint, VectorStore, is_point_of, has_chunk_id, batches,
  upsert_batches, cleanup_failed_vector_write, upsert_vector_points, write_points,
}
use ai_knowledge_hub.Knowledge.Indexing.Batches.{concat, batches-parts}

-- The errors of the writing after which `index_document_version` marks the version failed.
abbrev pub is_caught : KnowledgeError → Bool
is_caught KnowledgeError.version_write = true
is_caught (KnowledgeError.ai_failed _) = true
is_caught (KnowledgeError.vector_failed _) = true
is_caught _ = false

any-append_eq :
    {A : Type 0} (p : A → Bool) (xs ys : List A) → any p (xs ++ ys) ≡ (any p xs || any p ys)
any-append_eq p [] ys = refl
any-append_eq p (x ∷ xs) ys = ground (arith, any-append_eq p xs ys)

all-append_both :
    {A : Type 0} (p : A → Bool) (xs ys : List A)
    → all p (xs ++ ys) ≡ true
    → (all p xs ≡ true) × (all p ys ≡ true)
all-append_both p [] ys h = (refl, h)
all-append_both p (x ∷ xs) ys h =
    let (front, back) = all-append_both p xs ys (ground arith) in (ground arith, back)

all-not-any :
    {A : Type 0} (p : A → Bool) (xs : List A) → any (λ x. not (p x)) xs ≡ false → all p xs ≡ true
all-not-any p [] h = refl
all-not-any p (x ∷ xs) h = ground (arith, all-not-any p xs)

or_swapped : (x y z : Bool) → (x || (y || z)) ≡ ((y || x) || z)
or_swapped true y z = ground arith
or_swapped false y z = ground arith

module _ {Vector : Type 0} (vector_store : VectorStore Vector) where
  open vector_store use {
    Store, holds, upsert, delete_by_document_version, holds-upsert, holds-delete,
  }

  -- What the writing may leave: every chunk's vector stored; an error that is caught, and no vector of the
  -- version; or the failure of the cleanup.
  pub data Written (a : String) (ids : List String)
      : Store × Result KnowledgeError (Unit {0}) → Type 0 where
    stored : {s : Store} → all (holds s a) ids ≡ true → Written a ids (s, ok tt)
    refused :
        {s : Store} (e : KnowledgeError)
        → is_caught e ≡ true
        → ((c : String) → holds s a c ≡ false)
        → Written a ids (s, err e)
    unclear : {s : Store} → Written a ids (s, err KnowledgeError.vector_cleanup_required)

  points-any :
      (points : List (VectorPoint Vector))
      → all (λ id. any (has_chunk_id id) points) (map (λ p. p.chunk_id) points) ≡ true
  points-any [] = refl
  points-any (p ∷ points) =
      let rest =
        all-implied (λ id. any (has_chunk_id id) points) (λ id. any (has_chunk_id id) (p ∷ points))
          (map (λ p. p.chunk_id) points) (λ id h. ground arith) (points-any points) in
      ground (arith, rest, eq_refl p.chunk_id)

  upsert_batches-holds :
      (a : String) (parts : List (List (VectorPoint Vector))) (s : Store) (c : String)
      → all (is_point_of a) (concat parts) ≡ true
      → (upsert_batches vector_store parts s).1 ≡ none
      → holds (upsert_batches vector_store parts s).0 a c
        ≡ (any (has_chunk_id c) (concat parts) || holds s a c)
  unfolding upsert_batches
  upsert_batches-holds a [] s c h k = refl
  upsert_batches-holds a (points ∷ rest) s c h k = elim (Option-cases (upsert points s).1) [
    | inr (e, q) ↦ absurd (cc (rw (upsert_batches, q) at k))
    | inl q ↦
        let (front, back) = all-append_both (is_point_of a) points (concat rest) h in
        let later =
          upsert_batches-holds a rest (upsert points s).0 c back (rw (upsert_batches, q) at k) in
        let now = holds-upsert points s a c front q in
        rw (upsert_batches, q, later, now, any-append_eq (has_chunk_id c) points (concat rest))
          (or_swapped (any (has_chunk_id c) (concat rest)) (any (has_chunk_id c) points)
            (holds s a c))
  ]

  -- The error of a write, once the cleanup has run.
  after_cleanup-Written :
      (a : String) (ids : List String) (e : VectorError) (s : Store)
      → Written a ids (after_cleanup vector_store e (cleanup_failed_vector_write vector_store a s))
  unfolding cleanup_failed_vector_write
  after_cleanup-Written a ids e s = elim (Option-cases (delete_by_document_version a s).1) [
    | inl q ↦
        rw (cleanup_failed_vector_write, q)
          (Written.refused (KnowledgeError.vector_failed e) refl (λ c. holds-delete a s c q))
    | inr (x, q) ↦ rw (cleanup_failed_vector_write, q) Written.unclear
  ]

  write_points-Written :
      (batch_size : ℕ) (a : String) (points : List (VectorPoint Vector)) (s : Store)
      → 1 ≤ batch_size
      → all (is_point_of a) points ≡ true
      → Written a (map (λ p. p.chunk_id) points) (write_points vector_store batch_size a points s)
  unfolding upsert_batches cleanup_failed_vector_write batches
  write_points-Written batch_size a points s positive same =
      let together : concat (batches batch_size points) ≡ points =
        (batches-parts batch_size points positive).0 in
      elim (Option-cases (upsert_batches vector_store (batches batch_size points) s).1) [
        | inr (e, q) ↦
            rw (write_points, q)
              (after_cleanup-Written a (map (λ p. p.chunk_id) points) e
                (upsert_batches vector_store (batches batch_size points) s).0)
        | inl q ↦
            rw (write_points, q)
              (Written.stored (
                all-implied (λ id. any (has_chunk_id id) points)
                  (holds (upsert_batches vector_store (batches batch_size points) s).0 a)
                  (map (λ p. p.chunk_id) points)
                  (λ c h.
                    upsert_batches-holds a (batches batch_size points) s c (rw together same) q
                    ∙ rw (together, h) refl)
                  (points-any points)))
      ]

  no_points-all :
      (points : List (VectorPoint Vector))
      → no_points vector_store points ≡ true
      → (p : String → Bool) → all p (map (λ x. x.chunk_id) points) ≡ true
  no_points-all [] h p = refl
  no_points-all (_ ∷ _) h p = absurd (cc)

  -- Every writing leaves what it should, from a store without vectors of the version.
  pub upsert_vector_points-Written :
      (batch_size : ℕ) (a : String) (points : List (VectorPoint Vector)) (s : Store)
      → ((c : String) → holds s a c ≡ false)
      → Written a
          (map (λ p. p.chunk_id) points)
          (upsert_vector_points vector_store batch_size a points s)
  unfolding upsert_vector_points
  upsert_vector_points-Written batch_size a points s empty =
      let refuse = Written.refused (KnowledgeError.vector_failed VectorError.input) refl empty in
      elim (Bool-cases (is_blank a)) [
        | inl b ↦ rw (upsert_vector_points, b) refuse
        | inr b ↦ elim (Bool-cases (any (λ p. not (is_point_of a p)) points)) [
          | inl c ↦ rw (upsert_vector_points, b, c) refuse
          | inr c ↦ elim (Bool-cases (no_points vector_store points)) [
            | inl n ↦
                rw (upsert_vector_points, b, c, n)
                  (Written.stored (no_points-all points n (holds s a)))
            | inr n ↦ elim (Bool-cases (leb batch_size 0)) [
              | inl z ↦ rw (upsert_vector_points, b, c, n, z) refuse
              | inr z ↦
                  rw (upsert_vector_points, b, c, n, z)
                    (write_points-Written batch_size a points s (ground arith)
                      (all-not-any (is_point_of a) points c))
            ]
          ]
        ]
      ]
