-- ===== src/Knowledge/Indexing/Embedded.antt =====
-- backend/app/services/knowledge_service.py: the embedding and the points of a run, and the errors of both.
use ai_knowledge_hub.Base.{
  ok-injective, ℕ, suc, ◌≡◌, refl, ap, subst, ◌∙◌, String, Bool, true, false, not, some, List, [],
  ◌∷◌, map, length, str_eq, arith, Result-cases, inl, inr, Result, ok, err, raise_if, ◌>>=◌,
  >>=-eq-ok, raise_if-eq-ok, ◌==◌, leb,
}
use ai_knowledge_hub.Ai.Provider.{AiError}
use ai_knowledge_hub.Ai.Embedding.{EmbeddingRequest, embed, embed-IsVector}
use ai_knowledge_hub.Knowledge.Error.{KnowledgeError, VectorError}
use ai_knowledge_hub.Knowledge.Tables.{KnowledgeDocument, DocumentVersion, DocumentChunk}
use ai_knowledge_hub.Knowledge.Vectors.{VectorPoint}
use ai_knowledge_hub.Knowledge.Indexing.{
  KnowledgeIndexingComponents, upsert_vector_points, ChunkVector, zip_vectors, points_of,
  build_vector_points, batch_chunks_for_embedding, embed_batch, embed_each, embed_chunk_batches,
  write_vectors, lift_ai,
}
use ai_knowledge_hub.Knowledge.Indexing.Points.{is_caught, Written, upsert_vector_points-Written}

-- Every error is one that is caught.
abbrev pub IsCaught : {A : Type 0} → Result KnowledgeError A → Type 0
IsCaught r = (e : KnowledgeError) → r ≡ err e → is_caught e ≡ true

ok-IsCaught : {A : Type 0} (a : A) → IsCaught (ok a)
ok-IsCaught a e h = cc

err-IsCaught : {A : Type 0} (e : KnowledgeError) → is_caught e ≡ true → IsCaught {A = A} (err e)
err-IsCaught e k f h = subst (λ r. elim r [ err x ↦ is_caught x ≡ true | ok x ↦ Unit ]) h k

raise_if-IsCaught : (b : Bool) (e : KnowledgeError) → is_caught e ≡ true → IsCaught (raise_if b e)
raise_if-IsCaught true e k = err-IsCaught e k
raise_if-IsCaught false e k = ok-IsCaught tt

>>=-IsCaught :
    {A B : Type 0} (first : Result KnowledgeError A) (next : A → Result KnowledgeError B)
    → IsCaught first
    → ((a : A) → first ≡ ok a → IsCaught (next a))
    → IsCaught (first >>= next)
>>=-IsCaught (err e) next h k = err-IsCaught e (h e refl)
>>=-IsCaught (ok a) next h k = k a refl

module _ {Number : Type 0} where
  zip_vectors-IsCaught :
      (chunks : List DocumentChunk) (vectors : List (List Number))
      → length vectors ≡ length chunks
      → IsCaught (zip_vectors chunks vectors)
  unfolding zip_vectors
  zip_vectors-IsCaught [] [] h = ok-IsCaught []
  zip_vectors-IsCaught [] (v ∷ vectors) h = absurd (omega arith)
  zip_vectors-IsCaught (c ∷ chunks) [] h = absurd (omega arith)
  zip_vectors-IsCaught (c ∷ chunks) (v ∷ vectors) h =
      >>=-IsCaught (zip_vectors chunks vectors) _
        (zip_vectors-IsCaught chunks vectors (omega arith)) (λ rest q. ok-IsCaught _)

  points_of-IsCaught :
      (document : KnowledgeDocument) (version : DocumentVersion) (chunks : List DocumentChunk)
      (vectors : List (ChunkVector Number))
      → length chunks ≡ length vectors
      → IsCaught (points_of document version chunks vectors)
  unfolding points_of
  points_of-IsCaught document version [] [] h = ok-IsCaught []
  points_of-IsCaught document version [] (v ∷ vectors) h = absurd (omega arith)
  points_of-IsCaught document version (c ∷ chunks) [] h = absurd (omega arith)
  points_of-IsCaught document version (c ∷ chunks) (v ∷ vectors) h =
      >>=-IsCaught
        (raise_if (not (str_eq c.document_version_id version.id))
          (KnowledgeError.vector_failed VectorError.input))
        _ (raise_if-IsCaught _ _ refl)
        (λ u p.
          >>=-IsCaught
            (raise_if (not (str_eq v.chunk_id c.id))
              (KnowledgeError.vector_failed VectorError.input))
            _ (raise_if-IsCaught _ _ refl)
            (λ t q.
              >>=-IsCaught (points_of document version chunks vectors) _
                (points_of-IsCaught document version chunks vectors (omega arith))
                (λ rest r. ok-IsCaught _)))

  build_vector_points-IsCaught :
      (document : KnowledgeDocument) (version : DocumentVersion) (chunks : List DocumentChunk)
      (vectors : List (ChunkVector Number))
      → IsCaught (build_vector_points document version chunks vectors)
  unfolding build_vector_points
  build_vector_points-IsCaught document version chunks vectors =
      >>=-IsCaught
        (raise_if (not (str_eq version.document_id document.id))
          (KnowledgeError.vector_failed VectorError.input))
        _ (raise_if-IsCaught _ _ refl)
        (λ u p.
          >>=-IsCaught
            (raise_if (not (length chunks == length vectors))
              (KnowledgeError.vector_failed VectorError.input))
            _ (raise_if-IsCaught _ _ refl)
            (λ t q. points_of-IsCaught document version chunks vectors (
              let same =
                raise_if-eq-ok (not (length chunks == length vectors))
                  (KnowledgeError.vector_failed VectorError.input) q in
              ground arith)))

  -- The points are those of the chunks.
  points_of-ids :
      (document : KnowledgeDocument) (version : DocumentVersion) (chunks : List DocumentChunk)
      (vectors : List (ChunkVector Number)) {points : List (VectorPoint (List Number))}
      → points_of document version chunks vectors ≡ ok points
      → map (λ p. p.chunk_id) points ≡ map (λ c. c.id) chunks
  unfolding points_of
  points_of-ids document version [] [] {points} h =
      subst (λ ps. map (λ p. p.chunk_id) ps ≡ []) (ok-injective [] points refl h) refl
  points_of-ids document version [] (v ∷ vectors) h = absurd (cc)
  points_of-ids document version (c ∷ chunks) [] h = absurd (cc)
  points_of-ids document version (c ∷ chunks) (v ∷ vectors) {points} h =
      let (_, _, h₁) =
        >>=-eq-ok
          (raise_if (not (str_eq c.document_version_id version.id))
            (KnowledgeError.vector_failed VectorError.input))
          _ h in
      let (_, _, h₂) =
        >>=-eq-ok
          (raise_if (not (str_eq v.chunk_id c.id)) (KnowledgeError.vector_failed VectorError.input))
          _ h₁ in
      let (rest, r, h₃) = >>=-eq-ok (points_of document version chunks vectors) _ h₂ in
      subst (λ ps. map (λ p. p.chunk_id) ps ≡ c.id ∷ map (λ x. x.id) chunks)
        (ok-injective _ points refl h₃)
        (ap (λ ids. c.id ∷ ids) (points_of-ids document version chunks vectors r))

  build_vector_points-ids :
      (document : KnowledgeDocument) (version : DocumentVersion) (chunks : List DocumentChunk)
      (vectors : List (ChunkVector Number)) {points : List (VectorPoint (List Number))}
      → build_vector_points document version chunks vectors ≡ ok points
      → map (λ p. p.chunk_id) points ≡ map (λ c. c.id) chunks
  unfolding build_vector_points
  build_vector_points-ids document version chunks vectors h =
      let (_, _, h₁) =
        >>=-eq-ok
          (raise_if (not (str_eq version.document_id document.id))
            (KnowledgeError.vector_failed VectorError.input))
          _ h in
      let (_, _, h₂) =
        >>=-eq-ok
          (raise_if (not (length chunks == length vectors))
            (KnowledgeError.vector_failed VectorError.input))
          _ h₁ in
      points_of-ids document version chunks vectors h₂

length-map : {A B : Type 0} (f : A → B) (xs : List A) → length (map f xs) ≡ length xs
length-map f [] = refl
length-map f (x ∷ xs) = ap suc (length-map f xs)

lift_ai-IsCaught : {A : Type 0} (r : Result AiError A) → IsCaught (lift_ai r)
lift_ai-IsCaught (err e) = err-IsCaught (KnowledgeError.ai_failed e) refl
lift_ai-IsCaught (ok a) = ok-IsCaught a

lift_ai-eq-ok : {A : Type 0} (r : Result AiError A) {a : A} → lift_ai r ≡ ok a → r ≡ ok a
lift_ai-eq-ok (err e) h = cc
lift_ai-eq-ok (ok x) h = cc

module _ {Number : Type 0} (components : KnowledgeIndexingComponents Number) where
  open components use {
    is_finite, model_configs, default_model_alias, alias, embedding_batch_size,
    vector_upsert_batch_size, provider, vector_store,
  }

  embed_batch-IsCaught :
      (n : ℕ) (batch : List DocumentChunk) → IsCaught (embed_batch components n batch)
  unfolding embed_batch
  embed_batch-IsCaught n batch =
      let request : EmbeddingRequest = (record {
        request_id = "request";
        texts = map (λ c. c.content) batch;
        model_alias = some alias;
      }) in
      let call = embed Number is_finite model_configs default_model_alias (provider n) request in
      >>=-IsCaught (lift_ai call) _ (lift_ai-IsCaught call) (λ vectors q.
        let (_, _, _, _, size, _, _) =
          embed-IsVector Number is_finite model_configs default_model_alias (provider n) request
            (lift_ai-eq-ok call q) in
        zip_vectors-IsCaught batch vectors (size ∙ length-map (λ c. c.content) batch))

  embed_each-IsCaught :
      (n : ℕ) (parts : List (List DocumentChunk)) → IsCaught (embed_each components n parts)
  unfolding embed_each
  embed_each-IsCaught n [] = ok-IsCaught []
  embed_each-IsCaught n (batch ∷ parts) =
      >>=-IsCaught (embed_batch components n batch) _ (embed_batch-IsCaught n batch) (λ first q.
        >>=-IsCaught (embed_each components (suc n) parts) _ (embed_each-IsCaught (suc n) parts)
          (λ rest r. ok-IsCaught _))

  embed_chunk_batches-IsCaught :
      (chunks : List DocumentChunk) → IsCaught (embed_chunk_batches components chunks)
  unfolding embed_chunk_batches batch_chunks_for_embedding
  embed_chunk_batches-IsCaught chunks =
      >>=-IsCaught (batch_chunks_for_embedding embedding_batch_size chunks) _
        (>>=-IsCaught (raise_if (leb embedding_batch_size 0) KnowledgeError.version_write) _
          (raise_if-IsCaught _ _ refl) (λ u p. ok-IsCaught _))
        (λ parts q. embed_each-IsCaught 0 parts)

  -- What the writing of a run leaves, from a store without vectors of the version.
  pub write_vectors-Written :
      (document : KnowledgeDocument) (version : DocumentVersion) (chunks : List DocumentChunk)
      (s : vector_store.Store)
      → ((c : String) → vector_store.holds s version.id c ≡ false)
      → Written vector_store version.id
          (map (λ c. c.id) chunks)
          (write_vectors components document version chunks s)
  unfolding write_vectors
  write_vectors-Written document version chunks s empty =
      let vectors = embed_chunk_batches components chunks in
      let made = vectors >>= λ v. build_vector_points document version chunks v in
      elim (Result-cases made) [
        | inr (e, q) ↦
            rw (write_vectors, q)
              (Written.refused e
                (>>=-IsCaught vectors _ (embed_chunk_batches-IsCaught chunks)
                  (λ v r. build_vector_points-IsCaught document version chunks v) e q)
                empty)
        | inl (points, q) ↦
            let (v, _, r) = >>=-eq-ok vectors _ q in
            rw (write_vectors, q)
              (subst
                (λ ids.
                  Written vector_store version.id ids (
                    upsert_vector_points vector_store vector_upsert_batch_size version.id points s))
                (build_vector_points-ids document version chunks v r)
                (upsert_vector_points-Written vector_store vector_upsert_batch_size version.id
                  points s empty))
      ]
