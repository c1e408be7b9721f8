-- ===== src/Knowledge/Fingerprint.antt =====
-- backend/app/knowledge/indexing.py and embedding.py: the fingerprint of a file's processing. `json.dumps`
-- with sorted keys, which gives nothing for an exception, and the SHA-256 digest of a text are parameters.
use ai_knowledge_hub.Base.{
  ℕ, String, Bool, not, ◌&&◌, ◌||◌, Option, none, some, [], ◌∷◌, all, length, codes, leb, ◌==◌,
  is_blank, Result, ok, raise_if, or_raise, ◌>>=◌, ◌>>◌,
}
use ai_knowledge_hub.Workflow.Payload.{Payload, Value, Fields}
use ai_knowledge_hub.Ai.Embedding.{EmbeddingModelConfig}
use ai_knowledge_hub.Knowledge.Error.{KnowledgeError}

pub record EmbeddingProfile : Type 0 where
  pub alias : String
  pub provider_key : String
  pub provider_model : String
  pub tokenizer_encoding : String
  pub dimension : ℕ

-- A dict as a value in another one.
abbrev pub fields_of : Payload → Fields
fields_of [] = Fields.end
fields_of ((k, v) ∷ d) = Fields.field k v (fields_of d)

-- `EmbeddingProfile.fingerprint_payload`
unfoldable pub fingerprint_payload : EmbeddingProfile → Payload
fingerprint_payload p =
    ("alias", Value.text p.alias)
    ∷ ("provider_key", Value.text p.provider_key)
    ∷ ("provider_model", Value.text p.provider_model)
    ∷ ("tokenizer_encoding", Value.text p.tokenizer_encoding)
    ∷ ("dimension", Value.number p.dimension)
    ∷ []

-- `resolve_default_embedding_profile`; nothing for an `EmbeddingProfileNotConfiguredError`.
unfoldable pub resolve_default_embedding_profile :
    (String → Option EmbeddingModelConfig) → Option String → Option EmbeddingProfile
resolve_default_embedding_profile model_configs none = none
resolve_default_embedding_profile model_configs (some alias) = elim (model_configs alias) [
  | none ↦ none
  | some c ↦ some (record {
    alias = alias;
    provider_key = c.provider_key;
    provider_model = c.provider_model;
    tokenizer_encoding = c.tokenizer_encoding;
    dimension = c.dimension;
  })
]

-- A digit or one of `a` to `f`.
abbrev is_hex : ℕ → Bool
is_hex c = (leb 48 c && leb c 57) || (leb 97 c && leb c 102)

-- Whether `_validate_file_sha256` passes.
unfoldable pub is_sha256 : String → Bool
is_sha256 s = length (codes s) == 64 && all is_hex (codes s)

module _ (dumps : Payload → Option String) (sha256 : String → String) where
  unfoldable pub build_processing_fingerprint :
      String → String → String → String → Payload → EmbeddingProfile → Result KnowledgeError String
  unfolding is_sha256 is_blank fingerprint_payload
  build_processing_fingerprint file_sha256 parser_name parser_version chunker_name chunker_config
        profile =
      do
        raise_if (not (is_sha256 file_sha256)) KnowledgeError.fingerprint_input
        raise_if (is_blank parser_name) KnowledgeError.fingerprint_input
        raise_if (is_blank parser_version) KnowledgeError.fingerprint_input
        raise_if (is_blank chunker_name) KnowledgeError.fingerprint_input
        let parser = ("name", Value.text parser_name) ∷ ("version", Value.text parser_version) ∷ []
        let chunker =
            ("name", Value.text chunker_name)
            ∷ ("config", Value.object (fields_of chunker_config))
            ∷ []
        serialized ←
            or_raise
              (dumps (
                ("schema_version", Value.text "v1")
                ∷ ("file_sha256", Value.text file_sha256)
                ∷ ("parser", Value.object (fields_of parser))
                ∷ ("chunker", Value.object (fields_of chunker))
                ∷ ("embedding", Value.object (fields_of (fingerprint_payload profile)))
                ∷ []))
              KnowledgeError.fingerprint_input
        ok (sha256 serialized)
