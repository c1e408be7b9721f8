-- ===== src/Knowledge/Chunking/Tests.antt =====
-- Chunking at a tokenizer that counts characters.
use ai_knowledge_hub.Base.{str_eq, ◌≡◌, ◌≢◌, refl, String, List, [], ◌∷◌, ok, err, All}
use ai_knowledge_hub.Knowledge.Text.{text_length}
use ai_knowledge_hub.Workflow.Payload.{number}
use ai_knowledge_hub.Knowledge.Chunking.{
  units_for_blocks, ChunkUnit, ChunkingError, ChunkingConfig, ParsedBlock, ChunkDraft, chunk, piece,
}
use ai_knowledge_hub.Knowledge.Chunking.Coverage.{Carries, Some, chunk-Carries}
use ai_knowledge_hub.Knowledge.Chunking.Drafts.{FitsDraft, chunk-FitsDraft, chunk-Ends}

abbrev config : ChunkingConfig
config = record { max_tokens = 6; overlap_tokens = 2 }

abbrev split_once : String → List String
split_once s = s ∷ []

abbrev blocks : List ParsedBlock
blocks =
    (record { text = "abcdefghi"; block_index = 0; source_locator = ("page", number 1) ∷ [] })
    ∷ (record { text = "j"; block_index = 1; source_locator = ("page", number 2) ∷ [] })
    ∷ []

chunk-Ends_example : chunk split_once text_length config blocks ≢ err ChunkingError.diverges
chunk-Ends_example = chunk-Ends split_once text_length config blocks

abbrev drafts : List ChunkDraft
drafts =
    (record {
      content = "abcdef";
      token_count = 6;
      block_start = 0;
      block_end = 0;
      sources = (0, ("page", number 1) ∷ ("segment_index", number 0) ∷ []) ∷ [];
    })
    ∷ (record {
      content = "ghi\n\nj";
      token_count = 6;
      block_start = 0;
      block_end = 1;
      sources =
          (0, ("page", number 1) ∷ ("segment_index", number 1) ∷ [])
          ∷ (1, ("page", number 2) ∷ [])
          ∷ [];
    })
    ∷ []

chunked : chunk split_once text_length config blocks ≡ ok drafts
unfolding chunk piece
chunked = refl

chunk-FitsDraft_example : All (FitsDraft split_once text_length config) drafts
chunk-FitsDraft_example = chunk-FitsDraft split_once text_length config blocks chunked

abbrev units : List ChunkUnit
units =
    (record {
      text = "abcdef";
      block_index = 0;
      source_locator = ("page", number 1) ∷ ("segment_index", number 0) ∷ [];
    })
    ∷ (record {
      text = "ghi";
      block_index = 0;
      source_locator = ("page", number 1) ∷ ("segment_index", number 1) ∷ [];
    })
    ∷ (record { text = "j"; block_index = 1; source_locator = ("page", number 2) ∷ [] })
    ∷ []

cut : units_for_blocks split_once text_length config blocks ≡ ok units
unfolding units_for_blocks piece
cut = refl

chunk-Carries_example : Some (Carries (λ u. str_eq u.text "ghi")) drafts
chunk-Carries_example =
    chunk-Carries split_once text_length config (λ u. str_eq u.text "ghi") blocks cut chunked refl
