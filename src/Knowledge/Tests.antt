-- ===== src/Knowledge/Tests.antt =====
-- The theorems about prompts at a tokenizer that counts one token for every text.
use ai_knowledge_hub.Knowledge.Text.{join}
use ai_knowledge_hub.Base.{ℕ, ◌≤◌, ◌≡◌, refl, ◌⊎◌, String, some, [], ◌∷◌, ok, length, is_blank}
use ai_knowledge_hub.Workflow.Payload.{text}
use ai_knowledge_hub.Knowledge.Budget.{ModelConfig, Budgets, calculate, calculate-Budgets}
use ai_knowledge_hub.Knowledge.Context.{RetrievalHit, BuiltContext, build, label}
use ai_knowledge_hub.Knowledge.Context.Bounds.{ids, labels, build-Bounded}

abbrev one_token : String → ℕ
one_token s = 1

abbrev config : ModelConfig
config = record {
  context_window_tokens = 100;
  default_max_output_tokens = 20;
  max_output_tokens = 50;
}

calculate_example :
    Budgets one_token 5 config "Answer."
      ("Why?" ∷ [])
      (some 30)
      (calculate one_token 5 config "Answer." ("Why?" ∷ []) (some 30))
calculate_example = calculate-Budgets one_token 5 config "Answer." ("Why?" ∷ []) (some 30)

abbrev hit : RetrievalHit
hit = record {
  chunk_id = "chunk";
  document_id = "document";
  file_id = "file";
  content = " A fact. ";
  source_locator = ("page", text "1") ∷ [];
}

abbrev context : BuiltContext
context = record {
  content = "<knowledge_context source_id=\"source-1\">\nA fact.\n</knowledge_context>";
  citations =
      record {
        citation_id = "source-1";
        chunk_id = "chunk";
        document_id = "document";
        file_id = "file";
        source_locator = ("page", text "1") ∷ [];
      }
      ∷ [];
  used_tokens = 1;
}

built : build one_token 1 (hit ∷ []) ≡ ok context
unfolding build is_blank label join
built = refl

build_example :
    (context.used_tokens ≤ 1)
    × (ids context.citations ≡ labels (length context.citations))
    × (((context.content ≡ "") × (context.citations ≡ []) × (context.used_tokens ≡ 0))
        ⊎ (context.used_tokens ≡ one_token context.content))
build_example = build-Bounded one_token 1 (hit ∷ []) built
