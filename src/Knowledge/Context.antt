-- ===== src/Knowledge/Context.antt =====
-- backend/app/knowledge/context.py: the retrieved chunks that fit into a prompt, with their citations.
-- The tokenizer is a parameter; a hit's score, which the builder does not read, is left out.
pub mod Bounds
use Prim.Native.String.{◌++◌ as ◌⧺◌}
use ai_knowledge_hub.Base.{
  ◌&&◌, ℕ, zero, suc, ◌+◌, ◌≤◌, ◌≡◌, refl, sym, ap, ◌∙◌, ◌⊎◌, inl, inr, subst, String, Bool, true,
  false, not, ◌||◌, Option, none, some, List, [], ◌∷◌, ◌++◌, map, Result, ok, err, ◌>>=◌, ◌>>◌,
  raise_if, >>=-eq-ok, any, length, length-append, is_blank, ltb, arith, if◌then◌else◌, Bool-cases,
  Result-cases,
}
use ai_knowledge_hub.Workflow.Payload.{Payload}
use ai_knowledge_hub.Knowledge.Text.{strip, join, decimal}

pub data ContextError : Type 0 where
  context_error : ContextError

pub record RetrievalHit : Type 0 where
  pub chunk_id : String
  pub document_id : String
  pub file_id : String
  pub content : String
  pub source_locator : Payload

pub record Citation : Type 0 where
  pub citation_id : String
  pub chunk_id : String
  pub document_id : String
  pub file_id : String
  pub source_locator : Payload

pub record BuiltContext : Type 0 where
  pub content : String
  pub citations : List Citation
  pub used_tokens : ℕ

abbrev pub no_locator : Payload → Bool
no_locator [] = true
no_locator (_ ∷ _) = false

-- `Citation.__post_init__`
unfoldable pub check_citation : Citation → Result ContextError Citation
check_citation c = do
  raise_if
      (is_blank c.citation_id
        || is_blank c.chunk_id
        || is_blank c.document_id
        || is_blank c.file_id)
      context_error
  raise_if (no_locator c.source_locator) context_error
  ok c

abbrev pub is_empty_text : String → Bool
is_empty_text String.[] = true
is_empty_text (String.◌∷◌ c s) = false

abbrev pub no_citations : List Citation → Bool
no_citations [] = true
no_citations (_ ∷ _) = false

-- `BuiltContext.__post_init__`
unfoldable pub check_context : BuiltContext → Result ContextError BuiltContext
check_context c = do
  raise_if (is_empty_text c.content && not (no_citations c.citations)) context_error
  ok c

unfoldable pub format_fragment : String → String → Result ContextError String
unfolding strip
format_fragment citation_id content = do
  let normalized_content = strip content
  raise_if (is_empty_text normalized_content) context_error
  ok (
      "<knowledge_context source_id=\"" ⧺ citation_id ⧺ "\">\n" ⧺ normalized_content
      ⧺ "\n</knowledge_context>")

unfoldable pub label : ℕ → String
unfolding decimal
label n = "source-" ⧺ decimal n

-- The local variables of `build`.
pub record Progress : Type 0 where
  pub fragments : List String
  pub citations : List Citation
  pub used_tokens : ℕ

abbrev pub cite : String → RetrievalHit → Citation
cite citation_id hit = record {
  citation_id = citation_id;
  chunk_id = hit.chunk_id;
  document_id = hit.document_id;
  file_id = hit.file_id;
  source_locator = hit.source_locator;
}

module _ (token_count : String → ℕ) (token_budget : ℕ) where
  -- The progress after a fragment that may be too large.
  unfoldable pub take_if_fits : Citation → String → Progress → Progress
  take_if_fits citation fragment p =
      let fragments : List String = p.fragments ++ fragment ∷ [] in
      let candidate_tokens = token_count (join "\n\n" fragments) in
      if ltb token_budget candidate_tokens then p else record {
        fragments = fragments;
        citations = p.citations ++ citation ∷ [];
        used_tokens = candidate_tokens;
      }

  -- The loop of `build`.
  unfoldable pub build_each : List RetrievalHit → Progress → Result ContextError Progress
  unfolding check_citation format_fragment take_if_fits
  build_each [] p = ok p
  build_each (hit ∷ hits) p = do
    let citation_id = label (length p.citations + 1)
    citation ← check_citation (cite citation_id hit)
    fragment ← format_fragment citation_id hit.content
    build_each hits (take_if_fits citation fragment p)

  unfoldable pub build : List RetrievalHit → Result ContextError BuiltContext
  unfolding build_each check_context
  build hits = do
    p ← build_each hits (record { fragments = []; citations = []; used_tokens = 0 })
    check_context (record {
      content = join "\n\n" p.fragments;
      citations = p.citations;
      used_tokens = p.used_tokens;
    })
