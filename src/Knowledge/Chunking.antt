-- ===== src/Knowledge/Chunking.antt =====
-- backend/app/knowledge/chunking.py: a parsed document becomes drafts of chunks. The tokenizer's count and
-- the split at `_SENTENCE_BOUNDARY` by Python's `re` are parameters.
pub mod Pieces
pub mod Drafts
pub mod Coverage
pub mod Tests
use ai_knowledge_hub.Base.{
  ℕ, zero, suc, String, Bool, true, false, not, ◌&&◌, ◌||◌, List, [], ◌∷◌, ◌++◌, map, keep, reverse,
  Result, err, ok, ◌>>=◌, ◌>>◌, raise_if, ltb, leb, if◌then◌else◌, is_blank,
}
use ai_knowledge_hub.Workflow.Payload.{Payload, Value, put}
use ai_knowledge_hub.Knowledge.Text.{
  strip, lstrip, rstrip, join, is_empty_text, take, drop, text_length,
}

-- `diverges` stands for a loop that has not ended within its fuel, and `index_error` for the `IndexError`
-- of a draft of no units.
pub data ChunkingError : Type 0 where
  chunking_error index_error diverges : ChunkingError

pub record ChunkingConfig : Type 0 where
  pub max_tokens : ℕ
  pub overlap_tokens : ℕ

-- `ChunkingConfig.__post_init__`; a negative overlap is no natural number.
unfoldable pub check_config : ChunkingConfig → Result ChunkingError (Unit {0})
check_config config = do
  raise_if (leb config.max_tokens 0) ChunkingError.chunking_error
  raise_if (leb config.max_tokens config.overlap_tokens) ChunkingError.chunking_error

pub record ParsedBlock : Type 0 where
  pub text : String
  pub block_index : ℕ
  pub source_locator : Payload

pub record ChunkUnit : Type 0 where
  pub text : String
  pub block_index : ℕ
  pub source_locator : Payload

pub record ChunkDraft : Type 0 where
  pub content : String
  pub token_count : ℕ
  pub block_start : ℕ
  pub block_end : ℕ
  pub sources : List (ℕ × Payload)

abbrev pub is_nil {ℓ} : {A : Type ℓ} → List A → Bool
is_nil [] = true
is_nil (_ ∷ _) = false

-- `_join_units`
unfoldable pub join_units : List ChunkUnit → String
unfolding join
join_units units = join "\n\n" (map (λ u. u.text) units)

abbrev pub last_index : ℕ → List ChunkUnit → ℕ
last_index index [] = index
last_index index (u ∷ units) = last_index u.block_index units

module _ (split : String → List String) (count : String → ℕ) (config : ChunkingConfig) where
  unfoldable pub split_sentences : String → List String
  unfolding strip is_blank
  split_sentences text =
      let sentences = map strip (keep (λ s. not (is_blank s)) (split text)) in
      if is_nil sentences then strip text ∷ [] else sentences

  -- The loop of `_longest_fitting_prefix`: how many ends are left, the next one, and the best so far.
  unfoldable pub fitting_end : String → ℕ → ℕ → ℕ → ℕ
  unfolding take
  fitting_end text zero end best_end = best_end
  fitting_end text (suc left) end best_end =
      let rest = fitting_end text left (suc end) end in
      if ltb config.max_tokens (count (take end text)) then best_end else rest

  unfoldable pub longest_fitting_prefix : String → String
  unfolding fitting_end take rstrip
  longest_fitting_prefix text = rstrip (take (fitting_end text (text_length text) 1 0) text)

  abbrev pub piece : ChunkUnit → String → ℕ → ChunkUnit
  unfolding put
  piece unit prefix segment_index = record {
    text = prefix;
    block_index = unit.block_index;
    source_locator = put "segment_index" (Value.number segment_index) unit.source_locator;
  }

  -- The loop of `_split_oversized_unit`, on fuel, from the remaining text and the next segment's index.
  unfoldable pub split_pieces : ℕ → ChunkUnit → String → ℕ → Result ChunkingError (List ChunkUnit)
  unfolding longest_fitting_prefix drop lstrip
  split_pieces zero unit remaining segment_index =
      if is_empty_text remaining then ok [] else err ChunkingError.diverges
  split_pieces (suc fuel) unit remaining segment_index =
      let prefix = longest_fitting_prefix remaining in
      let rest =
        split_pieces fuel unit (lstrip (drop (text_length prefix) remaining)) (suc segment_index) in
      if is_empty_text remaining then ok [] else (do
        raise_if (is_empty_text prefix) ChunkingError.chunking_error
        pieces ← rest
        ok (piece unit prefix segment_index ∷ pieces))

  unfoldable pub split_oversized_unit : ChunkUnit → Result ChunkingError (List ChunkUnit)
  unfolding split_pieces
  split_oversized_unit unit =
      if leb (count unit.text) config.max_tokens
      then ok (unit ∷ [])
      else split_pieces (text_length unit.text) unit unit.text 0

  -- The loop of `_units_for_block` over the sentences.
  unfoldable pub split_units : List ChunkUnit → Result ChunkingError (List ChunkUnit)
  unfolding split_oversized_unit
  split_units [] = ok []
  split_units (unit ∷ units) = do
    pieces ← split_oversized_unit unit
    others ← split_units units
    ok (pieces ++ others)

  unfoldable pub units_for_block : ParsedBlock → Result ChunkingError (List ChunkUnit)
  unfolding split_units split_sentences
  units_for_block block = split_units (
      map
        (λ sentence. record {
          text = sentence;
          block_index = block.block_index;
          source_locator = block.source_locator;
        })
        (split_sentences block.text))

  unfoldable pub units_for_blocks : List ParsedBlock → Result ChunkingError (List ChunkUnit)
  unfolding units_for_block
  units_for_blocks [] = ok []
  units_for_blocks (block ∷ blocks) = do
    units ← units_for_block block
    others ← units_for_blocks blocks
    ok (units ++ others)

  unfoldable pub count_units : List ChunkUnit → ℕ
  unfolding join_units
  count_units units = count (join_units units)

  -- `_make_draft`, with the check of `ChunkDraft.__post_init__`.
  unfoldable pub make_draft : List ChunkUnit → Result ChunkingError ChunkDraft
  unfolding join_units
  make_draft [] = err ChunkingError.index_error
  make_draft (first ∷ units) =
      let content = join_units (first ∷ units) in
      do
        raise_if (is_blank content) ChunkingError.chunking_error
        ok (record {
          content = content;
          token_count = count content;
          block_start = first.block_index;
          block_end = last_index first.block_index units;
          sources = map (λ u. (u.block_index, u.source_locator)) (first ∷ units);
        })

  -- The loop of `_overlap_for_next_chunk` over the previous units, last first.
  unfoldable pub overlap_from : List ChunkUnit → ChunkUnit → List ChunkUnit → List ChunkUnit
  unfolding count_units
  overlap_from [] next_unit overlap = overlap
  overlap_from (unit ∷ units) next_unit overlap =
      let candidate = unit ∷ overlap in
      let rest = overlap_from units next_unit candidate in
      if ltb config.overlap_tokens (count_units candidate)
        || ltb config.max_tokens (count_units (candidate ++ (next_unit ∷ [])))
      then overlap
      else rest

  unfoldable pub overlap_for_next_chunk : List ChunkUnit → ChunkUnit → List ChunkUnit
  unfolding overlap_from
  overlap_for_next_chunk previous_units next_unit =
      overlap_from (reverse previous_units) next_unit []

  -- The loop of `chunk` over the units, from the current ones.
  unfoldable pub chunk_units :
      List ChunkUnit → List ChunkUnit → Result ChunkingError (List ChunkDraft)
  unfolding make_draft overlap_for_next_chunk count_units
  chunk_units [] current_units =
      if is_nil current_units then ok [] else (do draft ← make_draft current_units; ok (draft ∷ []))
  chunk_units (unit ∷ units) current_units =
      let full =
        not (is_nil current_units)
        && ltb config.max_tokens (count_units (current_units ++ (unit ∷ []))) in
      let kept = if full then overlap_for_next_chunk current_units unit else current_units in
      let rest = chunk_units units (kept ++ (unit ∷ [])) in
      if full
      then (do draft ← make_draft current_units; drafts ← rest; ok (draft ∷ drafts))
      else rest

  unfoldable pub chunk : List ParsedBlock → Result ChunkingError (List ChunkDraft)
  unfolding units_for_blocks chunk_units
  chunk blocks = do
    units ← units_for_blocks blocks
    raise_if (is_nil units) ChunkingError.chunking_error
    chunk_units units []
