-- ===== src/Knowledge/Chunking/Coverage.antt =====
-- No unit of a document is lost between its chunks.
use ai_knowledge_hub.Base.{
  ◌⊎◌, ℕ, ◌≡◌, refl, subst, inl, inr, String, Bool, true, not, ◌&&◌, ◌||◌, List, [], ◌∷◌, ◌++◌, map,
  any, ok, >>=-eq-ok, ok-injective, raise_if, Bool-cases, arith, ltb, is_blank, if◌then◌else◌,
}
use ai_knowledge_hub.Workflow.Payload.{Payload}
use ai_knowledge_hub.Knowledge.Text.{join}
use ai_knowledge_hub.Knowledge.Chunking.{
  ChunkingError, ChunkingConfig, ChunkUnit, ChunkDraft, ParsedBlock, is_nil, join_units,
  count_units, make_draft, overlap_for_next_chunk, units_for_blocks, chunk_units, chunk,
}
use ai_knowledge_hub.Knowledge.Chunking.Drafts.{if_true, if_false}

-- Where a unit comes from, as its draft cites it.
abbrev pub source_of : ChunkUnit → ℕ × Payload
source_of u = (u.block_index, u.source_locator)

-- The draft is made of some units, one of which passes the test: their texts with a blank line between
-- them are its content, and it cites the source of each.
abbrev pub Carries : (ChunkUnit → Bool) → ChunkDraft → Type 0
Carries p d =
    (units : List ChunkUnit) × (any p units ≡ true)
    × (d.content ≡ join "\n\n" (map (λ u. u.text) units))
    × (d.sources ≡ map source_of units)

abbrev pub Some : (ChunkDraft → Type 0) → List ChunkDraft → Type 0
Some P [] = ⊥
Some P (d ∷ drafts) = P d ⊎ Some P drafts

any-append :
    (p : ChunkUnit → Bool) (us vs : List ChunkUnit) → any p (us ++ vs) ≡ (any p us || any p vs)
any-append p [] vs = refl
any-append p (u ∷ us) vs = ground (arith, any-append p us vs)

module _ (split : String → List String) (count : String → ℕ) (config : ChunkingConfig)
    (p : ChunkUnit → Bool) where
  carried :
      (kept : List ChunkUnit) (unit : ChunkUnit) (units : List ChunkUnit)
      → (p unit || any p units) ≡ true
      → (any p (kept ++ (unit ∷ [])) || any p units) ≡ true
  carried kept unit units m = ground (arith, any-append p kept (unit ∷ []))

  joined :
      (current : List ChunkUnit) (unit : ChunkUnit) (units : List ChunkUnit)
      → (any p current || (p unit || any p units)) ≡ true
      → (any p (current ++ (unit ∷ [])) || any p units) ≡ true
  joined current unit units m = ground (arith, any-append p current (unit ∷ []))

  make_draft-Carries :
      (units : List ChunkUnit) {draft : ChunkDraft}
      → make_draft split count config units ≡ ok draft
      → any p units ≡ true
      → Carries p draft
  unfolding make_draft join_units
  make_draft-Carries [] h m = cc
  make_draft-Carries (u ∷ units) {draft} h m =
      let (_, a, h₁) =
        >>=-eq-ok (raise_if (is_blank (join_units (u ∷ units))) ChunkingError.chunking_error) _ h in
      subst (Carries p) (ok-injective _ draft refl h₁) (u ∷ units, m, refl, refl)

  chunk_units-Carries :
      (units current : List ChunkUnit) {drafts : List ChunkDraft}
      → chunk_units split count config units current ≡ ok drafts
      → (any p current || any p units) ≡ true
      → Some (Carries p) drafts
  unfolding chunk_units
  chunk_units-Carries [] [] h m = cc
  chunk_units-Carries [] (c ∷ current) {drafts} h m =
      let (draft, a, h₁) = >>=-eq-ok (make_draft split count config (c ∷ current)) _ h in
      subst (Some (Carries p)) (ok-injective (draft ∷ []) drafts refl h₁)
        (inl (make_draft-Carries (c ∷ current) a (ground arith)))
  chunk_units-Carries (unit ∷ units) current {drafts} h m =
      let full =
        not (is_nil current)
        && ltb config.max_tokens (count_units split count config (current ++ (unit ∷ []))) in
      let kept = if full then overlap_for_next_chunk split count config current unit else current in
      elim (Bool-cases full) [
        | inl e ↦
            let (draft, a, h₁) =
              >>=-eq-ok (make_draft split count config current) _ (if_true _ _ e h) in
            let (rest, b, h₂) =
              >>=-eq-ok (chunk_units split count config units (kept ++ (unit ∷ []))) _ h₁ in
            subst (Some (Carries p)) (ok-injective (draft ∷ rest) drafts refl h₂)
              (elim (Bool-cases (any p current)) [
                | inl c ↦ inl (make_draft-Carries current a c)
                | inr c ↦ inr (
                    chunk_units-Carries units (kept ++ (unit ∷ [])) b
                      (carried kept unit units (ground arith)))
              ])
        | inr e ↦ chunk_units-Carries units (kept ++ (unit ∷ [])) (if_false _ _ e h) (
            subst (λ k. (any p (k ++ (unit ∷ [])) || any p units) ≡ true) (if_false _ _ e refl)
              (joined current unit units m))
      ]

  -- If one of the units that a document is cut into passes a test, then one of the document's chunks is
  -- made of units one of which passes it: the content of the chunk is their texts with a blank line between
  -- them, and it cites the block and the locator of each.
  pub chunk-Carries :
      (blocks : List ParsedBlock) {units : List ChunkUnit} {drafts : List ChunkDraft}
      → units_for_blocks split count config blocks ≡ ok units
      → chunk split count config blocks ≡ ok drafts
      → any p units ≡ true
      → Some (Carries p) drafts
  unfolding chunk
  chunk-Carries blocks {units} {drafts} e h m =
      let (found, a, h₁) = >>=-eq-ok (units_for_blocks split count config blocks) _ h in
      let (_, b, h₂) = >>=-eq-ok (raise_if (is_nil found) ChunkingError.chunking_error) _ h₁ in
      chunk_units-Carries found [] h₂
        (subst (λ us. any p us ≡ true) (ok-injective units found e a) m)
