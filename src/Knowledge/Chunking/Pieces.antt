-- ===== src/Knowledge/Chunking/Pieces.antt =====
-- The pieces of an oversized unit: the loop ends, and each piece is a prefix that fits, trimmed.
use ai_knowledge_hub.Base.{
  ℕ, zero, suc, ◌-◌, ◌≤◌, ◌≡◌, ◌≢◌, refl, subst, ◌⊎◌, inl, inr, String, true, false, List, [], ◌∷◌,
  ◌++◌, All, Result, err, ok, ◌>>=◌, >>=-eq-ok, ok-injective, raise_if, raise_if-eq-ok,
  raise_if-elim, Bool-cases, arith, leb, ltb,
}
use ai_knowledge_hub.Knowledge.Text.{lstrip, rstrip, is_empty_text, take, drop, text_length}
use ai_knowledge_hub.Knowledge.Chunking.{
  ChunkingError, ChunkingConfig, ChunkUnit, ParsedBlock, fitting_end, longest_fitting_prefix, piece,
  split_pieces, split_oversized_unit, split_units, units_for_block, units_for_blocks,
}

text_length-lstrip : (s : String) → text_length (lstrip s) ≤ text_length s
unfolding lstrip
text_length-lstrip String.[] = omega arith
text_length-lstrip (String.◌∷◌ c s) = ground (arith, text_length-lstrip s)

text_length-drop : (n : ℕ) (s : String) → text_length (drop n s) ≡ text_length s - n
unfolding drop
text_length-drop zero s = omega arith
text_length-drop (suc n) String.[] = omega arith
text_length-drop (suc n) (String.◌∷◌ c s) = omega (arith, text_length-drop n s)

empty-length : (s : String) → is_empty_text s ≡ false → 1 ≤ text_length s
empty-length String.[] e = cc
empty-length (String.◌∷◌ c s) e = omega arith

empty-zero : (s : String) → text_length s ≤ 0 → is_empty_text s ≡ true
empty-zero String.[] e = refl
empty-zero (String.◌∷◌ c s) e = absurd (omega arith)

-- What the loop has left is shorter by a piece that is not empty.
shrinks :
    (n fuel : ℕ) (s : String)
    → 1 ≤ n
    → is_empty_text s ≡ false
    → text_length s ≤ suc fuel
    → text_length (lstrip (drop n s)) ≤ fuel
shrinks n fuel s p e q =
    omega (arith, text_length-lstrip (drop n s), text_length-drop n s, empty-length s e)

module _ (split : String → List String) (count : String → ℕ) (config : ChunkingConfig) where
  abbrev Ends : Result ChunkingError (List ChunkUnit) → Type 0
  Ends r = r ≢ err ChunkingError.diverges

  -- The rest of a round that ends, ends.
  cons-Ends :
      (u : ChunkUnit) (r : Result ChunkingError (List ChunkUnit))
      → Ends r
      → Ends (r >>= λ pieces. ok (u ∷ pieces))
  cons-Ends u (err e) ends h = ends cc
  cons-Ends u (ok pieces) ends h = cc

  append-Ends :
      (first second : Result ChunkingError (List ChunkUnit))
      → Ends first
      → Ends second
      → Ends (first >>= λ pieces. second >>= λ others. ok (pieces ++ others))
  append-Ends (err e) second p q h = p cc
  append-Ends (ok pieces) (err e) p q h = q cc
  append-Ends (ok pieces) (ok others) p q h = cc

  split_pieces-Ends :
      (fuel : ℕ) (unit : ChunkUnit) (remaining : String) (index : ℕ)
      → text_length remaining ≤ fuel
      → Ends (split_pieces split count config fuel unit remaining index)
  unfolding split_pieces
  split_pieces-Ends zero unit remaining index p = rw (empty-zero remaining p) (λ h. cc)
  split_pieces-Ends (suc fuel) unit remaining index p =
      elim (Bool-cases (is_empty_text remaining)) [
        | inl e ↦ rw (e) (λ h. cc)
        | inr e ↦ rw (e) (
            let prefix = longest_fitting_prefix split count config remaining in
            raise_if-elim Ends (is_empty_text prefix) ChunkingError.chunking_error _ (λ a h. cc)
              (λ a. cons-Ends (piece split count config unit prefix index) _ (
                split_pieces-Ends fuel unit (lstrip (drop (text_length prefix) remaining))
                  (suc index)
                  (shrinks (text_length prefix) fuel remaining (empty-length prefix a) e p))))
      ]

  split_oversized_unit-Ends :
      (unit : ChunkUnit) → Ends (split_oversized_unit split count config unit)
  unfolding split_oversized_unit
  split_oversized_unit-Ends unit = elim (Bool-cases (leb (count unit.text) config.max_tokens)) [
    | inl e ↦ rw (split_oversized_unit, e) (λ h. cc)
    | inr e ↦
        rw (split_oversized_unit, e)
          (split_pieces-Ends (text_length unit.text) unit unit.text 0 (omega arith))
  ]

  split_units-Ends : (units : List ChunkUnit) → Ends (split_units split count config units)
  unfolding split_units
  split_units-Ends [] = λ h. cc
  split_units-Ends (unit ∷ units) =
      append-Ends (split_oversized_unit split count config unit)
        (split_units split count config units) (split_oversized_unit-Ends unit)
        (split_units-Ends units)

  pub units_for_blocks-Ends :
      (blocks : List ParsedBlock) → Ends (units_for_blocks split count config blocks)
  unfolding units_for_blocks units_for_block
  units_for_blocks-Ends [] = λ h. cc
  units_for_blocks-Ends (block ∷ blocks) =
      append-Ends (units_for_block split count config block)
        (units_for_blocks split count config blocks) (split_units-Ends _)
        (units_for_blocks-Ends blocks)

module _ (split : String → List String) (count : String → ℕ) (config : ChunkingConfig) where
  -- A text that the tokenizer fits into a chunk.
  abbrev pub FitsText : String → Type 0
  FitsText s = count s ≤ config.max_tokens

  -- A text that is another one, which fits, without the white space at its end.
  abbrev pub IsTrimmed : String → Type 0
  IsTrimmed s = (t : String) × (s ≡ rstrip t) × FitsText t

  abbrev pub Fits : ChunkUnit → Type 0
  Fits u = FitsText u.text ⊎ IsTrimmed u.text

  fitting_end-Fits :
      (text : String) (left end best : ℕ)
      → (best ≡ 0) ⊎ FitsText (take best text)
      → (fitting_end split count config text left end best ≡ 0)
        ⊎ FitsText (take (fitting_end split count config text left end best) text)
  unfolding fitting_end
  fitting_end-Fits text zero end best p = p
  fitting_end-Fits text (suc left) end best p =
      elim (Bool-cases (ltb config.max_tokens (count (take end text)))) [
        | inl e ↦ rw (e) p
        | inr e ↦ rw (e) (fitting_end-Fits text left (suc end) end (inr (ground arith)))
      ]

  longest_fitting_prefix-Fits :
      (text : String)
      → is_empty_text (longest_fitting_prefix split count config text) ≡ false
      → IsTrimmed (longest_fitting_prefix split count config text)
  unfolding longest_fitting_prefix take rstrip
  longest_fitting_prefix-Fits text e =
      let end = fitting_end split count config text (text_length text) 1 0 in
      elim (fitting_end-Fits text (text_length text) 1 0 (inl refl)) [
        | inl z ↦ cc (rw (longest_fitting_prefix, z) at e)
        | inr p ↦ (take end text, refl, p)
      ]

  All-append : (us vs : List ChunkUnit) → All Fits us → All Fits vs → All Fits (us ++ vs)
  All-append [] vs p q = q
  All-append (u ∷ us) vs (first, p) q = (first, All-append us vs p q)

  split_pieces-Fits :
      (fuel : ℕ) (unit : ChunkUnit) (remaining : String) (index : ℕ) {pieces : List ChunkUnit}
      → split_pieces split count config fuel unit remaining index ≡ ok pieces
      → All Fits pieces
  unfolding split_pieces piece
  split_pieces-Fits zero unit remaining index {pieces} h =
      elim (Bool-cases (is_empty_text remaining)) [
        | inl e ↦ subst (All Fits) (ok-injective [] pieces refl (rw (e) at h)) tt
        | inr e ↦ cc (rw (e) at h)
      ]
  split_pieces-Fits (suc fuel) unit remaining index {pieces} h =
      elim (Bool-cases (is_empty_text remaining)) [
        | inl e ↦ subst (All Fits) (ok-injective [] pieces refl (rw (e) at h)) tt
        | inr e ↦
            let prefix = longest_fitting_prefix split count config remaining in
            let (_, a, h₁) =
              >>=-eq-ok (raise_if (is_empty_text prefix) ChunkingError.chunking_error) _
                (rw (e) at h) in
            let (rest, b, h₂) =
              >>=-eq-ok
                (split_pieces split count config fuel unit
                  (lstrip (drop (text_length prefix) remaining)) (suc index))
                _ h₁ in
            subst (All Fits)
              (ok-injective (piece split count config unit prefix index ∷ rest) pieces refl h₂)
              (
                inr (
                    longest_fitting_prefix-Fits remaining
                      (raise_if-eq-ok (is_empty_text prefix) ChunkingError.chunking_error a)),
                split_pieces-Fits fuel unit _ (suc index) b,
              )
      ]

  split_units-Fits :
      (units : List ChunkUnit) {pieces : List ChunkUnit}
      → split_units split count config units ≡ ok pieces
      → All Fits pieces
  unfolding split_units split_oversized_unit
  split_units-Fits [] {pieces} h = subst (All Fits) (ok-injective [] pieces refl h) tt
  split_units-Fits (unit ∷ units) {pieces} h =
      let (first, a, h₁) = >>=-eq-ok (split_oversized_unit split count config unit) _ h in
      let (rest, b, h₂) = >>=-eq-ok (split_units split count config units) _ h₁ in
      let fits : All Fits first = elim (Bool-cases (leb (count unit.text) config.max_tokens)) [
        | inl e ↦
            subst (All Fits)
              (ok-injective (unit ∷ []) first refl (rw (split_oversized_unit, e) at a))
              (inl (ground arith), tt)
        | inr e ↦
            split_pieces-Fits (text_length unit.text) unit unit.text 0
              (rw (split_oversized_unit, e) at a)
      ] in
      subst (All Fits) (ok-injective _ pieces refl h₂)
        (All-append first rest fits (split_units-Fits units b))

  pub units_for_blocks-Fits :
      (blocks : List ParsedBlock) {units : List ChunkUnit}
      → units_for_blocks split count config blocks ≡ ok units
      → All Fits units
  unfolding units_for_blocks units_for_block
  units_for_blocks-Fits [] {units} h = subst (All Fits) (ok-injective [] units refl h) tt
  units_for_blocks-Fits (block ∷ blocks) {units} h =
      let (first, a, h₁) = >>=-eq-ok (units_for_block split count config block) _ h in
      let (rest, b, h₂) = >>=-eq-ok (units_for_blocks split count config blocks) _ h₁ in
      subst (All Fits) (ok-injective _ units refl h₂)
        (All-append first rest (split_units-Fits _ a) (units_for_blocks-Fits blocks b))
