-- ===== src/Knowledge/Chunking/Drafts.antt =====
-- The drafts of a document: there is a result or an error, and each draft fits into a chunk.
use ai_knowledge_hub.Base.{
  is_blank, ℕ, ◌≤◌, ◌≡◌, ◌≢◌, refl, sym, subst, ◌⊎◌, inl, inr, String, Bool, true, false, not, ◌&&◌,
  ◌||◌, List, [], ◌∷◌, ◌++◌, reverse, All, Result, err, ok, ◌>>=◌, >>=-eq-ok, ok-injective,
  raise_if, raise_if-elim, Bool-cases, Result-cases, arith, ltb, if◌then◌else◌,
}
use ai_knowledge_hub.Knowledge.Chunking.{
  ChunkingError, ChunkingConfig, ChunkUnit, ChunkDraft, ParsedBlock, is_nil, join_units,
  count_units, make_draft, overlap_from, overlap_for_next_chunk, units_for_blocks, chunk_units,
  chunk,
}
use ai_knowledge_hub.Knowledge.Chunking.Pieces.{
  IsTrimmed, Fits, units_for_blocks-Ends, units_for_blocks-Fits,
}

pub if_true {ℓ} :
    {A : Type ℓ} {b : Bool} (x y : A) {z : A} → b ≡ true → (if b then x else y) ≡ z → x ≡ z
if_true {b} x y e h = rw (e) at h

pub if_false {ℓ} :
    {A : Type ℓ} {b : Bool} (x y : A) {z : A} → b ≡ false → (if b then x else y) ≡ z → y ≡ z
if_false {b} x y e h = rw (e) at h

either_way {ℓ κ} :
    {A : Type ℓ} (P : A → Type κ) (b : Bool) {x y : A} → P x → P y → P (if b then x else y)
either_way P true p q = p
either_way P false p q = q

module _ (split : String → List String) (count : String → ℕ) (config : ChunkingConfig) where
  abbrev Ends : Result ChunkingError (List ChunkDraft) → Type 0
  Ends r = r ≢ err ChunkingError.diverges

  -- Units that are none, or fit into a chunk together, or are one piece of an oversized sentence.
  abbrev FitTogether : List ChunkUnit → Type 0
  FitTogether units =
      (units ≡ [])
      ⊎ ((count_units split count config units ≤ config.max_tokens)
          ⊎ ((u : ChunkUnit) × (units ≡ u ∷ []) × IsTrimmed split count config u.text))

  -- The tokens of a draft are those of its content. They fit into a chunk, or the content is a text that
  -- fits, without the white space at its end.
  abbrev pub FitsDraft : ChunkDraft → Type 0
  FitsDraft d =
      (d.token_count ≡ count d.content)
      × ((d.token_count ≤ config.max_tokens) ⊎ IsTrimmed split count config d.content)

  make_draft-FitsDraft :
      (units : List ChunkUnit) {draft : ChunkDraft}
      → FitTogether units
      → make_draft split count config units ≡ ok draft
      → FitsDraft draft
  unfolding make_draft count_units join_units
  make_draft-FitsDraft [] fits h = cc
  make_draft-FitsDraft (u ∷ units) {draft} fits h =
      let (_, a, h₁) =
        >>=-eq-ok (raise_if (is_blank (join_units (u ∷ units))) ChunkingError.chunking_error) _ h in
      subst FitsDraft (ok-injective _ draft refl h₁) (
        refl,
        elim fits [
          | inl e ↦ cc
          | inr (inl p) ↦ inl p
          | inr (inr (v, e, t)) ↦
              inr (subst (λ us. IsTrimmed split count config (join_units us)) (sym e) t)
        ],
      )

  -- The overlap leaves room for the next unit, or is empty.
  overlap_from-Fits :
      (units : List ChunkUnit) (next : ChunkUnit) (overlap : List ChunkUnit)
      → (overlap ≡ [])
        ⊎ (count_units split count config (overlap ++ (next ∷ [])) ≤ config.max_tokens)
      → (overlap_from split count config units next overlap ≡ [])
        ⊎ (count_units split count config
              (overlap_from split count config units next overlap ++ (next ∷ []))
            ≤ config.max_tokens)
  unfolding overlap_from
  overlap_from-Fits [] next overlap p = p
  overlap_from-Fits (u ∷ units) next overlap p =
      let stops =
        ltb config.overlap_tokens (count_units split count config (u ∷ overlap))
        || ltb config.max_tokens (count_units split count config ((u ∷ overlap) ++ (next ∷ []))) in
      elim (Bool-cases stops) [
        | inl e ↦ rw (e) p
        | inr e ↦ rw (e) (overlap_from-Fits units next (u ∷ overlap) (inr (ground arith)))
      ]

  one-FitTogether : (unit : ChunkUnit) → Fits split count config unit → FitTogether (unit ∷ [])
  unfolding count_units join_units
  one-FitTogether unit (inl p) = inr (inl p)
  one-FitTogether unit (inr t) = inr (inr (unit, refl, t))

  -- The current units after a round: the unit joined to them, or to the overlap if they are full.
  round-FitTogether :
      (current : List ChunkUnit) (unit : ChunkUnit)
      → Fits split count config unit
      → let full =
          not (is_nil current)
          && ltb config.max_tokens (count_units split count config (current ++ (unit ∷ []))) in
        FitTogether (
          (if full then overlap_for_next_chunk split count config current unit else current)
          ++ (unit ∷ []))
  unfolding overlap_for_next_chunk
  round-FitTogether [] unit p = one-FitTogether unit p
  round-FitTogether (c ∷ current) unit p =
      elim (Bool-cases
        (ltb config.max_tokens (count_units split count config ((c ∷ current) ++ (unit ∷ []))))) [
          | inl e ↦ rw (e) (elim (overlap_from-Fits (reverse (c ∷ current)) unit [] (inl refl)) [
            | inl q ↦ subst (λ us. FitTogether (us ++ (unit ∷ []))) (sym q) (one-FitTogether unit p)
            | inr q ↦ inr (inl q)
          ])
          | inr e ↦ rw (e) (inr (inl (ground arith)))
        ]

  chunk_units-FitsDraft :
      (units current : List ChunkUnit) {drafts : List ChunkDraft}
      → All (Fits split count config) units
      → FitTogether current
      → chunk_units split count config units current ≡ ok drafts
      → All FitsDraft drafts
  unfolding chunk_units
  chunk_units-FitsDraft [] [] {drafts} each fits h =
      subst (All FitsDraft) (ok-injective [] drafts refl h) tt
  chunk_units-FitsDraft [] (c ∷ current) {drafts} each fits h =
      let (draft, a, h₁) = >>=-eq-ok (make_draft split count config (c ∷ current)) _ h in
      subst (All FitsDraft) (ok-injective (draft ∷ []) drafts refl h₁)
        (make_draft-FitsDraft (c ∷ current) fits a, tt)
  chunk_units-FitsDraft (unit ∷ units) current {drafts} (p, each) fits h =
      let full =
        not (is_nil current)
        && ltb config.max_tokens (count_units split count config (current ++ (unit ∷ []))) in
      let next =
        (if full then overlap_for_next_chunk split count config current unit else current)
        ++ (unit ∷ []) in
      let room : FitTogether next = round-FitTogether current unit p in
      elim (Bool-cases full) [
        | inl e ↦
            let (draft, a, h₁) =
              >>=-eq-ok (make_draft split count config current) _ (if_true _ _ e h) in
            let (rest, b, h₂) = >>=-eq-ok (chunk_units split count config units next) _ h₁ in
            subst (All FitsDraft) (ok-injective (draft ∷ rest) drafts refl h₂)
              (make_draft-FitsDraft current fits a, chunk_units-FitsDraft units next each room b)
        | inr e ↦ chunk_units-FitsDraft units next each room (if_false _ _ e h)
      ]

  make_draft-ends :
      (units : List ChunkUnit) → make_draft split count config units ≢ err ChunkingError.diverges
  unfolding make_draft
  make_draft-ends [] = λ h. cc
  make_draft-ends (u ∷ units) =
      raise_if-elim (λ r. r ≢ err ChunkingError.diverges) (is_blank (join_units (u ∷ units)))
        ChunkingError.chunking_error _ (λ a h. cc) (λ a h. cc)

  cons-Ends :
      (first : Result ChunkingError ChunkDraft) (rest : Result ChunkingError (List ChunkDraft))
      → first ≢ err ChunkingError.diverges
      → Ends rest
      → Ends (first >>= λ draft. rest >>= λ drafts. ok (draft ∷ drafts))
  cons-Ends (err e) rest p q = λ h. p cc
  cons-Ends (ok d) (err e) p q = λ h. q cc
  cons-Ends (ok d) (ok ds) p q = λ h. cc

  chunk_units-Ends :
      (units current : List ChunkUnit) → Ends (chunk_units split count config units current)
  unfolding chunk_units
  chunk_units-Ends [] [] = λ h. cc
  chunk_units-Ends [] (c ∷ current) =
      cons-Ends (make_draft split count config (c ∷ current)) (ok [])
        (make_draft-ends (c ∷ current)) (λ h. cc)
  chunk_units-Ends (unit ∷ units) current =
      let full =
        not (is_nil current)
        && ltb config.max_tokens (count_units split count config (current ++ (unit ∷ []))) in
      let next =
        (if full then overlap_for_next_chunk split count config current unit else current)
        ++ (unit ∷ []) in
      either_way Ends full
        (cons-Ends (make_draft split count config current)
          (chunk_units split count config units next) (make_draft-ends current)
          (chunk_units-Ends units next))
        (chunk_units-Ends units next)

  -- A document gives a result or an error, since no loop runs out of fuel.
  pub chunk-Ends :
      (blocks : List ParsedBlock) → chunk split count config blocks ≢ err ChunkingError.diverges
  unfolding chunk
  chunk-Ends blocks = elim (Result-cases (units_for_blocks split count config blocks)) [
    | inr (e, q) ↦ λ h. units_for_blocks-Ends split count config blocks (cc (rw (q, chunk) at h))
    | inl (units, q) ↦
        rw (chunk, q)
          (raise_if-elim Ends (is_nil units) ChunkingError.chunking_error _ (λ a h. cc)
            (λ a. chunk_units-Ends units []))
  ]

  -- Each draft of a document counts the tokens of its content, and has at most `max_tokens` of them; or its
  -- content is a text of at most `max_tokens`, without the white space at its end.
  pub chunk-FitsDraft :
      (blocks : List ParsedBlock) {drafts : List ChunkDraft}
      → chunk split count config blocks ≡ ok drafts
      → All FitsDraft drafts
  unfolding chunk
  chunk-FitsDraft blocks h =
      let (units, a, h₁) = >>=-eq-ok (units_for_blocks split count config blocks) _ h in
      let (_, b, h₂) = >>=-eq-ok (raise_if (is_nil units) ChunkingError.chunking_error) _ h₁ in
      chunk_units-FitsDraft units [] (units_for_blocks-Fits split count config blocks a) (inl refl)
        h₂
