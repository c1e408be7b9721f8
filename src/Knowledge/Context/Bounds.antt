-- ===== src/Knowledge/Context/Bounds.antt =====
-- What a built context keeps: the token budget, and the numbers of its citations.
use ai_knowledge_hub.Base.{
  ℕ, zero, suc, ◌+◌, ◌≤◌, ◌≡◌, refl, sym, ap, ◌∙◌, ◌⊎◌, inl, inr, subst, String, not, ◌&&◌, ◌||◌,
  List, [], ◌∷◌, ◌++◌, map, ok, raise_if, >>=-eq-ok, length, length-append, is_blank, ltb, arith,
  Bool-cases,
}
use ai_knowledge_hub.Knowledge.Text.{join}
use ai_knowledge_hub.Knowledge.Context.{
  context_error, is_empty_text, no_citations, no_locator, RetrievalHit, Citation, BuiltContext,
  Progress, check_citation, check_context, format_fragment, label, cite, take_if_fits, build_each,
  build,
}

-- `labels n`: the first `n` citation ids.
abbrev pub labels : ℕ → List String
labels zero = []
labels (suc n) = labels n ++ label (suc n) ∷ []

abbrev pub ids : List Citation → List String
ids = map (λ c. c.citation_id)

ids-append : (c d : List Citation) → ids (c ++ d) ≡ ids c ++ ids d
ids-append [] d = refl
ids-append (x ∷ c) d = ap (λ r. x.citation_id ∷ r) (ids-append c d)

grown : (c : Citation) (p : Progress) → length (p.citations ++ c ∷ []) ≡ suc (length p.citations)
grown c p = omega (arith, length-append p.citations (c ∷ []))

check_citation-eq : (c : Citation) {d : Citation} → check_citation c ≡ ok d → d ≡ c
unfolding check_citation
check_citation-eq c {d} h =
    let (_, _, k) =
      >>=-eq-ok
        (raise_if
          (is_blank c.citation_id
            || is_blank c.chunk_id
            || is_blank c.document_id
            || is_blank c.file_id)
          context_error)
        _ h in
    let (_, _, k₂) = >>=-eq-ok (raise_if (no_locator c.source_locator) context_error) _ k in cc

module _ (token_count : String → ℕ) (token_budget : ℕ) where
  record IsWithin (p : Progress) : Type 0 where
    within : p.used_tokens ≤ token_budget
    numbered : ids p.citations ≡ labels (length p.citations)
    counted :
        (p.fragments ≡ []) × (p.citations ≡ []) × (p.used_tokens ≡ 0)
        ⊎ (p.used_tokens ≡ token_count (join "\n\n" p.fragments))
    paired : length p.fragments ≡ length p.citations

  take-IsWithin :
      (c : Citation) (fragment : String) (p : Progress)
      → c.citation_id ≡ label (length p.citations + 1)
      → IsWithin p
      → IsWithin (take_if_fits token_count token_budget c fragment p)
  unfolding take_if_fits
  take-IsWithin c fragment p e w =
      elim (Bool-cases
        (ltb token_budget (token_count (join "\n\n" (p.fragments ++ fragment ∷ []))))) [
          | inl h ↦ rw (h, take_if_fits) w
          | inr h ↦
              rw (h, take_if_fits)
                (record {
                  within = ground arith;
                  numbered =
                      ids-append p.citations (c ∷ [])
                      ∙ ap (λ r. r ++ c.citation_id ∷ []) w.numbered
                      ∙ ap (λ i. labels (length p.citations) ++ i ∷ []) (e ∙ ap label (omega arith))
                      ∙ ap labels (sym (grown c p));
                  counted = inr refl;
                  paired = omega (
                    arith,
                    length-append p.fragments (fragment ∷ []),
                    length-append p.citations (c ∷ []),
                    w.paired,
                  );
                })
        ]

  each-IsWithin :
      (hits : List RetrievalHit) (p : Progress) {q : Progress}
      → build_each token_count token_budget hits p ≡ ok q
      → IsWithin p
      → IsWithin q
  unfolding build_each
  each-IsWithin [] p h w = subst IsWithin (cc) w
  each-IsWithin (hit ∷ hits) p h w =
      let (c, h₁, k₁) =
        >>=-eq-ok (check_citation (cite (label (length p.citations + 1)) hit)) _ h in
      let (fragment, h₂, k₂) =
        >>=-eq-ok (format_fragment (label (length p.citations + 1)) hit.content) _ k₁ in
      each-IsWithin hits (take_if_fits token_count token_budget c fragment p) k₂
        (take-IsWithin c fragment p (ap (λ x. x.citation_id) (check_citation-eq _ h₁)) w)

  -- If a context is built, then it uses at most the tokens of the budget; its citations are numbered
  -- `source-1`, `source-2` and so on without a gap; and the tokens that it reports are those that the
  -- tokenizer counts of its content, or it is empty and reports none.
  pub build-Bounded :
      (hits : List RetrievalHit) {c : BuiltContext}
      → build token_count token_budget hits ≡ ok c
      → (c.used_tokens ≤ token_budget)
        × (ids c.citations ≡ labels (length c.citations))
        × (((c.content ≡ "") × (c.citations ≡ []) × (c.used_tokens ≡ 0))
            ⊎ (c.used_tokens ≡ token_count c.content))
  unfolding build check_context join
  build-Bounded hits {c} h =
      let (p, h₁, k₁) =
        >>=-eq-ok
          (build_each token_count token_budget hits
            (record { fragments = []; citations = []; used_tokens = 0 }))
          _ h in
      let w =
        each-IsWithin hits (record { fragments = []; citations = []; used_tokens = 0 }) h₁
          (record {
            within = omega arith;
            numbered = refl;
            counted = inl (refl, refl, refl);
            paired = refl;
          }) in
      let (_, _, k₂) =
        >>=-eq-ok
          (raise_if (is_empty_text (join "\n\n" p.fragments) && not (no_citations p.citations))
            context_error)
          _ k₁ in
      let e : (record {
        content = join "\n\n" p.fragments;
        citations = p.citations;
        used_tokens = p.used_tokens;
      })
          ≡ c =
        cc in
      subst
        (λ c.
          (c.used_tokens ≤ token_budget)
          × (ids c.citations ≡ labels (length c.citations))
          × (((c.content ≡ "") × (c.citations ≡ []) × (c.used_tokens ≡ 0))
              ⊎ (c.used_tokens ≡ token_count c.content)))
        e
        (
          w.within,
          w.numbered,
          elim w.counted [ inl (f, g, u) ↦ inl (ap (join "\n\n") f, g, u) | inr u ↦ inr u ],
        )
