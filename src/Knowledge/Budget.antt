-- ===== src/Knowledge/Budget.antt =====
-- backend/app/knowledge/budget.py: how many tokens of a model's window are left for knowledge. Token
-- numbers are natural; the source also rejects negative ones. The tokenizer is a parameter.
use ai_knowledge_hub.Base.{
  ℕ, ◌+◌, ◌-◌, ◌≤◌, ◌<◌, ◌≡◌, refl, ◌⊎◌, inl, inr, String, Bool, true, false, ◌||◌, Option, none,
  some, List, [], ◌∷◌, map, Result, ok, err, ◌>>◌, raise_if, raise_if-elim, any, is_blank, ltb, leb,
  arith,
}

pub data BudgetError : Type 0 where
  budget_error : BudgetError

-- What `AIModelConfig` says of a model's tokens.
pub record ModelConfig : Type 0 where
  pub context_window_tokens : ℕ
  pub default_max_output_tokens : ℕ
  pub max_output_tokens : ℕ

pub record TokenBudget : Type 0 where
  pub context_window_tokens : ℕ
  pub max_output_tokens : ℕ
  pub reserved_input_tokens : ℕ
  pub safety_margin_tokens : ℕ
  pub available_context_tokens : ℕ

-- `RAGTokenBudget.__post_init__`
unfoldable pub check_budget : TokenBudget → Result BudgetError TokenBudget
check_budget b = do
  raise_if
      (ltb b.context_window_tokens (
        b.max_output_tokens + b.reserved_input_tokens + b.safety_margin_tokens
        + b.available_context_tokens))
      budget_error
  ok b

abbrev pub sum : List ℕ → ℕ
sum [] = 0
sum (n ∷ numbers) = n + sum numbers

abbrev pub no_messages : List String → Bool
no_messages [] = true
no_messages (_ ∷ _) = false

abbrev pub resolved_output : Option ℕ → ModelConfig → ℕ
resolved_output none config = config.default_max_output_tokens
resolved_output (some n) config = n

module _ (token_count : String → ℕ) where
  abbrev pub reserved_input : String → List String → ℕ
  reserved_input system_prompt user_messages =
      token_count system_prompt + sum (map token_count user_messages)

  -- The subtraction of natural numbers gives 0 where the source's result is not positive.
  unfoldable pub calculate :
      ℕ → ModelConfig → String → List String → Option ℕ → Result BudgetError TokenBudget
  unfolding check_budget
  calculate safety_margin config system_prompt user_messages max_output_tokens = do
    raise_if (is_blank system_prompt) budget_error
    raise_if (no_messages user_messages || any is_blank user_messages) budget_error
    let output = resolved_output max_output_tokens config
    raise_if (leb output 0) budget_error
    raise_if (ltb config.max_output_tokens output) budget_error
    let reserved = reserved_input system_prompt user_messages
    let available = config.context_window_tokens - reserved - output - safety_margin
    raise_if (leb available 0) budget_error
    check_budget (record {
      context_window_tokens = config.context_window_tokens;
      max_output_tokens = output;
      reserved_input_tokens = reserved;
      safety_margin_tokens = safety_margin;
      available_context_tokens = available;
    })

  -- What a calculation gives: a budget whose parts fill the window, or an error for one of the reasons.
  abbrev pub Budgets :
      ℕ → ModelConfig → String → List String → Option ℕ → Result BudgetError TokenBudget → Type 0
  Budgets margin config system messages requested (ok b) =
      (b.reserved_input_tokens + b.max_output_tokens + b.safety_margin_tokens
          + b.available_context_tokens
        ≡ config.context_window_tokens)
      × (1 ≤ b.available_context_tokens)
      × (1 ≤ b.max_output_tokens)
      × (b.max_output_tokens ≤ config.max_output_tokens)
      × (b.max_output_tokens ≡ resolved_output requested config)
      × (b.reserved_input_tokens ≡ reserved_input system messages)
      × (b.safety_margin_tokens ≡ margin)
  Budgets margin config system messages requested (err e) =
      (is_blank system ≡ true)
      ⊎ ((no_messages messages || any is_blank messages) ≡ true)
      ⊎ (resolved_output requested config ≡ 0)
      ⊎ (config.max_output_tokens < resolved_output requested config)
      ⊎ (config.context_window_tokens
          ≤ reserved_input system messages + resolved_output requested config + margin)

  -- If the calculation gives a budget, then its four parts sum to the model's window exactly, with at
  -- least one token for knowledge, at least one and at most the model's maximum for the output, as much
  -- for the input as the tokenizer counts, and the safety margin. It raises only if the system prompt is
  -- blank, there is no user message or a blank one, the output limit is 0 or above the model's maximum,
  -- or the window is too small for input, output and margin with a token left.
  pub calculate-Budgets :
      (margin : ℕ) (config : ModelConfig) (system : String) (messages : List String)
      (requested : Option ℕ)
      → Budgets margin config system messages requested
          (calculate margin config system messages requested)
  unfolding calculate
  calculate-Budgets margin config system messages requested =
      let P = Budgets margin config system messages requested in
      let output = resolved_output requested config in
      let available =
        config.context_window_tokens - reserved_input system messages - output - margin in
      raise_if-elim P (is_blank system) _ _ inl (λ a.
        raise_if-elim P (no_messages messages || any is_blank messages) _ _ (λ f. inr (inl f))
          (λ b.
            raise_if-elim P (leb output 0) _ _ (λ f. inr (inr (inl (ground arith))))
              (λ c.
                raise_if-elim P (ltb config.max_output_tokens output) _ _
                  (λ f. inr (inr (inr (inl (ground arith)))))
                  (λ d.
                    raise_if-elim P (leb available 0) _ _
                      (λ f. inr (inr (inr (inr (ground arith)))))
                      (λ e.
                        raise_if-elim P
                          (ltb config.context_window_tokens
                            (output + reserved_input system messages + margin + available))
                          _ _ (λ f. absurd (ground arith))
                          (λ f. (
                            ground arith,
                            ground arith,
                            ground arith,
                            ground arith,
                            refl,
                            refl,
                            refl,
                          )))))))
