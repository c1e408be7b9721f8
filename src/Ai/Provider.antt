-- ===== src/Ai/Provider.antt =====
-- backend/app/ai/provider.py and exceptions.py: what providers take, give and raise.
use ai_knowledge_hub.Base.{ℕ, String, Bool, true, false, Option}

-- A subclass of `ProviderError`, or another one.
pub data ProviderError : Type 0 where
  rate_limit timeout unavailable stream_broken other_error : ProviderError

-- The errors of the gateways.
pub data AiError : Type 0 where
  invalid_model invalid_request provider_rate_limit provider_timeout provider_unavailable : AiError

pub data ChatRole : Type 0 where
  system user assistant : ChatRole

pub data FinishReason : Type 0 where
  stop length_limit content_filter : FinishReason

pub record ChatMessage : Type 0 where
  pub role : ChatRole
  pub content : String

pub record TokenUsage : Type 0 where
  pub input_tokens : Option ℕ
  pub output_tokens : Option ℕ
  pub total_tokens : Option ℕ

pub record ChatResult : Type 0 where
  pub request_id : String
  pub content : String
  pub finish_reason : FinishReason
  pub usage : Option TokenUsage

pub data ChatEvent : Type 0 where
  delta : String → String → ChatEvent
  usage_event : String → TokenUsage → ChatEvent
  done : String → FinishReason → ChatEvent

abbrev pub is_done : ChatEvent → Bool
is_done (done id reason) = true
is_done (delta id content) = false
is_done (usage_event id usage) = false

-- The value of a role.
abbrev pub role_value : ChatRole → String
role_value system = "system"
role_value user = "user"
role_value assistant = "assistant"

-- `_translate_provider_error`
unfoldable pub translate_provider_error : ProviderError → AiError
translate_provider_error rate_limit = provider_rate_limit
translate_provider_error timeout = provider_timeout
translate_provider_error unavailable = provider_unavailable
translate_provider_error stream_broken = provider_unavailable
translate_provider_error other_error = provider_unavailable

-- `_is_retryable_provider_error`
unfoldable pub is_retryable_provider_error : ProviderError → Bool
is_retryable_provider_error rate_limit = true
is_retryable_provider_error timeout = true
is_retryable_provider_error unavailable = true
is_retryable_provider_error stream_broken = false
is_retryable_provider_error other_error = false
