-- ===== src/Model/Usage.antt =====
-- app/llm/usage.py: the token usage of a reply.
use agent_operator.Prelude.{ℕ, zero, suc, ◌+◌, Option, none, some}

pub record TokenUsage : Type 0 where
  pub prompt_tokens : ℕ
  pub completion_tokens : ℕ
  pub total_tokens : ℕ

-- The metadata of a reply, under the five keys that are read.
pub record UsageMetadata : Type 0 where
  pub input_tokens : Option ℕ
  pub prompt_tokens : Option ℕ
  pub output_tokens : Option ℕ
  pub completion_tokens : Option ℕ
  pub total_tokens : Option ℕ

-- `a or b` on counts, where 0 and None are falsy.
abbrev pub or_else : Option ℕ → ℕ → ℕ
or_else none b = b
or_else (some zero) b = b
or_else (some (suc n)) b = suc n

-- `extract_usage`, on the metadata that the reply carries.
unfoldable pub extract_usage : Option UsageMetadata → TokenUsage
extract_usage none = record { prompt_tokens = 0; completion_tokens = 0; total_tokens = 0 }
extract_usage (some metadata) =
    let prompt = or_else metadata.input_tokens (or_else metadata.prompt_tokens 0) in
    let completion = or_else metadata.output_tokens (or_else metadata.completion_tokens 0) in
    record {
      prompt_tokens = prompt;
      completion_tokens = completion;
      total_tokens = or_else metadata.total_tokens (prompt + completion);
    }
