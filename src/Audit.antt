-- ===== src/Audit.antt =====
-- app/services/audit_service.py: the search for secrets in recorded tool calls. What a pattern finds
-- in a text, `finditer` of `re`, is a parameter.
mod Laws
mod Tests
use agent_operator.Prelude.{
  ℕ, ◌-◌, Bool, Option, none, some, List, [], ◌∷◌, ◌++◌, length, leb, take, drop, if◌then◌else◌,
}
use agent_operator.Text.{Text, codes, is_empty}

-- `_SECRET_PATTERNS`, by name.
pub data SecretPattern : Type 0 where
  api_key github_token bearer_token private_key password : SecretPattern

pub data CallField : Type 0 where
  input output : CallField

pub record SecretFinding : Type 0 where
  pub tool_call_id : ℕ
  pub field : CallField
  pub pattern : SecretPattern
  pub redacted_preview : Text

pub record SecretsAuditResult : Type 0 where
  pub scanned : ℕ
  pub findings : List SecretFinding

-- A row of `tool_calls`, with what `str` makes of its input and output.
pub record RecordedCall : Type 0 where
  pub id : ℕ
  pub input_text : Option Text
  pub output_text : Option Text

abbrev pub secret_patterns : List SecretPattern
secret_patterns = api_key ∷ github_token ∷ bearer_token ∷ private_key ∷ password ∷ []

-- `value[:n] + "..." + value[-n:]`.
abbrev pub ends_of : ℕ → Text → Text
ends_of n value = take n value ++ (codes "..." ++ drop (length value - n) value)

-- `_redact`.
unfoldable pub redact : Text → Text
redact value = if leb (length value) 8 then ends_of 2 value else ends_of 4 value

module _ (finditer : SecretPattern → Text → List Text) where
  unfoldable pub findings_of : ℕ → CallField → SecretPattern → List Text → List SecretFinding
  findings_of id field pattern [] = []
  findings_of id field pattern (found ∷ more) =
      record {
        tool_call_id = id;
        field = field;
        pattern = pattern;
        redacted_preview = redact found;
      }
      ∷ findings_of id field pattern more

  unfoldable pub scan_patterns : ℕ → CallField → Text → List SecretPattern → List SecretFinding
  scan_patterns id field text [] = []
  scan_patterns id field text (pattern ∷ patterns) =
      findings_of id field pattern (finditer pattern text) ++ scan_patterns id field text patterns

  -- `_scan_value`.
  unfoldable pub scan_value : ℕ → CallField → Text → List SecretFinding
  scan_value id field text = scan_patterns id field text secret_patterns

  -- What a column holds is scanned if it is set.
  abbrev pub scan_column : ℕ → CallField → Option Text → List SecretFinding
  scan_column id field none = []
  scan_column id field (some text) = scan_value id field text

  unfoldable pub scan_calls : List RecordedCall → List SecretFinding
  scan_calls [] = []
  scan_calls (call ∷ calls) =
      scan_column call.id input call.input_text
      ++ (scan_column call.id output call.output_text ++ scan_calls calls)

  -- `audit_tool_calls`, over the rows from the newest on.
  unfoldable pub audit_tool_calls : ℕ → List RecordedCall → SecretsAuditResult
  audit_tool_calls limit calls =
      let rows = take limit calls in record { scanned = length rows; findings = scan_calls rows }
