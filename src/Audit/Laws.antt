-- ===== src/Audit/Laws.antt =====
-- How much of a secret a finding shows.
use agent_operator.Prelude.{
  ℕ, Option, none, some, ◌+◌, ◌-◌, ◌≤◌, ◌≡◌, arith, inl, inr, Bool-cases, List, [], ◌∷◌, ◌++◌, zero,
  suc, length, length-append, leb, take, drop, All, All-append,
}
use agent_operator.Text.{Text, codes}
use agent_operator.Audit.{
  input, output, SecretPattern, CallField, SecretFinding, RecordedCall, ends_of, redact,
  findings_of, scan_patterns, scan_value, secret_patterns, scan_column, scan_calls,
  audit_tool_calls,
}

length-take : {A : Type 0} (n : ℕ) (s : List A) → length (take n s) ≤ n
length-take zero s = omega arith
length-take (suc n) [] = omega arith
length-take (suc n) (c ∷ s) = omega (arith, length-take n s)

length-drop : (n : ℕ) (s : Text) → length (drop n s) ≡ length s - n
length-drop zero s = omega arith
length-drop (suc n) [] = omega arith
length-drop (suc n) (c ∷ s) = omega (arith, length-drop n s)

length-ends_of : (n : ℕ) (value : Text) → length (ends_of n value) ≤ n + 3 + n
length-ends_of n value = omega (
  arith,
  length-append (take n value) (codes "..." ++ drop (length value - n) value),
  length-take n value,
  length-drop (length value - n) value,
)

length-redact : (value : Text) → length (redact value) ≤ 11
unfolding redact
length-redact value = elim (Bool-cases (leb (length value) 8)) [
  | inl short ↦ rw short (omega (arith, length-ends_of 2 value))
  | inr long ↦ rw long (length-ends_of 4 value)
]

-- What a finding shows of a text.
abbrev pub IsBrief : SecretFinding → Type 0
IsBrief finding = length finding.redacted_preview ≤ 11

module _ (finditer : SecretPattern → Text → List Text) where
  findings_of-IsBrief :
      (id : ℕ) (field : CallField) (pattern : SecretPattern) (found : List Text)
      → All IsBrief (findings_of finditer id field pattern found)
  unfolding findings_of
  findings_of-IsBrief id field pattern [] = tt
  findings_of-IsBrief id field pattern (value ∷ found) =
      (length-redact value, findings_of-IsBrief id field pattern found)

  scan_patterns-IsBrief :
      (id : ℕ) (field : CallField) (text : Text) (patterns : List SecretPattern)
      → All IsBrief (scan_patterns finditer id field text patterns)
  unfolding scan_patterns
  scan_patterns-IsBrief id field text [] = tt
  scan_patterns-IsBrief id field text (pattern ∷ patterns) =
      All-append IsBrief (findings_of finditer id field pattern (finditer pattern text)) _
        (findings_of-IsBrief id field pattern (finditer pattern text))
        (scan_patterns-IsBrief id field text patterns)

  scan_column-IsBrief :
      (id : ℕ) (field : CallField) (text : Option Text)
      → All IsBrief (scan_column finditer id field text)
  unfolding scan_value
  scan_column-IsBrief id field none = tt
  scan_column-IsBrief id field (some text) = scan_patterns-IsBrief id field text secret_patterns

  scan_calls-IsBrief : (calls : List RecordedCall) → All IsBrief (scan_calls finditer calls)
  unfolding scan_calls
  scan_calls-IsBrief [] = tt
  scan_calls-IsBrief (call ∷ calls) =
      All-append IsBrief (scan_column finditer call.id input call.input_text) _
        (scan_column-IsBrief call.id input call.input_text)
        (All-append IsBrief (scan_column finditer call.id output call.output_text) _
          (scan_column-IsBrief call.id output call.output_text) (scan_calls-IsBrief calls))

  -- The audit scans no more calls than the limit, and however long a secret that it finds is, it
  -- shows at most 11 characters for it, the three dots included.
  pub audit_tool_calls-IsBrief :
      (limit : ℕ) (calls : List RecordedCall)
      → let result = audit_tool_calls finditer limit calls in
        (result.scanned ≤ limit) × All IsBrief result.findings
  unfolding audit_tool_calls
  audit_tool_calls-IsBrief limit calls =
      (length-take limit calls, scan_calls-IsBrief (take limit calls))
