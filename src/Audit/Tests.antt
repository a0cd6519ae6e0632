-- ===== src/Audit/Tests.antt =====
-- A short password is shown as a whole.
use agent_operator.Prelude.{◌≤◌, ◌≡◌, refl, none, some, List, [], ◌∷◌, All}
use agent_operator.Text.{Text, codes}
use agent_operator.Audit.{SecretPattern, password, RecordedCall, redact, audit_tool_calls}
use agent_operator.Audit.Laws.{IsBrief, audit_tool_calls-IsBrief}

short_password : redact (codes "password: abcd") ≡ codes "pass...abcd"
unfolding redact
short_password = refl

abbrev whole : SecretPattern → Text → List Text
whole password text = text ∷ []
whole pattern text = []

abbrev recorded : List RecordedCall
recorded = record { id = 1; input_text = some (codes "password: abcd"); output_text = none } ∷ []

audit_tool_calls-IsBrief_example :
    let result = audit_tool_calls whole 1000 recorded in
    (result.scanned ≤ 1000) × All IsBrief result.findings
audit_tool_calls-IsBrief_example = audit_tool_calls-IsBrief whole 1000 recorded
