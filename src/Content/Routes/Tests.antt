-- ===== src/Content/Routes/Tests.antt =====
-- Requests over an empty table.
use agent_operator.Prelude.{arith, true, some, List, [], ◌∷◌, ok, lookup}
use agent_operator.Text.{codes}
use agent_operator.Social.{x}
use agent_operator.Content.Routes.{DraftRequest, post_draft, patch_draft, published, serve_drafts}
use agent_operator.Content.Routes.Laws.{AllAcceptable, serve_drafts-AllAcceptable}

abbrev requests : List DraftRequest
requests = post_draft x (codes "Hello.") [] ∷ patch_draft 0 (some (codes " ")) (some published) ∷ []

nothing_acceptable : AllAcceptable (λ c. true) []
unfolding lookup
nothing_acceptable id row h = absurd (ground (arith, h))

serve_drafts-AllAcceptable_example :
    AllAcceptable (λ c. true) (serve_drafts (λ c. true) (λ t. "") (λ p t r. ok t) requests [])
serve_drafts-AllAcceptable_example =
    serve_drafts-AllAcceptable (λ c. true) (λ t. "") (λ p t r. ok t) requests [] nothing_acceptable
