-- ===== src/Social/Routes/Tests.antt =====
-- A request for a draft that does not exist.
use agent_operator.Errors.{Error}
use agent_operator.Prelude.{ℕ, ◌≡◌, ◌⊎◌, String, List, [], err, Action, pure}
use agent_operator.Store.{Database}
use agent_operator.Social.{x, PostDatabase}
use agent_operator.Social.Routes.{Site, PublishRequest, publish_post}
use agent_operator.Social.Routes.Laws.{
  IsCleared, IsRefused, forwarded, executed, publish_post_exact,
}

abbrev no_rows : Database
no_rows = record { tasks = []; approvals = []; agent_runs = [] }

abbrev no_posts : PostDatabase
no_posts = record { drafts = []; posts = []; attempts = [] }

abbrev empty_site : Site
empty_site = record {
  session = record { now = no_rows; saved = no_rows };
  publisher = record { now = no_posts; saved = no_posts; requests = [] };
}

abbrev payload : PublishRequest
payload = record { draft_id = 3; approval_id = 5; idempotency_key = "k" }

abbrev any_engine : String → ℕ → String → List String → Action Site String
any_engine name draft_id key actions = pure "1"

publish_post_exact_example :
    (IsCleared payload empty_site
      × (publish_post any_engine x payload empty_site
          ≡ forwarded x payload (executed any_engine x payload empty_site)))
    ⊎ ((e : Error) × IsRefused payload empty_site e
        × (publish_post any_engine x payload empty_site ≡ (err e, empty_site)))
publish_post_exact_example = publish_post_exact any_engine x payload empty_site
