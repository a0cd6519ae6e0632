-- ===== src/Social/Publish/Tests.antt =====
-- A post on X and calls with the same key afterwards, and the theorems about calls at them.
use agent_operator.Prelude.{
  arith, ℕ, String, ◌≡◌, refl, none, some, List, [], ◌∷◌, length, lookup, insert, new_key, ok,
  ◌>>=◌, catch,
}
use agent_operator.Text.{Text}
use agent_operator.Social.{
  x, linkedin, text, other, HttpReply, response, Publisher, PostDatabase, Credentials, x_result,
  has_x_credentials, post_request, publish_on_x,
}
use agent_operator.Social.Publish.{
  PublishInput, find_duplicate, succeeded_posts, has_key, fits, add_post, close_post, commit_post,
  stored_id, content_hash, publish_draft, publish_once, execute_x, execute_on, publish_all,
}
use agent_operator.Social.Publish.Storage.{Storable}
use agent_operator.Social.Publish.Keys.{AtMostOnce}
use agent_operator.Social.Publish.Once.{publish_all-AtMostOnce}
use agent_operator.Social.Publish.Again.{execute_on-again}

abbrev demo_posts : PostDatabase
demo_posts = record {
  drafts = (0, record { content = 104 ∷ 105 ∷ [] }) ∷ [];
  posts = [];
  attempts = [];
}

abbrev demo_publisher : Publisher
demo_publisher = record { now = demo_posts; saved = demo_posts; requests = [] }

abbrev demo_creds : Credentials
demo_creds = record { access_token = some "t"; bearer_token = none; author_urn = some "urn" }

abbrev created_reply : ℕ → HttpReply
created_reply _ = response 201 (some (text "42"))

abbrev no_hash : Text → String
no_hash _ = "hash"

first_post : (execute_on no_hash created_reply x demo_creds 0 "key" demo_publisher).0 ≡ ok "42"
unfolding execute_x publish_once find_duplicate succeeded_posts publish_draft lookup insert new_key
    has_key fits add_post close_post commit_post stored_id content_hash publish_on_x
    has_x_credentials post_request x_result ◌>>=◌ catch
first_post = refl

execute_on-again_example :
    let s' = (execute_on no_hash created_reply x demo_creds 0 "key" demo_publisher).1 in
    let next = record s' { now = s'.saved } in
    execute_on no_hash created_reply linkedin demo_creds 7 "key" next ≡ (ok "42", next)
execute_on-again_example =
    execute_on-again no_hash created_reply x linkedin demo_creds demo_creds 0 7 "key" "42"
      demo_publisher refl first_post refl

-- A number for an identifier: the request was sent, and no row tells of it.
abbrev numbered_reply : ℕ → HttpReply
numbered_reply _ = response 201 (some other)

row_lost :
    let s' = (execute_on no_hash numbered_reply x demo_creds 0 "key" demo_publisher).1 in
    (s'.saved ≡ demo_posts) × (length s'.requests ≡ 1)
unfolding execute_x publish_once find_duplicate succeeded_posts publish_draft lookup insert new_key
    has_key fits add_post close_post commit_post stored_id content_hash publish_on_x
    has_x_credentials post_request x_result ◌>>=◌ catch
row_lost = (refl, refl)

created_Storable : (n : ℕ) → Storable (created_reply n)
created_Storable n =
    (omega arith, ((λ e. absurd (omega (arith, e))), ((λ e. absurd (omega (arith, e))), tt)))

nothing_sent : AtMostOnce [] []
nothing_sent = record { bound = λ key. omega arith }

abbrev demo_inputs : List PublishInput
demo_inputs =
    record { platform = x; credentials = demo_creds; draft_id = 0; idempotency_key = "key" }
    ∷ record {
      platform = linkedin;
      credentials = demo_creds;
      draft_id = 0;
      idempotency_key = "key";
    }
    ∷ []

publish_all-AtMostOnce_example :
    let s' = publish_all no_hash created_reply demo_inputs demo_publisher in
    AtMostOnce s'.saved.posts s'.requests
publish_all-AtMostOnce_example =
    publish_all-AtMostOnce no_hash created_reply created_Storable demo_inputs demo_publisher
      nothing_sent
