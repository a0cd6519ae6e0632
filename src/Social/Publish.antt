-- ===== src/Social/Publish.antt =====
-- app/tools/builtin/social_publish.py: the tools that publish an approved draft.
pub mod Storage
pub mod Once
pub mod Rows
pub mod Keys
pub mod Again
mod Tests
use agent_operator.Errors.{
  Error, authentication_error, value_error, tool_error, integrity_error, other_exception,
}
use agent_operator.Prelude.{
  ℕ, String, str_eq, Bool, true, false, not, ◌&&◌, ◌||◌, Option, none, some, List, [], ◌∷◌, length,
  leb, ◌==◌, any, if◌then◌else◌, Table, lookup, insert, new_key, Result, ok, err, Action, pure,
  raise, lift, gets, or_raise, modify, raise_if, ◌>>=◌, ◌>>◌, catch,
}
use agent_operator.Text.{Text, codes, strip}
use agent_operator.Social.{
  Platform, x, linkedin, Identifier, text, null, other, HttpReply, Draft, ExecutionStatus, pending,
  succeeded, unverified, SocialPost, PublishAttempt, PostDatabase, Publisher, Credentials, is_set,
  has_x_credentials, publish_on_x, publish_on_linkedin,
}

-- The input of a tool, with what the tool was made with.
pub record PublishInput : Type 0 where
  pub platform : Platform
  pub credentials : Credentials
  pub draft_id : ℕ
  pub idempotency_key : String

abbrev pub is_succeeded : ExecutionStatus → Bool
is_succeeded succeeded = true
is_succeeded _ = false

-- The rows that the query of `_find_duplicate` selects.
unfoldable pub succeeded_posts : String → Table SocialPost → List SocialPost
succeeded_posts key [] = []
succeeded_posts key ((_, post) ∷ posts) =
    let rest = succeeded_posts key posts in
    if str_eq post.idempotency_key key && is_succeeded post.execution_status
    then post ∷ rest
    else rest

-- `scalar_one_or_none()`, which raises on more than one row.
abbrev pub one_or_none : List SocialPost → Result (Option SocialPost)
one_or_none [] = ok none
one_or_none (post ∷ []) = ok (some post)
one_or_none (_ ∷ _ ∷ _) = err other_exception

-- `_find_duplicate`.
unfoldable pub find_duplicate : String → Action Publisher (Option SocialPost)
find_duplicate key s = (one_or_none (succeeded_posts key s.now.posts), s)

-- The key is taken: the unique constraint on `idempotency_key`.
unfoldable pub has_key : String → Table SocialPost → Bool
has_key key [] = false
has_key key ((_, post) ∷ posts) = str_eq post.idempotency_key key || has_key key posts

-- A column `String(128)` takes a text: PostgreSQL refuses a longer one, and the character 0.
unfoldable pub fits : String → Bool
fits s = leb (length (codes s)) 128 && not (any (λ c. c == 0) (codes s))

-- What the column `external_id` stores for an identifier. The driver refuses a value that is neither a
-- text nor null.
unfoldable pub stored_id : Identifier → Result (Option String)
stored_id (text s) = if fits s then ok (some s) else err other_exception
stored_id null = ok none
stored_id other = err other_exception

-- Adding a post and flushing it.
unfoldable pub add_post : SocialPost → Action Publisher ℕ
add_post post = do
  s ← gets (λ s. s)
  raise_if (not (fits post.idempotency_key)) other_exception
  raise_if (has_key post.idempotency_key s.now.posts) integrity_error
  modify (λ s. record s {
    now = record s.now { posts = insert (new_key s.now.posts) post s.now.posts };
  })
  pure (new_key s.now.posts)

-- The row of the post and a new row of `_record_attempt`, committed.
unfoldable pub commit_post : ℕ → SocialPost → Action Publisher (Unit {0})
commit_post id post s =
    let db : PostDatabase = record s.now {
      posts = insert id post s.now.posts;
      attempts =
          insert (new_key s.now.attempts)
            (record { social_post_id = id; status = post.execution_status }) s.now.attempts;
    } in
    (ok tt, record s { now = db; saved = db })

-- The end of an attempt, with the identifier that the post gets: the commit raises where the column
-- does not take it, and then nothing is committed.
unfoldable pub close_post : ℕ → SocialPost → Identifier → Action Publisher (Unit {0})
close_post id post external_id = do
  stored ← lift (stored_id external_id)
  commit_post id (record post { external_id = stored })

-- The identifier in the output, which must be a text; `ValidationError` of pydantic is a ValueError.
abbrev pub output_id : Identifier → Result String
output_id (text s) = ok s
output_id null = err value_error
output_id other = err value_error

abbrev pub id_or_empty : Option String → String
id_or_empty none = ""
id_or_empty (some id) = id

-- `content_hash` of app/content/validators.py, over SHA-256.
unfoldable pub content_hash : (Text → String) → Text → String
content_hash sha256 content = sha256 (strip content)

module _ (sha256 : Text → String) where
  -- From the draft on: the post is added, published and closed.
  unfoldable pub publish_draft :
      Platform
      → (Text → String → Action Publisher Identifier)
      → ℕ
      → String
      → Action Publisher String
  publish_draft platform publish draft_id key = do
    row ← gets (λ s. lookup draft_id s.now.drafts)
    draft ← or_raise row tool_error
    let post : SocialPost = record {
      draft_id = draft_id;
      platform = platform;
      idempotency_key = key;
      content_hash = content_hash sha256 draft.content;
      external_id = none;
      execution_status = pending;
      verification_status = unverified;
    }
    id ← add_post post
    external_id ← catch (publish draft.content key) (λ e.
        close_post id (record post { execution_status = ExecutionStatus.failed }) null >> raise e)
    close_post id (record post { execution_status = succeeded }) external_id
    lift (output_id external_id)

  -- The check for a duplicate, and the rest.
  unfoldable pub publish_once :
      Platform
      → (Text → String → Action Publisher Identifier)
      → ℕ
      → String
      → Action Publisher String
  publish_once platform publish draft_id key = do
    existing ← find_duplicate key
    elim existing [
      | some post ↦ pure (id_or_empty post.external_id)
      | none ↦ publish_draft platform publish draft_id key
    ]

  module _ (api : ℕ → HttpReply) where
    -- `XPublishTool.execute`, which returns more than the identifier.
    unfoldable pub execute_x : Credentials → ℕ → String → Action Publisher String
    execute_x creds draft_id key = do
      raise_if (not (has_x_credentials creds)) authentication_error
      publish_once x (publish_on_x api creds) draft_id key

    -- `LinkedInPublishTool.execute`, likewise.
    unfoldable pub execute_linkedin : Credentials → ℕ → String → Action Publisher String
    execute_linkedin creds draft_id key = do
      raise_if (not (is_set creds.access_token)) authentication_error
      publish_once linkedin (publish_on_linkedin api creds) draft_id key

    -- The tool of a platform.
    abbrev pub execute_on : Platform → Credentials → ℕ → String → Action Publisher String
    execute_on x = execute_x
    execute_on linkedin = execute_linkedin

    -- Calls one after another, each over a session of its own: what a call has not committed is lost.
    unfoldable pub publish_all : List PublishInput → Publisher → Publisher
    unfolding execute_x execute_linkedin
    publish_all [] s = s
    publish_all (input ∷ inputs) s =
        publish_all inputs
          (execute_on input.platform input.credentials input.draft_id input.idempotency_key
            (record s { now = s.saved })).1
