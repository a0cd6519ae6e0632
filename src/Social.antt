-- ===== src/Social.antt =====
-- app/social/x_adapter.py and linkedin_adapter.py: publishing through the API of a platform.
pub mod Publish
pub mod Routes
pub mod Verify
use agent_operator.Errors.{
  Error, authentication_error, rate_limit_error, tool_error, other_exception,
}
use agent_operator.Prelude.{
  ℕ, String, str_eq, Bool, true, false, not, ◌==◌, ◌&&◌, ◌||◌, Option, none, some, List, [], ◌∷◌,
  length, if◌then◌else◌, Table, Result, ok, err, Action, lift, raise_if, ◌>>=◌, ◌>>◌,
}
use agent_operator.Text.{Text}

pub data Platform : Type 0 where
  x linkedin : Platform

-- What a platform gives for the identifier of a new post: a text, null, or another value of JSON.
pub data Identifier : Type 0 where
  text : String → Identifier
  null other : Identifier

-- What an HTTP request ends in: a status with the identifier that the body or a header carries, where
-- reading it does not raise, or an exception of the HTTP client.
pub data HttpReply : Type 0 where
  response : ℕ → Option Identifier → HttpReply
  raises : Error → HttpReply

pub record Draft : Type 0 where
  pub content : Text

pub data ExecutionStatus : Type 0 where
  pending succeeded failed : ExecutionStatus

pub data VerificationStatus : Type 0 where
  unverified verified failed : VerificationStatus

pub record SocialPost : Type 0 where
  pub draft_id : ℕ
  pub platform : Platform
  pub idempotency_key : String
  pub content_hash : String
  pub external_id : Option String
  pub execution_status : ExecutionStatus
  pub verification_status : VerificationStatus

pub record PublishAttempt : Type 0 where
  pub social_post_id : ℕ
  pub status : ExecutionStatus

pub record PostDatabase : Type 0 where
  pub drafts : Table Draft
  pub posts : Table SocialPost
  pub attempts : Table PublishAttempt

-- A request that was sent to a platform. The idempotency key is not sent: it is noted for whom the
-- request was made.
pub record ApiRequest : Type 0 where
  pub platform : Platform
  pub idempotency_key : String
  pub content : Text

-- A session over the database, and the requests sent so far, newest first.
pub record Publisher : Type 0 where
  pub now : PostDatabase
  pub saved : PostDatabase
  pub requests : List ApiRequest

pub record Credentials : Type 0 where
  pub access_token : Option String
  pub bearer_token : Option String
  pub author_urn : Option String

-- The truth value of a text or None.
abbrev pub is_set : Option String → Bool
is_set none = false
is_set (some s) = not (str_eq s "")

-- `XAdapter._require_credentials`, as a test.
unfoldable pub has_x_credentials : Credentials → Bool
has_x_credentials creds = is_set creds.access_token || is_set creds.bearer_token

-- `response.json()` and the `get` calls behind it.
abbrev pub read_id : Option Identifier → Result Identifier
read_id none = err other_exception
read_id (some id) = ok id

-- What `XAdapter.publish` makes of a reply.
unfoldable pub x_result : HttpReply → Result Identifier
x_result (raises e) = err e
x_result (response status id) =
    if status == 201
    then read_id id
    else if status == 429
    then err rate_limit_error
    else if status == 401 || status == 403
    then err authentication_error
    else err tool_error

-- What `LinkedInAdapter.publish` makes of a reply.
unfoldable pub linkedin_result : HttpReply → Result Identifier
linkedin_result (raises e) = err e
linkedin_result (response status id) =
    if status == 200 || status == 201
    then read_id id
    else if status == 429
    then err rate_limit_error
    else if status == 401 || status == 403
    then err authentication_error
    else err tool_error

module _ (api : ℕ → HttpReply) where
  -- `client.post`: the reply of the n-th request.
  unfoldable pub post_request : Platform → String → Text → Action Publisher HttpReply
  post_request platform key content s = (
    ok (api (length s.requests)),
    record s {
      requests =
          record { platform = platform; idempotency_key = key; content = content } ∷ s.requests;
    },
  )

  -- `XAdapter.publish`.
  unfoldable pub publish_on_x : Credentials → Text → String → Action Publisher Identifier
  publish_on_x creds content key = do
    raise_if (not (has_x_credentials creds)) authentication_error
    reply ← post_request x key content
    lift (x_result reply)

  -- `LinkedInAdapter.publish`.
  unfoldable pub publish_on_linkedin : Credentials → Text → String → Action Publisher Identifier
  publish_on_linkedin creds content key = do
    raise_if (not (is_set creds.access_token)) authentication_error
    raise_if (not (is_set creds.author_urn)) authentication_error
    reply ← post_request linkedin key content
    lift (linkedin_result reply)
