-- ===== src/Social/Verify.antt =====
-- app/tools/builtin/social_verify.py, with `verify` of the two adapters: whether a published post is
-- still there. What a platform replies to the request for a post is given.
pub mod Found
pub mod Laws
mod Tests
use agent_operator.Errors.{Error, value_error, tool_error, other_exception}
use agent_operator.Prelude.{
  ℕ, String, str_eq, Bool, true, false, not, ◌==◌, ◌&&◌, Option, none, some, List, [], ◌∷◌,
  if◌then◌else◌, Table, insert, new_key, Result, ok, err, Action, pure, raise, lift, gets, or_raise,
  ◌>>=◌, ◌>>◌,
}
use agent_operator.Social.{
  VerificationStatus, verified, SocialPost, Credentials, is_set, has_x_credentials,
}

-- The text under "platform" of the input.
pub data VerifyPlatform : Type 0 where
  x linkedin unsupported : VerifyPlatform

-- A row of `verification_results`.
pub record VerificationResult : Type 0 where
  pub social_post_id : ℕ
  pub status : VerificationStatus

pub record VerifyDatabase : Type 0 where
  pub posts : Table SocialPost
  pub results : Table VerificationResult

pub record Verifier : Type 0 where
  pub now : VerifyDatabase
  pub saved : VerifyDatabase

pub record VerifyInput : Type 0 where
  pub post_id : String
  pub platform : VerifyPlatform
  pub expected_content_hash : String

-- What the body of a reply gives for the details: reading it raises, or its values are texts, or one is
-- not, such as null.
pub data Details : Type 0 where
  unreadable texts other : Details

-- What the request for a post ends in.
pub data PostReply : Type 0 where
  response : ℕ → Details → PostReply
  raises : Error → PostReply

-- What `verify` returns: its first component, and whether the details are texts.
pub record Checked : Type 0 where
  pub verified : Bool
  pub textual : Bool

abbrev pub not_verified : Checked
not_verified = record { verified = false; textual = true }

abbrev pub body_confirms : Details → Result Checked
body_confirms unreadable = err other_exception
body_confirms texts = ok (record { verified = true; textual = true })
body_confirms other = ok (record { verified = true; textual = false })

-- What `verify` of either adapter makes of a reply.
unfoldable pub reply_confirms : PostReply → Result Checked
reply_confirms (raises e) = err e
reply_confirms (response status body) =
    if status == 200 then body_confirms body else ok not_verified

abbrev pub has_external_id : String → Option String → Bool
has_external_id id none = false
has_external_id id (some given) = str_eq given id

-- The rows with an external identifier.
unfoldable pub posts_with : String → Table SocialPost → List (ℕ × SocialPost)
posts_with id [] = []
posts_with id ((key, post) ∷ posts) =
    let rest = posts_with id posts in
    if has_external_id id post.external_id then (key, post) ∷ rest else rest

-- `scalar_one_or_none()`, and the ToolError where it is None.
abbrev pub one_post : List (ℕ × SocialPost) → Result (ℕ × SocialPost)
one_post [] = err tool_error
one_post (post ∷ []) = ok post
one_post (_ ∷ _ ∷ _) = err other_exception

-- The `try` statement: an exception leaves `verified` false, and its text in the details.
abbrev pub or_not_verified : Result Checked → Checked
or_not_verified (ok checked) = checked
or_not_verified (err e) = not_verified

-- The request for a post, by its identifier.
module _ (fetch : String → PostReply) (creds : Credentials) where
  -- `_verify_x`.
  unfoldable pub verify_x : Option String → Result Checked
  verify_x none = ok not_verified
  verify_x (some id) =
      if str_eq id ""
      then ok not_verified
      else if not (has_x_credentials creds)
      then ok not_verified
      else reply_confirms (fetch id)

  -- `_verify_linkedin`.
  unfoldable pub verify_linkedin : Option String → Result Checked
  verify_linkedin none = ok not_verified
  verify_linkedin (some id) =
      if str_eq id ""
      then ok not_verified
      else if not (is_set creds.access_token)
      then ok not_verified
      else reply_confirms (fetch id)

  unfoldable pub verify_on : VerifyPlatform → Option String → Result Checked
  verify_on x id = verify_x id
  verify_on linkedin id = verify_linkedin id
  verify_on unsupported id = ok not_verified

  -- With the comparison of the hashes.
  unfoldable pub status_of : VerifyInput → SocialPost → Checked → VerificationStatus
  status_of input post checked =
      if checked.verified && str_eq post.content_hash input.expected_content_hash
      then verified
      else VerificationStatus.failed

  -- The row of the post and a new result, committed.
  unfoldable pub store_status : ℕ → SocialPost → VerificationStatus → Action Verifier (Unit {0})
  store_status key post status s =
      let db : VerifyDatabase = record {
        posts = insert key (record post { verification_status = status }) s.now.posts;
        results =
            insert (new_key s.now.results) (record { social_post_id = key; status = status })
              s.now.results;
      } in
      (ok tt, record { now = db; saved = db })

  -- The output, whose details must be texts; `ValidationError` of pydantic is a ValueError.
  abbrev pub verify_output : Checked → VerificationStatus → Action Verifier VerificationStatus
  verify_output checked status = if checked.textual then pure status else raise value_error

  -- `execute`.
  unfoldable pub execute_verify : VerifyInput → Action Verifier VerificationStatus
  execute_verify input = do
    rows ← gets (λ s. posts_with input.post_id s.now.posts)
    (key, post) ← lift (one_post rows)
    let checked = or_not_verified (verify_on input.platform post.external_id)
    let status = status_of input post checked
    store_status key post status
    verify_output checked status
