-- ===== src/Social/Verify/Tests.antt =====
-- The verification of a post on X, and the theorems about it.
use agent_operator.Errors.{value_error, tool_error, other_exception}
use agent_operator.Prelude.{
  String, ◌≡◌, refl, ◌⊎◌, ℕ, none, some, List, [], ◌∷◌, insert, err, ◌>>=◌,
}
use agent_operator.Social.{
  VerificationStatus, has_x_credentials, unverified, verified, succeeded, SocialPost, Credentials,
}
use agent_operator.Social.Verify.{
  VerifyPlatform, VerifyInput, VerifyDatabase, Verifier, PostReply, response, Details, texts,
  posts_with, reply_confirms, verify_on, verify_x, status_of, store_status, execute_verify,
}
use agent_operator.Social.Verify.Laws.{AreMatches, Concludes, IsStored, execute_verify_exact}

abbrev posted_on_x : SocialPost
posted_on_x = record {
  draft_id = 0;
  platform = agent_operator.Social.x;
  idempotency_key = "key";
  content_hash = "hash";
  external_id = some "42";
  execution_status = succeeded;
  verification_status = unverified;
}

abbrev x_creds : Credentials
x_creds = record { access_token = some "t"; bearer_token = none; author_urn = none }

abbrev still_there : String → PostReply
still_there _ = response 200 texts

-- The text of the post is null.
abbrev without_text : String → PostReply
without_text _ = response 200 Details.other

abbrev verify_input : VerifyInput
verify_input = record {
  post_id = "42";
  platform = VerifyPlatform.x;
  expected_content_hash = "hash";
}

abbrev one_post_stored : VerifyDatabase
one_post_stored = record { posts = (3, posted_on_x) ∷ []; results = [] }

abbrev demo_verifier : Verifier
demo_verifier = record { now = one_post_stored; saved = one_post_stored }

-- The exception comes after the commit.
raised_after_commit :
    let (r, s') = execute_verify without_text x_creds verify_input demo_verifier in
    (r ≡ err value_error)
    × (s'.saved.posts ≡ (3, record posted_on_x { verification_status = verified }) ∷ [])
unfolding execute_verify posts_with verify_on verify_x has_x_credentials reply_confirms status_of
    store_status insert ◌>>=◌
raised_after_commit = (refl, refl)

execute_verify_exact_example :
    let (r, s') = execute_verify still_there x_creds verify_input demo_verifier in
    ((key : ℕ) × (post : SocialPost) × (status : VerificationStatus) × AreMatches "42"
        one_post_stored.posts
        ((key, post) ∷ [])
      × Concludes still_there x_creds verify_input post status r
      × IsStored still_there x_creds demo_verifier s' key post status)
    ⊎ (AreMatches "42" one_post_stored.posts [] × (r ≡ err tool_error) × (s' ≡ demo_verifier))
    ⊎ ((p : ℕ × SocialPost) × (q : ℕ × SocialPost) × (rest : List (ℕ × SocialPost)) × AreMatches
          "42" one_post_stored.posts
          (p ∷ q ∷ rest)
        × (r ≡ err other_exception)
        × (s' ≡ demo_verifier))
execute_verify_exact_example = execute_verify_exact still_there x_creds verify_input demo_verifier
