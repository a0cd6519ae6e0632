-- ===== src/Social/Routes.antt =====
-- app/api/routes/social.py. The engine, which executes a publishing tool with that tool approved, is a
-- parameter.
mod Laws
mod Tests
use agent_operator.Errors.{Error, validation_error, approval_required_error}
use agent_operator.Prelude.{
  ℕ, ◌≡◌, refl, ◌⊎◌, inl, inr, Bool, Bool-cases, Option-cases, true, false, not, Option, none, some,
  String, List, [], ◌∷◌, lookup, Result, ok, err, Action, pure, gets, lift, or_raise, raise_if,
  ◌>>=◌, ◌>>◌,
}
use agent_operator.Store.{Session, Approval, ApprovalStatus}
use agent_operator.Service.{get_approval}
use agent_operator.Social.{Draft, Platform, x, linkedin, Publisher}

-- What the dependencies of a request share: the session of the services and that of the publisher.
pub record Site : Type 0 where
  pub session : Session
  pub publisher : Publisher

pub record PublishRequest : Type 0 where
  pub draft_id : ℕ
  pub approval_id : ℕ
  pub idempotency_key : String

pub record PublishResult : Type 0 where
  pub platform : Platform
  pub external_id : String
  pub idempotency_key : String

unfoldable pub is_approved : ApprovalStatus → Bool
is_approved ApprovalStatus.approved = true
is_approved _ = false

abbrev pub tool_name : Platform → String
tool_name x = "social_publish_x"
tool_name linkedin = "social_publish_linkedin"

-- A call of a service, over its part of the state.
unfoldable pub on_services : {A : Type 0} → Action Session A → Action Site A
on_services m s = let (r, session) = m s.session in (r, record s { session = session })

-- `_load_approved_draft`.
unfoldable pub load_approved_draft : PublishRequest → Action Site Draft
load_approved_draft payload = do
  found ← gets (λ s. lookup payload.draft_id s.publisher.now.drafts)
  draft ← or_raise found validation_error
  approval ← on_services (get_approval payload.approval_id)
  raise_if (not (is_approved approval.status)) approval_required_error
  pure draft

-- The tool, its input, and the actions that its context approves.
module _ (engine : String → ℕ → String → List String → Action Site String) where
  unfoldable pub post_by_engine : Platform → PublishRequest → Action Site PublishResult
  post_by_engine platform payload = do
    external_id ←
        engine (tool_name platform) payload.draft_id payload.idempotency_key
          (tool_name platform ∷ [])
    pure (record {
      platform = platform;
      external_id = external_id;
      idempotency_key = payload.idempotency_key;
    })

  -- `publish_x` and `publish_linkedin`.
  unfoldable pub publish_post : Platform → PublishRequest → Action Site PublishResult
  publish_post platform payload = do load_approved_draft payload; post_by_engine platform payload
