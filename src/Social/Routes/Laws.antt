-- ===== src/Social/Routes/Laws.antt =====
-- When a request to publish reaches the engine.
use agent_operator.Errors.{Error, validation_error, approval_required_error}
use agent_operator.Prelude.{
  ℕ, ◌≡◌, refl, ◌⊎◌, inl, inr, Bool-cases, Option-cases, true, false, none, some, String, List, [],
  ◌∷◌, lookup, Result, ok, err, Action, ◌>>=◌,
}
use agent_operator.Store.{Approval, ApprovalStatus}
use agent_operator.Service.{get_approval}
use agent_operator.Social.{Draft, Platform}
use agent_operator.Social.Routes.{
  Site, PublishRequest, PublishResult, tool_name, is_approved, on_services, load_approved_draft,
  post_by_engine, publish_post,
}

-- A draft, and an approval whose status is approved.
pub record IsCleared (payload : PublishRequest) (s : Site) : Type 0 where
  pub draft : Draft
  pub drafted : lookup payload.draft_id s.publisher.now.drafts ≡ some draft
  pub approval : Approval
  pub requested : lookup payload.approval_id s.session.now.approvals ≡ some approval
  pub approved : approval.status ≡ ApprovalStatus.approved

-- Why a request is refused, by the error that it raises.
pub data IsRefused (payload : PublishRequest) (s : Site) : Error → Type 0 where
  undrafted :
      lookup payload.draft_id s.publisher.now.drafts ≡ none → IsRefused payload s validation_error
  unrequested :
      lookup payload.approval_id s.session.now.approvals ≡ none
      → IsRefused payload s validation_error
  unapproved :
      (approval : Approval)
      → lookup payload.approval_id s.session.now.approvals ≡ some approval
      → ¬ (approval.status ≡ ApprovalStatus.approved)
      → IsRefused payload s approval_required_error

is_approved_sound :
    (status : ApprovalStatus) → is_approved status ≡ true → status ≡ ApprovalStatus.approved
unfolding is_approved
is_approved_sound ApprovalStatus.pending h = cc
is_approved_sound ApprovalStatus.approved h = refl
is_approved_sound ApprovalStatus.rejected h = cc

is_approved_complete :
    (status : ApprovalStatus) → is_approved status ≡ false → ¬ (status ≡ ApprovalStatus.approved)
unfolding is_approved
is_approved_complete ApprovalStatus.pending h = λ e. cc
is_approved_complete ApprovalStatus.approved h = λ e. cc
is_approved_complete ApprovalStatus.rejected h = λ e. cc

-- What a request makes of the answer of the engine.
abbrev pub forwarded :
    Platform → PublishRequest → Result String × Site → Result PublishResult × Site
forwarded platform payload (ok id, s) = (
  ok (record { platform = platform; external_id = id; idempotency_key = payload.idempotency_key }),
  s,
)
forwarded platform payload (err e, s) = (err e, s)

module _ (engine : String → ℕ → String → List String → Action Site String) where
  -- The engine executes the tool of the platform for the draft, with the key of the request and with
  -- that tool approved.
  abbrev pub executed : Platform → PublishRequest → Site → Result String × Site
  executed platform payload =
      engine (tool_name platform) payload.draft_id payload.idempotency_key (tool_name platform ∷ [])

  post_by_engine_lem :
      (platform : Platform) (payload : PublishRequest) (s : Site) (a : Result String × Site)
      → executed platform payload s ≡ a
      → post_by_engine engine platform payload s ≡ forwarded platform payload a
  unfolding post_by_engine ◌>>=◌
  post_by_engine_lem platform payload s (ok id, s') h = rw h refl
  post_by_engine_lem platform payload s (err e, s') h = rw h refl

  -- Either the draft exists and the approval has the status approved, and then the engine executes the
  -- tool of the platform for the draft, with the key of the request and that tool approved, over the
  -- unchanged state, and the route returns its identifier or raises what it raises; or nothing is
  -- changed, and the route raises a ValidationError, where the draft or the approval does not exist, or
  -- an ApprovalRequiredError, where the approval has another status.
  pub publish_post_exact :
      (platform : Platform) (payload : PublishRequest) (s : Site)
      → (IsCleared payload s
          × (publish_post engine platform payload s
              ≡ forwarded platform payload (executed platform payload s)))
        ⊎ ((e : Error) × IsRefused payload s e
            × (publish_post engine platform payload s ≡ (err e, s)))
  unfolding publish_post load_approved_draft on_services get_approval ◌>>=◌
  publish_post_exact platform payload s =
      elim (Option-cases (lookup payload.draft_id s.publisher.now.drafts)) [
        | inl missing ↦ inr (validation_error, undrafted missing, rw missing refl)
        | inr (draft, drafted) ↦
            elim (Option-cases (lookup payload.approval_id s.session.now.approvals)) [
              | inl unknown ↦
                  inr (validation_error, unrequested unknown, rw (drafted, unknown) refl)
              | inr (approval, requested) ↦ elim (Bool-cases (is_approved approval.status)) [
                | inl passed ↦ inl (
                  record {
                    draft = draft;
                    drafted = drafted;
                    approval = approval;
                    requested = requested;
                    approved = is_approved_sound approval.status passed;
                  },
                  rw (drafted, requested, passed) (post_by_engine_lem platform payload s _ refl),
                )
                | inr open_yet ↦ inr (
                  approval_required_error,
                  unapproved approval requested (is_approved_complete approval.status open_yet),
                  rw (drafted, requested, open_yet) refl,
                )
              ]
            ]
      ]
