-- ===== src/Content/Routes.antt =====
-- The handlers of app/api/routes/content.py, each over a session of its own.
mod Laws
mod Tests
use agent_operator.Errors.{validation_error}
use agent_operator.Prelude.{
  ℕ, Bool, true, false, not, Option, none, some, String, List, [], ◌∷◌, Table, lookup, insert,
  new_key, Result, ok, err, Action, pure, gets, lift, modify, or_raise, raise_if, ◌>>=◌, ◌>>◌,
  if◌then◌else◌,
}
use agent_operator.Text.{Text}
use agent_operator.Content.Validation.{validate_content}
use agent_operator.Social.{Platform}

pub data DraftStatus : Type 0 where
  draft approved published rejected : DraftStatus

-- A row of `drafts`.
pub record DraftRow : Type 0 where
  pub platform : Platform
  pub content : Text
  pub status : DraftStatus

pub record ClaimInput : Type 0 where
  pub claim : Text
  -- In thousandths.
  pub confidence : ℕ

pub data DraftRequest : Type 0 where
  post_draft : Platform → Text → List ClaimInput → DraftRequest
  read_draft : ℕ → DraftRequest
  patch_draft : ℕ → Option Text → Option DraftStatus → DraftRequest

-- What a session sees, and what is committed.
pub record DraftSession : Type 0 where
  pub now : Table DraftRow
  pub saved : Table DraftRow

unfoldable pub put_draft : ℕ → DraftRow → Action DraftSession (Unit {0})
put_draft id row = modify (λ s. record s { now = insert id row s.now })

unfoldable pub commit_drafts : Action DraftSession (Unit {0})
commit_drafts = modify (λ s. record s { saved = s.now })

module _ (is_word : ℕ → Bool) (sha256 : Text → String)
    (generate : Platform → Text → List ClaimInput → Result Text) where
  abbrev pub draft_content : Platform → Text → List ClaimInput → Result Text
  draft_content platform content [] = ok content
  draft_content platform content (claim ∷ research) = generate platform content (claim ∷ research)

  abbrev pub raise_if_invalid : Platform → Text → Action DraftSession (Unit {0})
  raise_if_invalid platform content =
      raise_if (not (validate_content is_word sha256 platform content []).valid) validation_error

  unfoldable pub create_draft : Platform → Text → List ClaimInput → Action DraftSession DraftRow
  create_draft platform given research = do
    content ← lift (draft_content platform given research)
    raise_if_invalid platform content
    id ← gets (λ s. new_key s.now)
    put_draft id (record { platform = platform; content = content; status = draft })
    commit_drafts
    pure (record { platform = platform; content = content; status = draft })

  unfoldable pub get_draft : ℕ → Action DraftSession DraftRow
  get_draft id = do found ← gets (λ s. lookup id s.now); or_raise found validation_error

  abbrev pub raise_if_changed : Platform → Option Text → Action DraftSession (Unit {0})
  raise_if_changed platform none = pure tt
  raise_if_changed platform (some content) = raise_if_invalid platform content

  abbrev pub changed : {A : Type 0} → Option A → A → A
  changed none old = old
  changed (some new) old = new

  unfoldable pub update_draft : ℕ → Option Text → Option DraftStatus → Action DraftSession DraftRow
  update_draft id content status = do
    found ← gets (λ s. lookup id s.now)
    row ← or_raise found validation_error
    raise_if_changed row.platform content
    let new = record row {
      content = changed content row.content;
      status = changed status row.status;
    } in
        put_draft id new >> commit_drafts >> pure new

  unfoldable pub handle_draft : DraftRequest → Action DraftSession DraftRow
  handle_draft (post_draft platform content research) = create_draft platform content research
  handle_draft (read_draft id) = get_draft id
  handle_draft (patch_draft id content status) = update_draft id content status

  -- The table after a sequence of requests, each over a session of its own.
  unfoldable pub serve_drafts : List DraftRequest → Table DraftRow → Table DraftRow
  serve_drafts [] table = table
  serve_drafts (request ∷ requests) table =
      serve_drafts requests (handle_draft request (record { now = table; saved = table })).1.saved
