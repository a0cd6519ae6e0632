-- ===== src/Content/Drafts.antt =====
-- The tools of app/tools/builtin/content.py, and the numbers of the posts of a thread.
mod Laws
mod Tests
use agent_operator.Prelude.{
  ℕ, zero, suc, ◌+◌, ◌/◌, ◌%◌, Bool, true, false, not, ◌&&◌, Option, none, some, String, List, [],
  ◌∷◌, ◌++◌, length, ltb, Action, pure, ◌>>=◌, if◌then◌else◌,
}
use agent_operator.Text.{Text, strip, is_empty}
use agent_operator.Content.{build_raw_posts}
use agent_operator.Content.Validation.{
  Check, formatting, as_validation, found_issues, ContentValidationResult, validate_content,
}
use agent_operator.Social.{Platform, x, linkedin}

pub record ThreadPost : Type 0 where
  pub index : ℕ
  pub total : ℕ
  pub content : Text

pub data TonePreference : Type 0 where
  professional technical educational casual : TonePreference

pub record ContentDraftToolInput : Type 0 where
  pub platform : Platform
  pub content : Text

pub record ContentDraftToolOutput : Type 0 where
  pub valid : Bool
  pub thread_posts : List ThreadPost
  pub issues : List Check
  pub formatted_content : Text

pub record ContentValidateToolInput : Type 0 where
  pub platform : Platform
  pub content : Text
  pub tone : Option TonePreference

-- The digits of a number, on as much fuel as the number.
unfoldable pub digits : ℕ → ℕ → Text
digits zero n = (48 + n % 10) ∷ []
digits (suc fuel) n =
    let rest = digits fuel (n / 10) in
    if ltb n 10 then (48 + n) ∷ [] else rest ++ (48 + n % 10) ∷ []

-- `str` of a number.
unfoldable pub str_of : ℕ → Text
str_of n = digits n n

-- `f" {i + 1}/{total}"`.
unfoldable pub suffix : ℕ → ℕ → Text
suffix index total = 32 ∷ str_of index ++ 47 ∷ str_of total

-- `_number_posts`, from an index on.
unfoldable pub number_from : ℕ → ℕ → List Text → List ThreadPost
number_from total index [] = []
number_from total index (text ∷ texts) =
    record { index = index; total = total; content = text ++ suffix index total }
    ∷ number_from total (suc index) texts

unfoldable pub number_posts : List Text → List ThreadPost
number_posts raw_posts = number_from (length raw_posts) 1 raw_posts

-- `"\n\n".join`.
unfoldable pub join_blank : List ThreadPost → Text
join_blank [] = []
join_blank (post ∷ []) = post.content
join_blank (post ∷ next ∷ posts) = post.content ++ (10 ∷ 10 ∷ join_blank (next ∷ posts))

abbrev pub refused : Text → List Check → ContentDraftToolOutput
refused content issues = record {
  valid = false;
  thread_posts = [];
  issues = issues;
  formatted_content = content;
}

-- `ToneSafetyChecker.check`, if the tool has a checker.
abbrev pub ToneChecker : Type 0 → Type 0
ToneChecker S = Option (Text → TonePreference → Action S (List Check))

module _ (is_word : ℕ → Bool) (sha256 : Text → String) where
  -- The issues of the first post that has any.
  unfoldable pub thread_issues : Platform → List ThreadPost → Option (List Check)
  thread_issues platform [] = none
  thread_issues platform (post ∷ posts) =
      let rest = thread_issues platform posts in
      let validation = validate_content is_word sha256 platform post.content [] in
      if validation.valid then rest else some validation.issues

  abbrev pub draft_thread : Text → List ThreadPost → Option (List Check) → ContentDraftToolOutput
  draft_thread content posts (some issues) = refused content issues
  draft_thread content posts none = record {
    valid = true;
    thread_posts = posts;
    issues = [];
    formatted_content = join_blank posts;
  }

  abbrev pub draft_single : Text → ContentValidationResult → ContentDraftToolOutput
  draft_single content validation =
      if validation.valid
      then record { valid = true; thread_posts = []; issues = []; formatted_content = content }
      else refused content validation.issues

  abbrev pub is_thread : Platform → Text → Bool
  is_thread x content = ltb 280 (length content)
  is_thread linkedin content = false

  -- `ContentDraftTool.execute`.
  unfoldable pub execute_draft : ContentDraftToolInput → ContentDraftToolOutput
  execute_draft tool_input =
      let posts = number_posts (build_raw_posts tool_input.content) in
      if is_thread tool_input.platform tool_input.content
      then draft_thread tool_input.content posts (thread_issues tool_input.platform posts)
      else draft_single tool_input.content
          (validate_content is_word sha256 tool_input.platform tool_input.content [])

  module _ {S : Type 0} where
    abbrev pub tone_issues : ToneChecker S → Text → Option TonePreference → Action S (List Check)
    tone_issues none content _ = pure []
    tone_issues (some check) content none = pure []
    tone_issues (some check) content (some tone) = check content tone

    abbrev pub with_tone :
        ContentValidationResult → Action S (List Check) → Action S ContentValidationResult
    with_tone result check =
        if result.valid then check >>= (λ issues. pure (as_validation issues)) else pure result

    -- `ContentValidateTool.execute`.
    unfoldable pub execute_validate :
        ToneChecker S → ContentValidateToolInput → Action S ContentValidationResult
    execute_validate tone_checker tool_input =
        with_tone (validate_content is_word sha256 tool_input.platform tool_input.content [])
          (tone_issues tone_checker tool_input.content tool_input.tone)

    -- `validate_content_async`.
    unfoldable pub validate_content_async :
        Platform
        → Text
        → List String
        → Option TonePreference
        → ToneChecker S
        → Action S ContentValidationResult
    validate_content_async platform content existing_hashes tone tone_checker =
        if is_empty (strip content)
        then pure (record { valid = false; issues = formatting ∷ [] })
        else (tone_issues tone_checker content tone >>= λ issues. pure (
            as_validation (found_issues is_word sha256 platform content existing_hashes ++ issues)))
