-- ===== src/Content/Drafts/Laws.antt =====
-- The posts of a valid draft, and the threads whose posts are never too long.
use agent_operator.Prelude.{
  ℕ, zero, suc, ◌+◌, ◌≤◌, ◌<◌, ◌≡◌, refl, arith, inl, inr, Bool-cases, Bool, true, Option-cases,
  none, String, List, [], ◌∷◌, map, length, length-append, All, In, if◌then◌else◌,
}
use agent_operator.Text.{Text}
use agent_operator.Content.{thread_budget, build_raw_posts, split_into_sentences}
use agent_operator.Content.Laws.{IsFitting, build_raw_posts_exact}
use agent_operator.Content.Validation.{validate_content}
use agent_operator.Content.Validation.Laws.{IsAcceptable, validate_content_iff}
use agent_operator.Social.{Platform}
use agent_operator.Content.Drafts.{
  ThreadPost, ContentDraftToolInput, ContentDraftToolOutput, digits, str_of, suffix, number_from,
  number_posts, thread_issues, draft_thread, draft_single, is_thread, execute_draft,
}

length-digits : (fuel n : ℕ) → n < 10 → length (digits fuel n) ≡ 1
unfolding digits
length-digits zero n h = refl
length-digits (suc fuel) n h = ground (arith, h)

length-suffix : (index total : ℕ) → index < 10 → total < 10 → length (suffix index total) ≡ 4
unfolding suffix str_of
length-suffix index total h k = omega (
  arith,
  length-append (digits index index) (47 ∷ digits total total),
  length-digits index index h,
  length-digits total total k,
)

abbrev pub IsShort : ThreadPost → Type 0
IsShort post = length post.content ≤ 280

All-IsFitting :
    (sentences : List Text) (post : Text)
    → All (λ s. length s ≤ thread_budget) sentences
    → In post sentences
    → length post ≤ thread_budget
All-IsFitting [] post h x = elim x [ ]
All-IsFitting (s ∷ sentences) post h (inl here) = ground (arith, h.0, here)
All-IsFitting (s ∷ sentences) post h (inr there) = All-IsFitting sentences post h.1 there

fitting_length :
    (sentences : List Text) (post : Text)
    → All (λ s. length s ≤ thread_budget) sentences
    → IsFitting sentences post
    → length post ≤ thread_budget
fitting_length sentences post h (inl short) = short
fitting_length sentences post h (inr whole) = All-IsFitting sentences post h whole

number_from-IsShort :
    (sentences : List Text) (total index : ℕ) (texts : List Text)
    → All (λ s. length s ≤ thread_budget) sentences
    → total < 10
    → index + length texts ≤ suc total
    → All (IsFitting sentences) texts
    → All IsShort (number_from total index texts)
unfolding number_from
number_from-IsShort sentences total index [] h k b f = tt
number_from-IsShort sentences total index (text ∷ texts) h k b f =
    let low : index < 10 = omega (arith, b, k) in
    (
      omega (
        arith,
        length-append text (suffix index total),
        length-suffix index total low k,
        fitting_length sentences text h f.0,
      ),
      number_from-IsShort sentences total (suc index) texts h k (omega (arith, b)) f.1,
    )

-- If every sentence has 275 characters at most and there are no more than nine posts, then every
-- post of the thread, with its number, has 280 characters at most.
pub number_posts-IsShort :
    (content : Text)
    → All (λ s. length s ≤ thread_budget) (split_into_sentences content)
    → length (build_raw_posts content) ≤ 9
    → All IsShort (number_posts (build_raw_posts content))
unfolding number_posts
number_posts-IsShort content h k =
    number_from-IsShort (split_into_sentences content) (length (build_raw_posts content)) 1
      (build_raw_posts content) h (omega (arith, k)) (omega arith) (build_raw_posts_exact content).1

module _ (is_word : ℕ → Bool) (sha256 : Text → String) where
  -- The texts that a draft gives to post.
  abbrev pub texts_of : ContentDraftToolInput → ContentDraftToolOutput → List Text
  texts_of input output =
      if is_thread is_word sha256 input.platform input.content
      then map (λ post. post.content) output.thread_posts
      else output.formatted_content ∷ []

  valid-IsAcceptable :
      (platform : Platform) (content : Text)
      → (validate_content is_word sha256 platform content []).valid ≡ true
      → IsAcceptable is_word platform content
  valid-IsAcceptable platform content h =
      ((validate_content_iff is_word sha256 platform content []).0 h).0

  thread_issues-none :
      (platform : Platform) (posts : List ThreadPost)
      → thread_issues is_word sha256 platform posts ≡ none
      → All (IsAcceptable is_word platform) (map (λ post. post.content) posts)
  unfolding thread_issues
  thread_issues-none platform [] h = tt
  thread_issues-none platform (post ∷ posts) h =
      elim (Bool-cases (validate_content is_word sha256 platform post.content []).valid) [
        | inl valid ↦ (
          valid-IsAcceptable platform post.content valid,
          thread_issues-none platform posts (ground (arith, valid, h)),
        )
        | inr invalid ↦ absurd (ground (arith, invalid, h))
      ]

  thread_texts :
      (platform : Platform) (content : Text) (posts : List ThreadPost)
      → (draft_thread is_word sha256 content posts
          (thread_issues is_word sha256 platform posts)).valid
        ≡ true
      → All (IsAcceptable is_word platform) (
          map
            (λ post. post.content)
            (draft_thread is_word sha256 content posts
              (thread_issues is_word sha256 platform posts)).thread_posts)
  thread_texts platform content posts h =
      elim (Option-cases (thread_issues is_word sha256 platform posts)) [
        | inl passed ↦ rw passed (thread_issues-none platform posts passed)
        | inr (issues, found) ↦ absurd (ground (arith, found, h))
      ]

  single_text :
      (platform : Platform) (content : Text)
      → (draft_single is_word sha256 content
          (validate_content is_word sha256 platform content [])).valid
        ≡ true
      → IsAcceptable is_word platform
          (draft_single is_word sha256 content
            (validate_content is_word sha256 platform content [])).formatted_content
  single_text platform content h =
      elim (Bool-cases (validate_content is_word sha256 platform content []).valid) [
        | inl valid ↦ rw valid (valid-IsAcceptable platform content valid)
        | inr invalid ↦ absurd (ground (arith, invalid, h))
      ]

  -- If the draft tool finds its input valid, then every text that it gives to post, be it the content
  -- or a numbered post of a thread, passes the checks of the platform.
  pub execute_draft-IsAcceptable :
      (input : ContentDraftToolInput)
      → (execute_draft is_word sha256 input).valid ≡ true
      → All
          (IsAcceptable is_word input.platform)
          (texts_of input (execute_draft is_word sha256 input))
  unfolding execute_draft
  execute_draft-IsAcceptable input h =
      elim (Bool-cases (is_thread is_word sha256 input.platform input.content)) [
        | inl long ↦ rw long (thread_texts input.platform input.content _ (rw long at h))
        | inr fits ↦ rw fits (single_text input.platform input.content (rw fits at h), tt)
      ]
