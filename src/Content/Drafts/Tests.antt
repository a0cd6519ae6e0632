-- ===== src/Content/Drafts/Tests.antt =====
-- A short draft and a short thread.
use agent_operator.Prelude.{◌≡◌, ◌≤◌, refl, arith, true, All, length}
use agent_operator.Text.{Text, codes, strip, lstrip, rstrip, is_space, is_empty, starts_with}
use agent_operator.Social.{x}
use agent_operator.Content.{
  thread_budget, split, strip_all, split_into_sentences, build_posts, group, build_raw_posts,
}
use agent_operator.Content.Validation.{validate_content, first_malformed, find_urls, url_at}
use agent_operator.Content.Validation.Laws.{IsAcceptable}
use agent_operator.Content.Drafts.{
  ContentDraftToolInput, execute_draft, number_posts, str_of, digits,
}
use agent_operator.Content.Drafts.Laws.{
  IsShort, texts_of, number_posts-IsShort, execute_draft-IsAcceptable,
}

digits_of : str_of 2024 ≡ codes "2024"
unfolding str_of digits
digits_of = refl

abbrev two_sentences : Text
two_sentences = codes "Hi. Bye."

sentences_short : All (λ s. length s ≤ thread_budget) (split_into_sentences two_sentences)
unfolding split_into_sentences split strip_all strip lstrip rstrip is_space is_empty
sentences_short = (omega arith, (omega arith, tt))

posts_few : length (build_raw_posts two_sentences) ≤ 9
unfolding build_raw_posts group build_posts split_into_sentences split strip_all strip lstrip rstrip
    is_space is_empty
posts_few = omega arith

number_posts-IsShort_example : All IsShort (number_posts (build_raw_posts two_sentences))
number_posts-IsShort_example = number_posts-IsShort two_sentences sentences_short posts_few

abbrev note : ContentDraftToolInput
note = record { platform = x; content = codes "Hello." }

note_valid : (execute_draft (λ c. true) (λ t. "") note).valid ≡ true
unfolding execute_draft validate_content is_empty strip lstrip rstrip is_space first_malformed
    find_urls url_at starts_with
note_valid = refl

execute_draft-IsAcceptable_example :
    All
      (IsAcceptable (λ c. true) x)
      (texts_of (λ c. true) (λ t. "") note (execute_draft (λ c. true) (λ t. "") note))
execute_draft-IsAcceptable_example =
    execute_draft-IsAcceptable (λ c. true) (λ t. "") note note_valid
