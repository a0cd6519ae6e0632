-- ===== src/Content/Tests.antt =====
-- The sentences and the thread of short texts.
use agent_operator.Prelude.{◌≡◌, refl, [], ◌∷◌, All}
use agent_operator.Text.{Text, strip, lstrip, rstrip, is_space, is_empty}
use agent_operator.Content.{
  split, strip_all, split_into_sentences, join, build_raw_posts, build_posts, group,
}
use agent_operator.Content.Laws.{IsFitting, build_raw_posts_exact}

-- "A.  B! C"
abbrev three_sentences : Text
three_sentences = 65 ∷ 46 ∷ 32 ∷ 32 ∷ 66 ∷ 33 ∷ 32 ∷ 67 ∷ []

sentences_of :
    split_into_sentences three_sentences ≡ (65 ∷ 46 ∷ []) ∷ (66 ∷ 33 ∷ []) ∷ (67 ∷ []) ∷ []
unfolding split_into_sentences split strip_all strip lstrip rstrip is_space is_empty
sentences_of = refl

posts_of : build_raw_posts three_sentences ≡ (65 ∷ 46 ∷ 32 ∷ 66 ∷ 33 ∷ 32 ∷ 67 ∷ []) ∷ []
unfolding build_raw_posts group build_posts join split_into_sentences split strip_all strip lstrip
    rstrip is_space is_empty
posts_of = refl

build_raw_posts_exact_example :
    let posts = build_raw_posts three_sentences in
    let sentences = split_into_sentences three_sentences in
    (join posts ≡ join sentences) × All (IsFitting sentences) posts
build_raw_posts_exact_example = build_raw_posts_exact three_sentences
