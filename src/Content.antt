-- ===== src/Content.antt =====
-- app/tools/builtin/content.py: the splitting of a long text into the posts of a thread.
pub mod Laws
pub mod Validation
pub mod Drafts
pub mod Tone
pub mod Routes
mod Tests
use agent_operator.Prelude.{ℕ, ◌+◌, Bool, true, false, ◌||◌, List, [], ◌∷◌, ◌++◌, length, ltb, ◌==◌}
use agent_operator.Text.{Text, strip, is_empty, is_space}

-- `_THREAD_BUDGET`.
abbrev pub thread_budget : ℕ
thread_budget = 275

-- `[.!?]`.
abbrev pub is_mark : ℕ → Bool
is_mark c = c == 46 || (c == 33 || c == 63)

-- Where the scan of `_SENTENCE_SPLIT` stands: in a sentence, after a mark, or in the white space
-- that follows one.
pub data Place : Type 0 where
  inside after_mark gap : Place

abbrev place_of : Bool → Place
place_of true = after_mark
place_of false = inside

-- `_SENTENCE_SPLIT.split`, with the piece that is being read.
unfoldable pub split : Place → Text → Text → List Text
split place piece [] = piece ∷ []
split inside piece (c ∷ s) = split (place_of (is_mark c)) (piece ++ c ∷ []) s
split after_mark piece (c ∷ s) = elim (is_space c) [
  | true ↦ piece ∷ split gap [] s
  | false ↦ split (place_of (is_mark c)) (piece ++ c ∷ []) s
]
split gap piece (c ∷ s) = elim (is_space c) [
  | true ↦ split gap piece s
  | false ↦ split (place_of (is_mark c)) (piece ++ c ∷ []) s
]

unfoldable pub strip_all : List Text → List Text
strip_all [] = []
strip_all (piece ∷ pieces) = elim (is_empty (strip piece)) [
  | true ↦ strip_all pieces
  | false ↦ strip piece ∷ strip_all pieces
]

unfoldable pub split_into_sentences : Text → List Text
split_into_sentences text = strip_all (split inside [] (strip text))

-- `" ".join`.
unfoldable pub join : List Text → Text
join [] = []
join (s ∷ []) = s
join (s ∷ t ∷ ss) = s ++ 32 ∷ join (t ∷ ss)

-- The loop of `_build_raw_posts`, from an empty `current` and from one that has a first sentence.
-- The posts come in the order in which the source appends them.
unfoldable pub build_posts : Text → List Text → ℕ → List Text → List Text
build_posts first more current_len [] = join (first ∷ more) ∷ []
build_posts first more current_len (sentence ∷ sentences) =
    let needed = current_len + 1 + length sentence in
    elim (ltb thread_budget needed) [
      | true ↦ join (first ∷ more) ∷ build_posts sentence [] (length sentence) sentences
      | false ↦ build_posts first (more ++ sentence ∷ []) needed sentences
    ]

unfoldable pub group : List Text → List Text
group [] = []
group (sentence ∷ sentences) = build_posts sentence [] (length sentence) sentences

unfoldable pub build_raw_posts : Text → List Text
build_raw_posts content = group (split_into_sentences content)
