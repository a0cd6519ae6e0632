-- ===== src/Social/Publish/Keys.antt =====
-- The idempotency keys of the posts, and the requests that were sent for each.
use agent_operator.Prelude.{
  ℕ, ◌+◌, ◌≤◌, ◌≡◌, refl, inl, inr, Bool-cases, arith, String, str_eq, eq_iff, ◌==◌, true, ◌||◌,
  none, some, List, [], ◌∷◌, if◌then◌else◌, Table, lookup, insert,
}
use agent_operator.Social.{SocialPost, ApiRequest}
use agent_operator.Social.Publish.{has_key}

-- The requests that were sent for a key.
abbrev pub count : String → List ApiRequest → ℕ
count key [] = 0
count key (request ∷ requests) =
    (if str_eq request.idempotency_key key then 1 else 0) + count key requests

-- A request was sent at most once for a key that a post has, and never for any other.
pub record AtMostOnce (posts : Table SocialPost) (requests : List ApiRequest) : Type 0 where
  pub bound : (key : String) → count key requests ≤ (if has_key key posts then 1 else 0)

module _ (key : String) (id : ℕ) (post : SocialPost) where
  pub has_key-insert_new :
      (posts : Table SocialPost)
      → lookup id posts ≡ none
      → has_key key (insert id post posts) ≡ (has_key key posts || str_eq post.idempotency_key key)
  unfolding has_key lookup insert
  has_key-insert_new [] h = ground arith
  has_key-insert_new ((j, other) ∷ posts) h = ground (arith, h, has_key-insert_new posts)

  pub has_key-insert_same :
      (posts : Table SocialPost) (old : SocialPost)
      → lookup id posts ≡ some old
      → old.idempotency_key ≡ post.idempotency_key
      → has_key key (insert id post posts) ≡ has_key key posts
  unfolding has_key lookup insert
  has_key-insert_same [] old h e = absurd (ground (arith, h))
  has_key-insert_same ((j, other) ∷ posts) old h e = elim (Bool-cases (id == j)) [
    | inl here ↦ let same : other ≡ old = ground (arith, h, here) in rw here (rw same (rw e refl))
    | inr there ↦ ground (arith, there, h, has_key-insert_same posts old, e)
  ]

pub lookup-has_key :
    (id : ℕ) (posts : Table SocialPost) (post : SocialPost)
    → lookup id posts ≡ some post
    → has_key post.idempotency_key posts ≡ true
unfolding has_key lookup
lookup-has_key id [] post h = absurd (ground (arith, h))
lookup-has_key id ((j, other) ∷ posts) post h = elim (Bool-cases (id == j)) [
  | inl here ↦
      let same : other ≡ post = ground (arith, h, here) in
      rw same (ground (arith, eq_iff post.idempotency_key post.idempotency_key))
  | inr there ↦ ground (arith, there, h, lookup-has_key id posts post)
]
