-- ===== src/Social/Publish/Rows.antt =====
-- The successful posts of a key after a post is added or closed.
use agent_operator.Prelude.{
  ℕ, ◌≡◌, refl, inl, inr, Bool-cases, arith, String, str_eq, ◌==◌, ◌&&◌, true, false, some, [], ◌∷◌,
  Table, lookup, insert,
}
use agent_operator.Social.{SocialPost}
use agent_operator.Social.Publish.{succeeded_posts, is_succeeded, has_key}

module _ (key : String) (id : ℕ) where
  succeeded_posts_none :
      (posts : Table SocialPost) → has_key key posts ≡ false → succeeded_posts key posts ≡ []
  unfolding has_key succeeded_posts
  succeeded_posts_none [] h = refl
  succeeded_posts_none ((j, other) ∷ posts) h = ground (arith, h, succeeded_posts_none posts)

  pub succeeded_posts-insert_pending :
      (posts : Table SocialPost) (post : SocialPost)
      → has_key key posts ≡ false
      → is_succeeded post.execution_status ≡ false
      → succeeded_posts key (insert id post posts) ≡ []
  unfolding has_key succeeded_posts insert
  succeeded_posts-insert_pending [] post h p = ground (arith, p)
  succeeded_posts-insert_pending ((j, other) ∷ posts) post h p = elim (Bool-cases (id == j)) [
    | inl here ↦ rw here (ground (arith, h, p, succeeded_posts_none posts (ground (arith, h))))
    | inr there ↦
        rw there
          (ground (arith, h, p, succeeded_posts-insert_pending posts post (ground (arith, h)) p))
  ]

  pub succeeded_posts-insert_succeeded :
      (posts : Table SocialPost) (old new : SocialPost)
      → lookup id posts ≡ some old
      → succeeded_posts key posts ≡ []
      → str_eq new.idempotency_key key ≡ true
      → is_succeeded new.execution_status ≡ true
      → succeeded_posts key (insert id new posts) ≡ new ∷ []
  unfolding lookup succeeded_posts insert
  succeeded_posts-insert_succeeded [] old new h none_yet k p = absurd (ground (arith, h))
  succeeded_posts-insert_succeeded ((j, other) ∷ posts) old new h none_yet k p =
      elim (Bool-cases (str_eq other.idempotency_key key && is_succeeded other.execution_status)) [
        | inl mine ↦ absurd (ground (arith, mine, none_yet))
        | inr not_mine ↦
            let rest : succeeded_posts key posts ≡ [] = ground (arith, not_mine, none_yet) in
            elim (Bool-cases (id == j)) [
              | inl here ↦ rw here (rw k (rw p (rw rest refl)))
              | inr there ↦ rw there (
                  rw not_mine (
                    succeeded_posts-insert_succeeded posts old new (ground (arith, there, h)) rest k
                      p))
            ]
      ]
