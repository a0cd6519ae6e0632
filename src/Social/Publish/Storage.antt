-- ===== src/Social/Publish/Storage.antt =====
-- What the columns of a post take.
use agent_operator.Prelude.{
  ◌≤◌, ◌≡◌, ◌≢◌, refl, ◌⊎◌, arith, true, false, String, Option, none, some, [], ◌∷◌, length, any,
  ◌==◌, Table, All, ok,
}
use agent_operator.Text.{Text, codes}
use agent_operator.Social.{
  Identifier, text, null, other, HttpReply, response, raises, SocialPost, x_result, linkedin_result,
}
use agent_operator.Social.Publish.{fits, stored_id, has_key}

-- What adding a post depends on.
pub add_cases :
    (post : SocialPost) (posts : Table SocialPost)
    → (fits post.idempotency_key ≡ false)
      ⊎ ((fits post.idempotency_key ≡ true) × (has_key post.idempotency_key posts ≡ true))
      ⊎ ((fits post.idempotency_key ≡ true) × (has_key post.idempotency_key posts ≡ false))
add_cases post posts = ground arith

-- An identifier that the column takes: null, or a text of 128 characters at most, none of them the
-- character 0.
abbrev pub IsStorable : Identifier → Type 0
IsStorable (text s) = (length (codes s) ≤ 128) × All (λ c. c ≢ 0) (codes s)
IsStorable null = Unit
IsStorable other = ⊥

-- A reply that does not carry any other identifier.
abbrev pub Storable : HttpReply → Type 0
Storable (raises e) = Unit
Storable (response status none) = Unit
Storable (response status (some id)) = IsStorable id

no_zero : (s : Text) → All (λ c. c ≢ 0) s → any (λ c. c == 0) s ≡ false
no_zero [] h = refl
no_zero (c ∷ s) h = ground (arith, h.0, no_zero s h.1)

pub stored_id_lem :
    (id : Identifier) → IsStorable id → (stored : Option String) × (stored_id id ≡ ok stored)
unfolding stored_id fits
stored_id_lem (text s) (short, h) = (some s, ground (arith, short, no_zero (codes s) h))
stored_id_lem null h = (none, refl)
stored_id_lem other h = absurd h

pub x_result-IsStorable :
    (reply : HttpReply) (external_id : Identifier)
    → Storable reply
    → x_result reply ≡ ok external_id
    → IsStorable external_id
unfolding x_result
x_result-IsStorable (raises e) external_id h r = absurd (ground (arith, r))
x_result-IsStorable (response status none) external_id h r = absurd (ground (arith, r))
x_result-IsStorable (response status (some id)) external_id h r =
    let same : id ≡ external_id = ground (arith, r) in rw (← same) h

pub linkedin_result-IsStorable :
    (reply : HttpReply) (external_id : Identifier)
    → Storable reply
    → linkedin_result reply ≡ ok external_id
    → IsStorable external_id
unfolding linkedin_result
linkedin_result-IsStorable (raises e) external_id h r = absurd (ground (arith, r))
linkedin_result-IsStorable (response status none) external_id h r = absurd (ground (arith, r))
linkedin_result-IsStorable (response status (some id)) external_id h r =
    let same : id ≡ external_id = ground (arith, r) in rw (← same) h
