-- ===== src/Social/Publish/Again.antt =====
-- A call that is made again after a success.
use agent_operator.Errors.{Error}
use agent_operator.Prelude.{
  ℕ, ◌≡◌, refl, sym, ◌∙◌, ap, ◌⊎◌, inl, inr, arith, String, eq_iff, Bool, true, false, Option, none,
  some, List, [], ◌∷◌, lookup, new_key, lookup-insert_self, Result, ok, err, or_raise, Action, lift,
  gets, raise_if, ◌>>=◌,
}
use agent_operator.Prelude.Triple.{
  Triple, Ends, Triple-pure, Triple-raise, Triple-seq, Triple-weaken, Triple-catch,
}
use agent_operator.Text.{Text}
use agent_operator.Social.{
  Platform, x, linkedin, Identifier, text, null, other, HttpReply, SocialPost, Publisher,
  Credentials, is_set, has_x_credentials, post_request, publish_on_x, publish_on_linkedin,
}
use agent_operator.Social.Publish.{
  succeeded_posts, one_or_none, id_or_empty, is_succeeded, find_duplicate, add_post, commit_post,
  close_post, stored_id, output_id, publish_draft, publish_once, execute_x, execute_linkedin,
  execute_on,
}
use agent_operator.Social.Publish.Storage.{add_cases}
use agent_operator.Social.Publish.Rows.{
  succeeded_posts-insert_pending, succeeded_posts-insert_succeeded,
}

-- The committed rows have one success for the key, with this identifier.
abbrev Answered : String → String → Publisher → Type 0
Answered key id s =
    (post : SocialPost) × (succeeded_posts key s.saved.posts ≡ post ∷ [])
    × (id_or_empty post.external_id ≡ id)

Result-cases : {A : Type 0} (r : Result A) → ((a : A) × (r ≡ ok a)) ⊎ ((e : Error) × (r ≡ err e))
Result-cases (ok a) = inl (a, refl)
Result-cases (err e) = inr (e, refl)

-- The post is stored, and no post of its key was a success.
abbrev Waiting : ℕ → SocialPost → Publisher → Type 0
Waiting id post s =
    (lookup id s.now.posts ≡ some post) × (succeeded_posts post.idempotency_key s.now.posts ≡ [])

add_post-Waiting :
    (post : SocialPost)
    → is_succeeded post.execution_status ≡ false
    → Triple (λ _. Unit) (add_post post) (λ id. Waiting id post) (λ _ _. Unit)
unfolding add_post ◌>>=◌
add_post-Waiting post p = record {
  at = λ s h. elim (add_cases post s.now.posts) [
    | inl long ↦ rw long tt
    | inr (inl (short, taken)) ↦ rw (short, taken) tt
    | inr (inr (short, free)) ↦
        rw (short, free)
          (
            lookup-insert_self (new_key s.now.posts) post s.now.posts,
            succeeded_posts-insert_pending post.idempotency_key _ s.now.posts post free p,
          )
  ];
}

-- The committed rows have one success for the key, with what the column stores for the identifier.
abbrev Closed : String → Identifier → Publisher → Type 0
Closed key external_id s =
    (post : SocialPost) × (succeeded_posts key s.saved.posts ≡ post ∷ [])
    × (stored_id external_id ≡ ok post.external_id)

close_post-Closed :
    (id : ℕ) (post new : SocialPost) (external_id : Identifier)
    → new.idempotency_key ≡ post.idempotency_key
    → is_succeeded new.execution_status ≡ true
    → Triple
        (Waiting id post)
        (close_post id new external_id)
        (λ _. Closed post.idempotency_key external_id)
        (λ _ _. Unit)
unfolding close_post commit_post ◌>>=◌
close_post-Closed id post new external_id k p = record {
  at = λ s (found, none_yet). elim (Result-cases (stored_id external_id)) [
    | inr (e, refused) ↦ rw refused tt
    | inl (stored, taken) ↦
        let closed : SocialPost = record new { external_id = stored } in
        rw taken (
          closed,
          succeeded_posts-insert_succeeded post.idempotency_key id s.now.posts post closed found
              none_yet ((eq_iff new.idempotency_key post.idempotency_key).1 k) p,
          taken,
        )
  ];
}

output_id-Answered :
    (key : String) (external_id : Identifier)
    → Triple
        (Closed key external_id)
        (lift (output_id external_id))
        (λ id. Answered key id)
        (λ _ _. Unit)
unfolding lift stored_id
output_id-Answered key (text id) = record {
  at = λ s (post, found, stored). (post, found, ground (arith, stored));
}
output_id-Answered key null = record { at = λ s h. tt }
output_id-Answered key other = record { at = λ s h. tt }

-- A way to publish that leaves the rows alone.
abbrev Leaves : (Text → String → Action Publisher Identifier) → Type 0
Leaves publish =
    (content : Text) (key : String) (id : ℕ) (post : SocialPost)
    → Triple (Waiting id post) (publish content key) (λ _. Waiting id post) (λ _ _. Unit)

Ends-left :
    {A : Type 0} (P : Publisher → Type 0) (r : Result A) (s : Publisher)
    → P s
    → Ends {A = A} (λ _. P) (λ _ _. Unit {0}) r s
Ends-left P (ok a) s h = h
Ends-left P (err e) s h = tt

left_lift :
    {A : Type 0} (P : Publisher → Type 0) (r : Result A) → Triple P (lift r) (λ _. P) (λ _ _. Unit)
unfolding lift
left_lift P r = record { at = λ s h. Ends-left P r s h }

left_raise_if :
    (P : Publisher → Type 0) (b : Bool) (e : Error) → Triple P (raise_if b e) (λ _. P) (λ _ _. Unit)
unfolding raise_if
left_raise_if P true e = record { at = λ s h. tt }
left_raise_if P false e = record { at = λ s h. h }

left_or_raise :
    {A : Type 0} (P : Publisher → Type 0) (a : Option A) (e : Error)
    → Triple P (or_raise a e) (λ _. P) (λ _ _. Unit)
unfolding or_raise
left_or_raise P none e = record { at = λ s h. tt }
left_or_raise P (some a) e = record { at = λ s h. h }

left_post_request :
    (api : ℕ → HttpReply) (platform : Platform) (content : Text) (key : String) (id : ℕ)
    (post : SocialPost)
    → Triple
        (Waiting id post)
        (post_request api platform key content)
        (λ _. Waiting id post)
        (λ _ _. Unit)
unfolding post_request
left_post_request api platform content key id post = record { at = λ s h. h }

publish_on_x-Leaves : (api : ℕ → HttpReply) (creds : Credentials) → Leaves (publish_on_x api creds)
unfolding publish_on_x
publish_on_x-Leaves api creds content key id post =
    Triple-seq (left_raise_if _ _ _)
      λ _. Triple-seq (left_post_request api _ content key id post) λ reply. left_lift _ _

publish_on_linkedin-Leaves :
    (api : ℕ → HttpReply) (creds : Credentials) → Leaves (publish_on_linkedin api creds)
unfolding publish_on_linkedin
publish_on_linkedin-Leaves api creds content key id post = Triple-seq (left_raise_if _ _ _) λ _.
    Triple-seq (left_raise_if _ _ _)
      λ _. Triple-seq (left_post_request api _ content key id post) λ reply. left_lift _ _

any_close :
    (id : ℕ) (new : SocialPost)
    → Triple (λ _. Unit) (close_post id new null) (λ _ _. Unit) (λ _ _. Unit)
unfolding close_post commit_post stored_id ◌>>=◌
any_close id new = record { at = λ s h. tt }

Ends-found :
    (P : Publisher → Type 0) (f : Publisher → Result (Option SocialPost)) (s : Publisher)
    (r : Result (Option SocialPost))
    → f s ≡ r
    → P s
    → Ends (λ q s'. (f s' ≡ ok q) × P s') (λ _ _. Unit {0}) r s
Ends-found P f s (ok q) e h = (e, h)
Ends-found P f s (err error) e h = tt

one_or_none-none : (posts : List SocialPost) → one_or_none posts ≡ ok none → posts ≡ []
one_or_none-none [] h = refl
one_or_none-none (post ∷ []) h = absurd (ground (arith, h))
one_or_none-none (post ∷ second ∷ posts) h = absurd (ground (arith, h))

one_or_none-some :
    (posts : List SocialPost) (post : SocialPost)
    → one_or_none posts ≡ ok (some post)
    → posts ≡ post ∷ []
one_or_none-some [] post h = absurd (ground (arith, h))
one_or_none-some (first ∷ []) post h = ground (arith, h)
one_or_none-some (_ ∷ _ ∷ _) post h = absurd (ground (arith, h))

Same : Publisher → Type 0
Same s = s.now ≡ s.saved

module _ (sha256 : Text → String) (platform : Platform)
    (publish : Text → String → Action Publisher Identifier) (leaves : Leaves publish) where
  publish_draft-Answered :
      (draft_id : ℕ) (key : String)
      → Triple
          (λ _. Unit)
          (publish_draft sha256 platform publish draft_id key)
          (λ id. Answered key id)
          (λ _ _. Unit)
  unfolding publish_draft gets
  publish_draft-Answered draft_id key =
      Triple-seq {R = λ _ _. Unit} (record { at = λ s h. h })
        λ row. Triple-seq (left_or_raise (λ _. Unit) row _) λ draft.
          Triple-seq (add_post-Waiting _ refl) λ id.
            Triple-seq
              (Triple-catch _ _ (leaves draft.content key id _)
                λ e. Triple-seq (any_close id _) λ _. Triple-raise e (λ s h. h))
              λ external_id.
                Triple-seq (close_post-Closed id _ _ external_id refl refl)
                  λ _. output_id-Answered key external_id

  publish_once-Answered :
      (draft_id : ℕ) (key : String)
      → Triple Same
          (publish_once sha256 platform publish draft_id key)
          (λ id. Answered key id)
          (λ _ _. Unit)
  unfolding publish_once find_duplicate Same
  publish_once-Answered draft_id key =
      Triple-seq {R = λ r s. (one_or_none (succeeded_posts key s.now.posts) ≡ ok r) × Same s}
        (record {
          at = λ s h.
              Ends-found Same (λ s'. one_or_none (succeeded_posts key s'.now.posts)) s _ refl h;
        })
        (elim [
          | none ↦
              Triple-weaken _ (publish_draft-Answered draft_id key) (λ s h. tt) (λ _ s h. h)
                (λ _ s h. h)
          | some post ↦ Triple-pure _ (λ s (found, same). (
            post,
            ap (λ db. succeeded_posts key db.posts) (sym same) ∙ one_or_none-some _ post found,
            refl,
          ))
        ])

-- The tokens that a tool asks for before anything else.
abbrev pub has_tokens : Platform → Credentials → Bool
has_tokens x creds = has_x_credentials creds
has_tokens linkedin creds = is_set creds.access_token

module _ (sha256 : Text → String) (api : ℕ → HttpReply) where
  execute_on-Answered :
      (platform : Platform) (creds : Credentials) (draft_id : ℕ) (key : String)
      → Triple Same
          (execute_on sha256 api platform creds draft_id key)
          (λ id. Answered key id)
          (λ _ _. Unit)
  unfolding execute_x execute_linkedin
  execute_on-Answered x creds draft_id key =
      Triple-seq (left_raise_if Same _ _)
        λ _. publish_once-Answered sha256 x _ (publish_on_x-Leaves api creds) draft_id key
  execute_on-Answered linkedin creds draft_id key = Triple-seq (left_raise_if Same _ _) λ _.
      publish_once-Answered sha256 linkedin _ (publish_on_linkedin-Leaves api creds) draft_id key

  answer_lem :
      (platform : Platform) (creds : Credentials) (draft_id : ℕ) (key id : String) (s : Publisher)
      (post : SocialPost)
      → has_tokens platform creds ≡ true
      → succeeded_posts key s.now.posts ≡ post ∷ []
      → id_or_empty post.external_id ≡ id
      → execute_on sha256 api platform creds draft_id key s ≡ (ok id, s)
  unfolding execute_x execute_linkedin publish_once find_duplicate ◌>>=◌
  answer_lem x creds draft_id key id s post tokens found same = rw tokens (rw found (rw same refl))
  answer_lem linkedin creds draft_id key id s post tokens found same =
      rw tokens (rw found (rw same refl))

  -- Once a call over a session with nothing uncommitted has returned an identifier for an idempotency
  -- key, a call with that key and the tool's tokens, for either platform and any draft, returns the
  -- same identifier, sends no request and changes no row.
  pub execute_on-again :
      (first later : Platform) (creds creds' : Credentials) (draft_id draft_id' : ℕ)
      (key id : String) (s : Publisher)
      → s.now ≡ s.saved
      → (execute_on sha256 api first creds draft_id key s).0 ≡ ok id
      → has_tokens later creds' ≡ true
      → let s' = (execute_on sha256 api first creds draft_id key s).1 in
        let next = record s' { now = s'.saved } in
        execute_on sha256 api later creds' draft_id' key next ≡ (ok id, next)
  unfolding Same
  execute_on-again first later creds creds' draft_id draft_id' key id s same returned tokens =
      let (post, found, same_id) =
        rw returned at ((execute_on-Answered first creds draft_id key).at s same) in
      answer_lem later creds' draft_id' key id _ post tokens found same_id
