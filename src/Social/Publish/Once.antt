-- ===== src/Social/Publish/Once.antt =====
-- At most one request is sent for each idempotency key.
use agent_operator.Errors.{Error}
use agent_operator.Prelude.{
  ℕ, ◌≡◌, refl, subst, inl, inr, Bool-cases, arith, String, str_eq, eq_iff, Bool, true, false,
  Option, none, some, List, [], ◌∷◌, length, lookup, new_key, lookup-insert_self, lookup-new_key,
  Result, ok, err, or_raise, Action, lift, gets, raise_if, ◌>>=◌,
}
use agent_operator.Prelude.Triple.{
  Triple, Ends, Triple-pure, Triple-raise, Triple-seq, Triple-weaken, Triple-catch,
}
use agent_operator.Text.{Text}
use agent_operator.Social.{
  Platform, x, linkedin, Identifier, null, HttpReply, SocialPost, Publisher, Credentials,
  post_request, publish_on_x, publish_on_linkedin,
}
use agent_operator.Social.Publish.{
  PublishInput, find_duplicate, has_key, add_post, commit_post, close_post, output_id,
  publish_draft, publish_once, execute_x, execute_linkedin, execute_on, publish_all,
}
use agent_operator.Social.Publish.Storage.{
  add_cases, IsStorable, Storable, stored_id_lem, x_result-IsStorable, linkedin_result-IsStorable,
}
use agent_operator.Social.Publish.Keys.{
  count, AtMostOnce, has_key-insert_new, has_key-insert_same, lookup-has_key,
}

-- What holds at the ends of a call: the committed rows tell of every request.
abbrev Safe : Publisher → Type 0
Safe s = AtMostOnce s.saved.posts s.requests

-- What holds at the start of a call.
abbrev Fresh : Publisher → Type 0
Fresh s = AtMostOnce s.now.posts s.requests × Safe s

-- The post is stored, in the session or for good.
abbrev Stored : ℕ → SocialPost → Publisher → Type 0
Stored id post s = (lookup id s.now.posts ≡ some post) × AtMostOnce s.now.posts s.requests

-- The post is stored, and no request was sent for its key.
abbrev Unsent : ℕ → SocialPost → Publisher → Type 0
Unsent id post s = Stored id post s × (count post.idempotency_key s.requests ≡ 0)

add_post_lem : (post : SocialPost) → Triple Fresh (add_post post) (λ id. Unsent id post) (λ _. Safe)
unfolding add_post ◌>>=◌
add_post_lem post = record {
  at = λ s (once, safe). elim (add_cases post s.now.posts) [
    | inl long ↦ rw long safe
    | inr (inl (short, taken)) ↦ rw (short, taken) safe
    | inr (inr (short, free)) ↦
        rw (short, free)
          (
            (
              lookup-insert_self (new_key s.now.posts) post s.now.posts,
              record {
                bound = λ key.
                    rw (has_key-insert_new key _ post s.now.posts (lookup-new_key s.now.posts))
                      (ground (arith, once.bound key));
              },
            ),
            ground (arith, free, once.bound post.idempotency_key),
          )
  ];
}

send_lem :
    (api : ℕ → HttpReply) (storable : (n : ℕ) → Storable (api n)) (platform : Platform)
    (content : Text) (id : ℕ) (post : SocialPost)
    → Triple
        (Unsent id post)
        (post_request api platform post.idempotency_key content)
        (λ reply s. Storable reply × Stored id post s)
        (λ _. Stored id post)
unfolding post_request
send_lem api storable platform content id post = record {
  at = λ s ((found, once), zero). (
    storable (length s.requests),
    (
      found,
      record {
        bound = λ key. elim (Bool-cases (str_eq post.idempotency_key key)) [
          | inl same ↦
              let key_of : post.idempotency_key ≡ key = (eq_iff post.idempotency_key key).0 same in
              let none_yet : count key s.requests ≡ 0 =
                subst (λ k. count k s.requests ≡ 0) key_of zero in
              let taken : has_key key s.now.posts ≡ true =
                subst (λ k. has_key k s.now.posts ≡ true) key_of
                  (lookup-has_key id s.now.posts post found) in
              rw same (rw taken (omega (arith, none_yet)))
          | inr other ↦ rw other (omega (arith, once.bound key))
        ];
      },
    ),
  );
}

close_post_lem :
    (id : ℕ) (post new : SocialPost) (external_id : Identifier)
    → post.idempotency_key ≡ new.idempotency_key
    → Triple
        (λ s. IsStorable external_id × Stored id post s)
        (close_post id new external_id)
        (λ _. Safe)
        (λ _. Safe)
unfolding close_post commit_post ◌>>=◌
close_post_lem id post new external_id e = record {
  at = λ s (storable, (found, once)).
      let (stored, is_stored) = stored_id_lem external_id storable in
      let closed : SocialPost = record new { external_id = stored } in
      rw is_stored (record {
        bound =
            λ key. rw (has_key-insert_same key id closed s.now.posts post found e) (once.bound key);
      });
}

-- A way to publish that leaves the post stored, having sent one request for it at most.
abbrev Sends : (Text → String → Action Publisher Identifier) → Type 0
Sends publish =
    (content : Text) (id : ℕ) (post : SocialPost)
    → Triple (Unsent id post) (publish content post.idempotency_key)
        (λ external_id s. IsStorable external_id × Stored id post s) (λ _. Stored id post)

Unsent-raise_if :
    (b : Bool) (e : Error) (id : ℕ) (post : SocialPost)
    → Triple (Unsent id post) (raise_if b e) (λ _. Unsent id post) (λ _. Stored id post)
unfolding raise_if
Unsent-raise_if true e id post = record { at = λ s h. h.0 }
Unsent-raise_if false e id post = record { at = λ s h. h }

Stored-lift :
    (reply : HttpReply) (r : Result Identifier) (id : ℕ) (post : SocialPost)
    → ((external_id : Identifier) → Storable reply → r ≡ ok external_id → IsStorable external_id)
    → Triple
        (λ s. Storable reply × Stored id post s)
        (lift r)
        (λ external_id s. IsStorable external_id × Stored id post s)
        (λ _. Stored id post)
unfolding lift
Stored-lift reply (ok a) id post h = record {
  at = λ s (storable, stored). (h a storable refl, stored);
}
Stored-lift reply (err e) id post h = record { at = λ s (storable, stored). stored }

module _ (api : ℕ → HttpReply) (storable : (n : ℕ) → Storable (api n)) where
  publish_on_x-Sends : (creds : Credentials) → Sends (publish_on_x api creds)
  unfolding publish_on_x
  publish_on_x-Sends creds content id post = Triple-seq (Unsent-raise_if _ _ id post) λ _.
      Triple-seq (send_lem api storable _ content id post)
        λ reply. Stored-lift reply _ id post (x_result-IsStorable reply)

  publish_on_linkedin-Sends : (creds : Credentials) → Sends (publish_on_linkedin api creds)
  unfolding publish_on_linkedin
  publish_on_linkedin-Sends creds content id post = Triple-seq (Unsent-raise_if _ _ id post) λ _.
      Triple-seq (Unsent-raise_if _ _ id post) λ _.
        Triple-seq (send_lem api storable _ content id post)
          λ reply. Stored-lift reply _ id post (linkedin_result-IsStorable reply)

Safe-lift : {A : Type 0} (r : Result A) → Triple Safe (lift r) (λ _. Safe) (λ _. Safe)
unfolding lift
Safe-lift (ok a) = record { at = λ s h. h }
Safe-lift (err e) = record { at = λ s h. h }

module _ (sha256 : Text → String) (platform : Platform)
    (publish : Text → String → Action Publisher Identifier) (sends : Sends publish) where
  Fresh-or_raise :
      {A : Type 0} (a : Option A) (e : Error) → Triple Fresh (or_raise a e) (λ _. Fresh) (λ _. Safe)
  unfolding or_raise
  Fresh-or_raise none e = record { at = λ s h. h.1 }
  Fresh-or_raise (some a) e = record { at = λ s h. h }

  Fresh-Ends :
      {A : Type 0} (r : Result A) (s : Publisher) → Fresh s → Ends (λ _. Fresh) (λ _. Safe) r s
  Fresh-Ends (ok a) s h = h
  Fresh-Ends (err e) s h = h.1

  find_duplicate_lem : (key : String) → Triple Fresh (find_duplicate key) (λ _. Fresh) (λ _. Safe)
  unfolding find_duplicate
  find_duplicate_lem key = record { at = λ s h. Fresh-Ends _ s h }

  publish_draft-Safe :
      (draft_id : ℕ) (key : String)
      → Triple Fresh (publish_draft sha256 platform publish draft_id key) (λ _. Safe) (λ _. Safe)
  unfolding publish_draft gets
  publish_draft-Safe draft_id key =
      Triple-seq {R = λ _. Fresh} (record { at = λ s h. h })
        λ row. Triple-seq (Fresh-or_raise row _) λ draft. Triple-seq (add_post_lem _) λ id.
          Triple-seq
            (Triple-catch _ _ (sends draft.content id _) λ e.
              Triple-seq
                (Triple-weaken _ (close_post_lem id _ _ null refl) (λ s h. (tt, h)) (λ _ s h. h)
                  (λ _ s h. h))
                λ _. Triple-raise e (λ s h. h))
            λ external_id.
              Triple-seq (close_post_lem id _ _ external_id refl)
                λ _. Safe-lift (output_id external_id)

  publish_once-Safe :
      (draft_id : ℕ) (key : String)
      → Triple Fresh (publish_once sha256 platform publish draft_id key) (λ _. Safe) (λ _. Safe)
  unfolding publish_once
  publish_once-Safe draft_id key =
      Triple-seq (find_duplicate_lem key)
        (elim [ none ↦ publish_draft-Safe draft_id key | some post ↦ Triple-pure _ (λ s h. h.1) ])

Fresh-raise_if : (b : Bool) (e : Error) → Triple Fresh (raise_if b e) (λ _. Fresh) (λ _. Safe)
unfolding raise_if
Fresh-raise_if true e = record { at = λ s h. h.1 }
Fresh-raise_if false e = record { at = λ s h. h }

Ends-Safe :
    {A : Type 0} (r : Result A) (s : Publisher) → Ends {A = A} (λ _. Safe) (λ _. Safe) r s → Safe s
Ends-Safe (ok a) s h = h
Ends-Safe (err e) s h = h

module _ (sha256 : Text → String) (api : ℕ → HttpReply)
    (storable : (n : ℕ) → Storable (api n)) where
  execute_on-Safe :
      (platform : Platform) (creds : Credentials) (draft_id : ℕ) (key : String)
      → Triple Fresh (execute_on sha256 api platform creds draft_id key) (λ _. Safe) (λ _. Safe)
  unfolding execute_x execute_linkedin
  execute_on-Safe x creds draft_id key =
      Triple-seq (Fresh-raise_if _ _)
        λ _. publish_once-Safe sha256 x _ (publish_on_x-Sends api storable creds) draft_id key
  execute_on-Safe linkedin creds draft_id key = Triple-seq (Fresh-raise_if _ _) λ _.
      publish_once-Safe sha256 linkedin _ (publish_on_linkedin-Sends api storable creds) draft_id
        key

  -- If no platform ever replies with an identifier that the column does not take, one that is neither
  -- null nor a text of 128 characters at most without the character 0, and the committed posts tell of
  -- every request sent so far, then they still do after any calls of the two publishing tools, each
  -- over a session of its own and run to its end: for each idempotency key at most one request was ever
  -- sent, and none for a key that no post has.
  pub publish_all-AtMostOnce :
      (inputs : List PublishInput) (s : Publisher)
      → AtMostOnce s.saved.posts s.requests
      → let s' = publish_all sha256 api inputs s in AtMostOnce s'.saved.posts s'.requests
  unfolding publish_all
  publish_all-AtMostOnce [] s h = h
  publish_all-AtMostOnce (input ∷ inputs) s h = publish_all-AtMostOnce inputs _ (
      Ends-Safe _ _ (
        (execute_on-Safe input.platform input.credentials input.draft_id input.idempotency_key).at
          (record s { now = s.saved }) (h, h)))
