-- ===== src/Content/Laws.antt =====
-- The posts of a thread hold the sentences of the text, and a post is within the budget unless it is
-- one sentence.
use agent_operator.Prelude.{
  ℕ, ◌+◌, ◌≤◌, ◌≡◌, refl, ap, sym, ◌∙◌, ◌⊎◌, inl, inr, Bool-cases, arith, List, [], ◌∷◌, ◌++◌,
  length, length-append, append_assoc, append-nil, All, In, ltb, false,
}
use agent_operator.Text.{Text}
use agent_operator.Content.{
  thread_budget, join, build_posts, group, build_raw_posts, split_into_sentences,
}

join-append :
    (s : Text) (xs : List Text) (t : Text) (ys : List Text)
    → join ((s ∷ xs) ++ t ∷ ys) ≡ join (s ∷ xs) ++ 32 ∷ join (t ∷ ys)
unfolding join
join-append s [] t ys = refl
join-append s (x ∷ xs) t ys =
    rw (join-append x xs t ys) (sym (append_assoc s (32 ∷ join (x ∷ xs)) (32 ∷ join (t ∷ ys))))

-- A thread has a first post.
build_posts-cons :
    (first : Text) (more : List Text) (n : ℕ) (ss : List Text)
    → (p : Text) × (ps : List Text) × (build_posts first more n ss ≡ p ∷ ps)
unfolding build_posts
build_posts-cons first more n [] = (_, [], refl)
build_posts-cons first more n (s ∷ ss) = elim (Bool-cases (ltb thread_budget (n + 1 + length s))) [
  | inl full ↦ rw (full, build_posts) (_, _, refl)
  | inr fits ↦ rw (fits, build_posts) (build_posts-cons first (more ++ s ∷ []) _ ss)
]

join-cons :
    (s : Text) (xs : List Text) (t : Text) (ys : List Text)
    → xs ≡ t ∷ ys
    → join (s ∷ xs) ≡ s ++ 32 ∷ join xs
unfolding join
join-cons s xs t ys e = rw e refl

join-build_posts :
    (first : Text) (more : List Text) (n : ℕ) (ss : List Text)
    → join (build_posts first more n ss) ≡ join ((first ∷ more) ++ ss)
unfolding build_posts join
join-build_posts first more n [] = ap (λ xs. join (first ∷ xs)) (sym (append-nil more))
join-build_posts first more n (s ∷ ss) = elim (Bool-cases (ltb thread_budget (n + 1 + length s))) [
  | inl full ↦
      rw (full, build_posts)
        (let (p, ps, e) = build_posts-cons s [] (length s) ss in
          join-cons (join (first ∷ more)) _ p ps e
          ∙ ap (λ t. join (first ∷ more) ++ 32 ∷ t) (join-build_posts s [] (length s) ss)
          ∙ sym (join-append first more s ss))
  | inr fits ↦
      rw (fits, build_posts)
        (join-build_posts first (more ++ s ∷ []) _ ss
          ∙ ap (λ xs. join (first ∷ xs)) (append_assoc more (s ∷ []) ss))
]

abbrev pub IsFitting : List Text → Text → Type 0
IsFitting sentences post = (length post ≤ thread_budget) ⊎ In post sentences

-- What the loop knows of its current post, whose sentences come from a list.
record IsCurrent (sentences : List Text) (first : Text) (more : List Text) (n : ℕ) : Type 0 where
  known : In first sentences
  size : length (join (first ∷ more)) ≡ n
  fits : (more ≡ []) ⊎ (n ≤ thread_budget)

IsFitting-current :
    (sentences : List Text) (first : Text) (more : List Text) (n : ℕ)
    → IsCurrent sentences first more n
    → IsFitting sentences (join (first ∷ more))
unfolding join
IsFitting-current sentences first more n c = elim c.fits [
  | inl single ↦ inr (rw single c.known)
  | inr small ↦ inl (omega (arith, c.size, small))
]

IsCurrent-one :
    (sentences : List Text) (s : Text) → In s sentences → IsCurrent sentences s [] (length s)
unfolding join
IsCurrent-one sentences s h = record { known = h; size = refl; fits = inl refl }

IsCurrent-more :
    (sentences : List Text) (first : Text) (more : List Text) (n : ℕ) (s : Text)
    → IsCurrent sentences first more n
    → ltb thread_budget (n + 1 + length s) ≡ false
    → IsCurrent sentences first (more ++ s ∷ []) (n + 1 + length s)
unfolding join
IsCurrent-more sentences first more n s c fits = record {
  known = c.known;
  size =
      rw (join-append first more s [])
        (omega (arith, length-append (join (first ∷ more)) (32 ∷ s), c.size));
  fits = inr (ground (arith, fits));
}

build_posts-IsFitting :
    (sentences : List Text) (first : Text) (more : List Text) (n : ℕ) (ss : List Text)
    → IsCurrent sentences first more n
    → All (λ s. In s sentences) ss
    → All (IsFitting sentences) (build_posts first more n ss)
unfolding build_posts
build_posts-IsFitting sentences first more n [] c h =
    (IsFitting-current sentences first more n c, tt)
build_posts-IsFitting sentences first more n (s ∷ ss) c h =
    elim (Bool-cases (ltb thread_budget (n + 1 + length s))) [
      | inl full ↦
          rw (full, build_posts)
            (
              IsFitting-current sentences first more n c,
              build_posts-IsFitting sentences s [] (length s) ss (IsCurrent-one sentences s h.0)
                  h.1,
            )
      | inr fits ↦
          rw (fits, build_posts)
            (build_posts-IsFitting sentences first (more ++ s ∷ []) _ ss
              (IsCurrent-more sentences first more n s c fits) h.1)
    ]

All-weaken : {P Q : Text → Type 0} (xs : List Text) → ((x : Text) → P x → Q x) → All P xs → All Q xs
All-weaken [] f h = tt
All-weaken (x ∷ xs) f h = (f x h.0, All-weaken xs f h.1)

All-In : (xs : List Text) → All (λ x. In x xs) xs
All-In [] = tt
All-In (x ∷ xs) = (inl refl, All-weaken xs (λ y h. inr h) (All-In xs))

group-IsFitting : (ss : List Text) → All (IsFitting ss) (group ss)
unfolding group
group-IsFitting [] = tt
group-IsFitting (s ∷ ss) =
    build_posts-IsFitting (s ∷ ss) s [] (length s) ss (IsCurrent-one (s ∷ ss) s (inl refl))
      (All-In (s ∷ ss)).1

join-group : (ss : List Text) → join (group ss) ≡ join ss
unfolding group
join-group [] = refl
join-group (s ∷ ss) = join-build_posts s [] (length s) ss

-- The posts of a thread, joined by spaces, are the sentences of the text joined by spaces: nothing is
-- lost, added or moved. Each post has 275 characters at most or is one of the sentences.
pub build_raw_posts_exact :
    (content : Text)
    → let posts = build_raw_posts content in
      let sentences = split_into_sentences content in
      (join posts ≡ join sentences) × All (IsFitting sentences) posts
unfolding build_raw_posts
build_raw_posts_exact content =
    (join-group (split_into_sentences content), group-IsFitting (split_into_sentences content))
