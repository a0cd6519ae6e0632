-- ===== src/Policy/RateLimit/Laws.antt =====
-- The token bucket never lets more calls through than the burst and the elapsed time allow.
use native.Mathlib.Nat.{mul-le-mul_right}
use text.Mathlib.TextPositions.{eq_refl}
use agent_operator.Prelude.{
  ℕ, ◌+◌, ◌-◌, ◌*◌, ◌≤◌, ◌≡◌, ◌∙◌, ap, ◌↔◌, leb, ◌&&◌, refl, Bool-cases, Option-cases, inl, inr,
  String, str_eq, eq_iff, Bool, true, false, some, List, [], ◌∷◌, if◌then◌else◌, arith,
}
use agent_operator.Policy.RateLimit.{
  Bucket, RateLimiter, token, max_tokens, find_bucket, put_bucket, bucket_or, refilled, refill,
  acquire,
}

find_bucket-put_bucket :
    (j k : String) (b : Bucket) (bs : List (String × Bucket))
    → find_bucket j (put_bucket k b bs) ≡ (if str_eq k j then some b else find_bucket j bs)
unfolding find_bucket put_bucket
find_bucket-put_bucket j k b [] = refl
find_bucket-put_bucket j k b ((i, c) ∷ bs) =
    ground (arith, eq_iff k j, eq_iff i k, eq_iff i j, find_bucket-put_bucket j k b bs)

-- The bucket of a tool at a time, after its refill.
abbrev pub level : String → ℕ → RateLimiter → ℕ
level name now r = (refilled r now (bucket_or r now (find_bucket name r.buckets))).tokens

-- What one call takes out of the bucket of tool `j`.
abbrev pub charge : String → String → Bool → ℕ
charge j name allowed = if allowed && str_eq name j then token else 0

refilled-refilled :
    (r : RateLimiter) (now : ℕ) (b : Bucket)
    → (refilled r now (refilled r now b)).tokens ≡ (refilled r now b).tokens
unfolding refilled max_tokens
refilled-refilled r now b = grind arith

refilled_stable :
    (r : RateLimiter) (now : ℕ) (b : Bucket) (bs : List (String × Bucket)) (t : ℕ)
    → t ≤ (refilled r now b).tokens
    → (refilled (record r { buckets = bs }) now (record { tokens = t; last_refill = now })).tokens
      ≡ t
unfolding refilled max_tokens
refilled_stable r now b bs t h = grind arith

-- The bucket of the called tool after `_refill`.
abbrev ready : String → ℕ → RateLimiter → Bucket
ready name now r = refilled r now (bucket_or r now (find_bucket name r.buckets))

find_bucket-refill :
    (name : String) (now : ℕ) (r : RateLimiter)
    → find_bucket name (refill name now r).buckets ≡ some (ready name now r)
unfolding refill
find_bucket-refill name now r = rw find_bucket-put_bucket (rw (eq_refl name))

-- A call is allowed exactly if the tool's bucket holds a token after its refill.
pub acquire_iff :
    (name : String) (now : ℕ) (r : RateLimiter)
    → ((acquire name now r).0 ≡ true) ↔ (token ≤ level name now r)
unfolding acquire bucket_or
acquire_iff name now r = ground (arith, find_bucket-refill name now r)

acquire_lem :
    (name : String) (now : ℕ) (r : RateLimiter)
    → let here = ready name now r in
      let r' = refill name now r in
      acquire name now r ≡ (
        if leb token here.tokens
        then (
          true,
          record r' {
            buckets =
                put_bucket name
                  (record { tokens = here.tokens - token; last_refill = now })
                  r'.buckets;
          },
        )
        else (false, r'))
unfolding acquire bucket_or refilled
acquire_lem name now r = rw (find_bucket-refill name now r, bucket_or)

level-put_bucket :
    (j name : String) (now t : ℕ) (r : RateLimiter) (bs : List (String × Bucket))
    → t ≤ max_tokens r
    → level j now
        (record r { buckets = put_bucket name (record { tokens = t; last_refill = now }) bs })
      ≡ (if str_eq name j then t else level j now (record r { buckets = bs }))
unfolding refilled bucket_or max_tokens
level-put_bucket j name now t r bs h =
    rw (find_bucket-put_bucket j name (record { tokens = t; last_refill = now }) bs)
      (elim (Bool-cases (str_eq name j)) [
        | inl same ↦ rw (same) (grind arith)
        | inr other ↦ rw (other)
      ])

ready-le : (name : String) (now : ℕ) (r : RateLimiter) → (ready name now r).tokens ≤ max_tokens r
unfolding refilled
ready-le name now r = omega arith

level-refill :
    (j name : String) (now : ℕ) (r : RateLimiter) → level j now (refill name now r) ≡ level j now r
unfolding refill refilled
level-refill j name now r =
    level-put_bucket j name now (ready name now r).tokens r r.buckets (ready-le name now r)
    ∙ elim (Bool-cases (str_eq name j)) [
      | inl same ↦ rw same (rw ((eq_iff name j).0 same))
      | inr other ↦ rw other
    ]

level-spend :
    (j name : String) (now : ℕ) (r : RateLimiter)
    → token ≤ (ready name now r).tokens
    → let r' = refill name now r in
      let b : Bucket = record { tokens = (ready name now r).tokens - token; last_refill = now } in
      level j now (record r' { buckets = put_bucket name b r'.buckets })
        + (if str_eq name j then token else 0)
      ≡ level j now r
unfolding refill
level-spend j name now r enough =
    rw
      (level-put_bucket j name now ((ready name now r).tokens - token) r (refill name now r).buckets
        (omega (arith, ready-le name now r)))
      (elim (Bool-cases (str_eq name j)) [
        | inl same ↦ rw same (rw (← (eq_iff name j).0 same) (omega arith))
        | inr other ↦ rw other (omega (arith, level-refill j name now r))
      ])

-- What one call at `now` leaves in the bucket of each tool: a token less for the called tool if
-- the call was allowed, and the same otherwise.
pub level-acquire :
    (j name : String) (now : ℕ) (r : RateLimiter)
    → level j now (acquire name now r).1 + charge j name (acquire name now r).0 ≡ level j now r
level-acquire j name now r =
    rw acquire_lem (elim (Bool-cases (leb token (ready name now r).tokens)) [
      | inl enough ↦ rw enough (level-spend j name now r (ground arith))
      | inr short ↦ rw short (omega (arith, level-refill j name now r))
    ])

elapsed-le : (now wait last rpm : ℕ) → (now + wait - last) * rpm ≤ (now - last) * rpm + wait * rpm
elapsed-le now wait last rpm =
    let h : now + wait - last ≤ (now - last) + wait = omega arith in
    grind (arith, mul-le-mul_right rpm h)

level-later :
    (j : String) (now wait : ℕ) (r : RateLimiter)
    → level j (now + wait) r ≤ level j now r + wait * r.rpm
unfolding refilled max_tokens bucket_or
level-later j now wait r = elim (Option-cases (find_bucket j r.buckets)) [
  | inl missing ↦ rw missing (grind arith)
  | inr (b, found) ↦ rw found (grind (arith, elapsed-le now wait b.last_refill r.rpm))
]

acquire-rpm : (name : String) (now : ℕ) (r : RateLimiter) → (acquire name now r).1.rpm ≡ r.rpm
unfolding acquire refill
acquire-rpm name now r = ground arith

level-le_max : (j : String) (now : ℕ) (r : RateLimiter) → level j now r ≤ r.rpm * token
unfolding refilled max_tokens
level-le_max j now r = omega arith

-- The calls that a limiter lets through for tool `j`, when each call of the list is made some
-- seconds after the one before it, to some tool.
pub allowed_calls : String → ℕ → RateLimiter → List (ℕ × String) → ℕ
allowed_calls j now r [] = 0
allowed_calls j now r ((wait, name) ∷ calls) =
    let (allowed, r') = acquire name (now + wait) r in
    (if allowed && str_eq name j then 1 else 0) + allowed_calls j (now + wait) r' calls

abbrev pub duration : List (ℕ × String) → ℕ
duration [] = 0
duration ((wait, _) ∷ calls) = wait + duration calls

allowed_calls-le_level :
    (j : String) (now : ℕ) (r : RateLimiter) (calls : List (ℕ × String))
    → allowed_calls j now r calls * token ≤ level j now r + duration calls * r.rpm
unfolding allowed_calls
allowed_calls-le_level j now r [] = omega arith
allowed_calls-le_level j now r ((wait, name) ∷ calls) =
    let r' = (acquire name (now + wait) r).1 in
    let ih = allowed_calls-le_level j (now + wait) r' calls in
    let rpm : duration calls * r'.rpm ≡ duration calls * r.rpm =
      ap (λ n. duration calls * n) (acquire-rpm name (now + wait) r) in
    grind (arith, level-acquire j name (now + wait) r, level-later j now wait r, ih, rpm)

-- Whatever the calls, in whatever order and to whatever tools, the calls let through for one tool
-- during `duration calls` seconds number at most `requests_per_minute` plus a minute's share of
-- `requests_per_minute` for each minute that passed.
pub allowed_calls_bound :
    (j : String) (now : ℕ) (r : RateLimiter) (calls : List (ℕ × String))
    → allowed_calls j now r calls * 60 ≤ r.rpm * 60 + duration calls * r.rpm
allowed_calls_bound j now r calls =
    omega (arith, allowed_calls-le_level j now r calls, level-le_max j now r)
