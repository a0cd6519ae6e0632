-- ===== src/Policy/RateLimit.antt =====
-- app/policies/rate_limit.py: the token bucket of each tool.
--
-- The source counts tokens and seconds in floats. Here a token is 60 units and time is whole
-- seconds, so that a bucket refills by `requests_per_minute` units a second: every quantity that
-- the code computes at whole seconds is then a whole number of units, with no rounding.
pub mod Laws
mod Tests
use agent_operator.Errors.{value_error}
use agent_operator.Prelude.{
  Result, ok, err, ℕ, ◌+◌, ◌-◌, ◌*◌, String, str_eq, Bool, true, false, Option, none, some, List,
  [], ◌∷◌, min, leb, if◌then◌else◌,
}

-- The two dictionaries of a limiter, `_tokens` and `_last_refill`, which hold the same keys.
pub record Bucket : Type 0 where
  pub tokens : ℕ
  pub last_refill : ℕ

pub record RateLimiter : Type 0 where
  pub rpm : ℕ
  pub buckets : List (String × Bucket)

-- `RateLimiter(requests_per_minute=n)`.
unfoldable pub create : ℕ → Result RateLimiter
create n = if leb 1 n then ok (record { rpm = n; buckets = [] }) else err value_error

-- The units of one token.
abbrev pub token : ℕ
token = 60

unfoldable pub max_tokens : RateLimiter → ℕ
max_tokens r = r.rpm * token

unfoldable pub find_bucket : String → List (String × Bucket) → Option Bucket
find_bucket k [] = none
find_bucket k ((j, b) ∷ bs) = if str_eq j k then some b else find_bucket k bs

unfoldable pub put_bucket : String → Bucket → List (String × Bucket) → List (String × Bucket)
put_bucket k b [] = (k, b) ∷ []
put_bucket k b ((j, c) ∷ bs) = if str_eq j k then (k, b) ∷ bs else (j, c) ∷ put_bucket k b bs

unfoldable pub drop_bucket : String → List (String × Bucket) → List (String × Bucket)
drop_bucket k [] = []
drop_bucket k ((j, b) ∷ bs) =
    let rest = drop_bucket k bs in if str_eq j k then rest else (j, b) ∷ rest

-- A missing key counts as a full bucket that was refilled now.
unfoldable pub bucket_or : RateLimiter → ℕ → Option Bucket → Bucket
bucket_or r now none = record { tokens = max_tokens r; last_refill = now }
bucket_or r now (some b) = b

-- `min(current + elapsed * refill_rate, max_tokens)`.
unfoldable pub refilled : RateLimiter → ℕ → Bucket → Bucket
refilled r now b = record {
  tokens = min (b.tokens + (now - b.last_refill) * r.rpm) (max_tokens r);
  last_refill = now;
}

-- `_refill(tool_name)` at the clock reading `now`.
unfoldable pub refill : String → ℕ → RateLimiter → RateLimiter
refill name now r = record r {
  buckets =
      put_bucket name (refilled r now (bucket_or r now (find_bucket name r.buckets))) r.buckets;
}

-- `acquire(tool_name)` at the clock reading `now`.
unfoldable pub acquire : String → ℕ → RateLimiter → Bool × RateLimiter
acquire name now r =
    let r' = refill name now r in
    let b = bucket_or r' now (find_bucket name r'.buckets) in
    if leb token b.tokens
    then (
      true,
      record r' { buckets = put_bucket name (record b { tokens = b.tokens - token }) r'.buckets },
    )
    else (false, r')

-- `reset(tool_name)`; `none` resets every bucket.
unfoldable pub reset : Option String → RateLimiter → RateLimiter
reset none r = record r { buckets = [] }
reset (some name) r = record r { buckets = drop_bucket name r.buckets }
