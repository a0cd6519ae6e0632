-- ===== src/Policy/RateLimit/Tests.antt =====
-- Runs of the limiter.
use agent_operator.Policy.RateLimit.Laws.{allowed_calls, duration, allowed_calls_bound}
use agent_operator.Prelude.{ℕ, ◌+◌, ◌*◌, ◌≤◌, List, [], ◌∷◌, String, ◌≡◌, refl, true, false}
use agent_operator.Policy.RateLimit.{
  RateLimiter, acquire, refill, refilled, bucket_or, max_tokens, find_bucket, put_bucket,
}

abbrev once_a_minute : RateLimiter
once_a_minute = record { rpm = 1; buckets = [] }

second_call_refused :
    ((acquire "web_search" 0 once_a_minute).0 ≡ true)
    × ((acquire "web_search" 59 (acquire "web_search" 0 once_a_minute).1).0 ≡ false)
    × ((acquire "web_search" 60 (acquire "web_search" 0 once_a_minute).1).0 ≡ true)
unfolding acquire refill refilled bucket_or max_tokens find_bucket put_bucket
second_call_refused = (refl, refl, refl)

abbrev three_calls : List (ℕ × String)
three_calls = (0, "web_search") ∷ (30, "web_search") ∷ (30, "web_search") ∷ []

allowed_calls_bound_example :
    allowed_calls "web_search" 0 once_a_minute three_calls * 60 ≤ 1 * 60 + duration three_calls * 1
allowed_calls_bound_example = allowed_calls_bound "web_search" 0 once_a_minute three_calls
