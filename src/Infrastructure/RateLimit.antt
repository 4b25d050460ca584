-- ===== src/Infrastructure/RateLimit.antt =====
-- app/infrastructure/rate_limit.py: `RateLimitDecision` and `InMemoryTokenBucket`. Times are whole
-- milliseconds. Tokens are counted in parts, as many to a token as `parts` says, and `refill` is the
-- number of parts that one millisecond adds: a `refill_per_second` of `refill * 1000 / parts`, so
-- that every rational rate has its numbers. The arithmetic is exact, where the source rounds floats.
pub mod Bounds
pub mod Grants
mod Tests
use enterprise_sales_intelli.Prelude.{
  ℕ, ◌+◌, ◌-◌, ◌*◌, ◌/◌, min, String, Bool, true, false, Option, none, some, eqb, leb, get_or,
  if◌then◌else◌, string_eq,
}
use enterprise_sales_intelli.Prelude.Dict.{Dict, lookup, insert}

pub record RateLimitDecision : Type 0 where
  pub allowed : Bool
  pub retry_after_ms : ℕ
  pub remaining : ℕ

-- The keys' tokens and the times at which they were counted.
abbrev pub Buckets : Type 0
Buckets = Dict String (ℕ × ℕ)

-- The parts that tokens hold.
abbrev pub in_parts : ℕ → ℕ → ℕ
in_parts parts n = n * parts

-- `min(capacity, tokens + max(0, now - timestamp) * refill_per_second)`: the difference is zero
-- when the clock went back.
unfoldable pub refilled : ℕ → ℕ → ℕ → ℕ → ℕ × ℕ → ℕ
refilled parts capacity refill now (tokens, timestamp) =
    min (in_parts parts capacity) (tokens + (now - timestamp) * refill)

-- The bucket of a key at a time, a full one when there is none.
unfoldable pub tokens_at : String → ℕ → ℕ → ℕ → ℕ → Buckets → ℕ
tokens_at key parts capacity refill now buckets =
    refilled parts capacity refill now (get_or (lookup key buckets) (in_parts parts capacity, now))

-- `acquire`; nothing when it raises, dividing by a refill of zero.
unfoldable pub acquire : String → ℕ → ℕ → ℕ → ℕ → ℕ → Buckets → Option (RateLimitDecision × Buckets)
acquire key parts capacity refill amount now buckets =
    let tokens = tokens_at key parts capacity refill now buckets in
    if leb (in_parts parts amount) tokens
    then (let left = tokens - in_parts parts amount in
        some (
          record { allowed = true; retry_after_ms = 0; remaining = left },
          insert key (left, now) buckets,
        ))
    else if eqb refill 0
    then none
    else some (
      record {
        allowed = false;
        retry_after_ms = (in_parts parts amount - tokens) / refill + 1;
        remaining = tokens;
      },
      insert key (tokens, now) buckets,
    )

-- `RedisTokenBucket.acquire`: what the script answered, nothing when the call raised.
unfoldable pub redis_acquire : Bool → Option RateLimitDecision → RateLimitDecision
redis_acquire fail_open (some d) = d
redis_acquire fail_open none =
    if fail_open
    then record { allowed = true; retry_after_ms = 0; remaining = 0 }
    else record { allowed = false; retry_after_ms = 1000; remaining = 0 }
