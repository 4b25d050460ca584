-- ===== src/Infrastructure/RateLimit/Bounds.antt =====
-- The token bucket grants no more than its capacity and what time has added, and a client that
-- waits as long as it was told is granted its request.
use native.Mathlib.Nat.{div-lt_iff_lt-mul, mul-le-mul_right}
use enterprise_sales_intelli.Prelude.{
  ℕ, ◌+◌, ◌-◌, ◌*◌, ◌/◌, ◌≤◌, ◌<◌, ◌≡◌, refl, min, String, true, false, arith, some, string_eq,
}
use enterprise_sales_intelli.Prelude.Dict.{insert, lookup-insert_self}
use enterprise_sales_intelli.Infrastructure.RateLimit.{
  RateLimitDecision, Buckets, in_parts, refilled, tokens_at, acquire,
}

quotient_covers : (n r : ℕ) → 0 < r → n < (n / r + 1) * r
quotient_covers n r h = (div-lt_iff_lt-mul h).0 (omega arith)

-- What was counted at one time, refilled.
pub tokens_at-insert :
    (key : String) (parts capacity refill now later n : ℕ) (b : Buckets)
    → tokens_at key parts capacity refill later (insert key (n, now) b)
      ≡ min (in_parts parts capacity) (n + (later - now) * refill)
unfolding tokens_at refilled
tokens_at-insert key parts capacity refill now later n b =
    rw (lookup-insert_self key (n, now) b) refl

refused_facts :
    (key : String) (parts capacity refill amount now : ℕ) (b b' : Buckets) (d : RateLimitDecision)
    → acquire key parts capacity refill amount now b ≡ some (d, b')
    → d.allowed ≡ false
    → let tokens = tokens_at key parts capacity refill now b in
      (tokens < in_parts parts amount)
      × (0 < refill)
      × (d.retry_after_ms ≡ (in_parts parts amount - tokens) / refill + 1)
      × (b' ≡ insert key (tokens, now) b)
unfolding acquire
refused_facts key parts capacity refill amount now b b' d h refused = ground arith

granted_when :
    (key : String) (parts capacity refill amount now : ℕ) (b : Buckets)
    → in_parts parts amount ≤ tokens_at key parts capacity refill now b
    → (r : RateLimitDecision × Buckets) × (acquire key parts capacity refill amount now b ≡ some r)
      × (r.0.allowed ≡ true)
unfolding acquire
granted_when key parts capacity refill amount now b h =
    let tokens = tokens_at key parts capacity refill now b in
    (
      (
        record { allowed = true; retry_after_ms = 0; remaining = tokens - in_parts parts amount },
        insert key (tokens - in_parts parts amount, now) b,
      ),
      ground arith,
      refl,
    )

-- A request that is refused, for no more than the capacity, is granted when it is made again once
-- the time that the refusal names has passed, with no other request of the key between.
pub acquire-retries :
    (key : String) (parts capacity refill amount now later : ℕ) (b b' : Buckets)
    (d : RateLimitDecision)
    → acquire key parts capacity refill amount now b ≡ some (d, b')
    → d.allowed ≡ false
    → amount ≤ capacity
    → now + d.retry_after_ms ≤ later
    → (r : RateLimitDecision × Buckets) × (acquire key parts capacity refill amount later b'
        ≡ some r)
      × (r.0.allowed ≡ true)
acquire-retries key parts capacity refill amount now later b b' d h refused fits waited =
    let (short, positive, wait, stored) =
      refused_facts key parts capacity refill amount now b b' d h refused in
    let tokens = tokens_at key parts capacity refill now b in
    let missing = in_parts parts amount - tokens in
    let enough = quotient_covers missing refill positive in
    let more =
      mul-le-mul_right {m = missing / refill + 1} {n = later - now} refill
        (omega (arith, waited, wait)) in
    granted_when key parts capacity refill amount later b' (
      rw stored (
        rw (tokens_at-insert key parts capacity refill now later tokens b) (
          omega
            (arith, short, enough, more, mul-le-mul_right {m = amount} {n = capacity} parts fits))))
