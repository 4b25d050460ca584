-- ===== src/Infrastructure/RateLimit/Tests.antt =====
-- A bucket of one token that regains one in a hundred milliseconds.
use enterprise_sales_intelli.Prelude.{
  ◌≤◌, ◌-◌, ◌+◌, ◌*◌, ◌≡◌, refl, true, false, some, List, [], ◌∷◌, arith, string_eq,
}
use enterprise_sales_intelli.Prelude.Dict.{lookup, insert}
use enterprise_sales_intelli.Infrastructure.RateLimit.{
  RateLimitDecision, Buckets, in_parts, refilled, tokens_at, acquire,
}
use enterprise_sales_intelli.Infrastructure.RateLimit.Bounds.{acquire-retries}
use enterprise_sales_intelli.Infrastructure.RateLimit.Grants.{Request, granted, granted-IsBounded}

program : Unit {0}
unfolding lookup insert refilled tokens_at acquire granted
program = tt

abbrev emptied : Buckets
emptied = ("rate:amap:main:map", (0, 500)) ∷ []

abbrev too_early : RateLimitDecision
too_early = record { allowed = false; retry_after_ms = 71; remaining = 300 }

abbrev counted : Buckets
counted = ("rate:amap:main:map", (300, 530)) ∷ []

refused_once : acquire "rate:amap:main:map" 1000 1 10 1 530 emptied ≡ some (too_early, counted)
unfolding program
refused_once = refl

abbrev burst : List Request
burst =
    record { key = "a"; amount = 1; at = 0 }
    ∷ record { key = "a"; amount = 1; at = 50 }
    ∷ record { key = "b"; amount = 1; at = 60 }
    ∷ record { key = "a"; amount = 1; at = 101 }
    ∷ []

two_of_three : granted 1000 1 10 "a" burst [] ≡ 2000
unfolding program
two_of_three = refl

acquire-retries_example :
    (r : RateLimitDecision × Buckets) × (acquire "rate:amap:main:map" 1000 1 10 1 601 counted
      ≡ some r)
    × (r.0.allowed ≡ true)
acquire-retries_example =
    acquire-retries "rate:amap:main:map" 1000 1 10 1 530 601 emptied counted too_early refused_once
      refl (omega arith) (omega arith)

granted-IsBounded_example : granted 1000 1 10 "a" burst [] ≤ in_parts 1000 1 + (200 - 0) * 10
granted-IsBounded_example =
    granted-IsBounded 1000 1 10 "a" burst [] 0 200
      (omega arith, (omega arith, (omega arith, (omega arith, omega arith))))
