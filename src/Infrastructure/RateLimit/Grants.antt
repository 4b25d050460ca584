-- ===== src/Infrastructure/RateLimit/Grants.antt =====
-- What the token bucket grants over a run of requests is bounded by its capacity and by what time
-- adds.
use native.Mathlib.Nat.{mul-le-mul_right, add-mul}
use enterprise_sales_intelli.Prelude.{
  ℕ, ◌+◌, ◌-◌, ◌*◌, ◌≤◌, ◌≡◌, ◌≢◌, ◌∙◌, refl, sym, String, arith, some, none, List, [], ◌∷◌,
  string_eq, leb, if◌then◌else◌, Bool-cases, ◌==◌, ◌&&◌, Option-cases, ap, inl, inr, beq-cases,
}
use enterprise_sales_intelli.Prelude.Dict.{lookup, insert, lookup-insert_ne}
use enterprise_sales_intelli.Infrastructure.RateLimit.{
  RateLimitDecision, Buckets, in_parts, refilled, tokens_at, acquire,
}
use enterprise_sales_intelli.Infrastructure.RateLimit.Bounds.{tokens_at-insert}

pub record Request : Type 0 where
  pub key : String
  pub amount : ℕ
  pub at : ℕ

tokens_at-le :
    (key : String) (parts capacity refill now : ℕ) (b : Buckets)
    → tokens_at key parts capacity refill now b ≤ in_parts parts capacity
unfolding tokens_at refilled
tokens_at-le key parts capacity refill now b = omega arith

-- Time adds at most the refill.
refilled_later :
    (parts capacity refill now later : ℕ) (e : ℕ × ℕ)
    → refilled parts capacity refill later e
      ≤ refilled parts capacity refill now e + (later - now) * refill
unfolding refilled
refilled_later parts capacity refill now later (n, at) =
    let more =
      mul-le-mul_right {m = later - at} {n = (now - at) + (later - now)} refill (omega arith) in
    omega (arith, more, add-mul (now - at) (later - now) refill)

refilled_full :
    (parts capacity refill now : ℕ)
    → refilled parts capacity refill now (in_parts parts capacity, now) ≡ in_parts parts capacity
unfolding refilled
refilled_full parts capacity refill now = omega arith

tokens_at-insert_ne :
    (key other : String) (parts capacity refill now : ℕ) (e : ℕ × ℕ) (b : Buckets)
    → other ≢ key
    → tokens_at key parts capacity refill now (insert other e b)
      ≡ tokens_at key parts capacity refill now b
unfolding tokens_at
tokens_at-insert_ne key other parts capacity refill now e b h =
    rw (lookup-insert_ne key other e b h) refl

tokens_at-later :
    (key : String) (parts capacity refill now later : ℕ) (b : Buckets)
    → tokens_at key parts capacity refill later b
      ≤ tokens_at key parts capacity refill now b + (later - now) * refill
unfolding tokens_at
tokens_at-later key parts capacity refill now later b = elim (Option-cases (lookup key b)) [
  | inl absent ↦ rw absent (
      omega
        (arith, refilled_full parts capacity refill later, refilled_full parts capacity refill now))
  | inr (e, found) ↦ rw found (refilled_later parts capacity refill now later e)
]

module _ (parts capacity refill : ℕ) where
  -- The parts of tokens that the requests of a key are granted, one request after the other.
  unfoldable pub granted : String → List Request → Buckets → ℕ
  granted key [] b = 0
  granted key (r ∷ rs) b = elim (acquire r.key parts capacity refill r.amount r.at b) [
    | none ↦ granted key rs b
    | some (d, b') ↦
        (if d.allowed && r.key == key then in_parts parts r.amount else 0) + granted key rs b'
  ]

  -- The requests come in the order of their times, between the two.
  abbrev pub Rising : ℕ → List Request → ℕ → Type 0
  Rising first [] last = first ≤ last
  Rising first (r ∷ rs) last = (first ≤ r.at) × Rising r.at rs last

  Rising-le : (first : ℕ) (rs : List Request) (last : ℕ) → Rising first rs last → first ≤ last
  Rising-le first [] last up = up
  Rising-le first (r ∷ rs) last up = omega (arith, up.0, Rising-le r.at rs last up.1)

  elapsed : {a b c : ℕ} → a ≤ b → b ≤ c → (b - a) * refill + (c - b) * refill ≡ (c - a) * refill
  elapsed {a} {b} {c} ab bc =
      sym (add-mul (b - a) (c - b) refill) ∙ ap (λ x. x * refill) (omega (arith, ab, bc))

  -- A request's bucket is counted anew, less what the request is granted.
  acquire_cases :
      (r : Request) (b b' : Buckets) (d : RateLimitDecision)
      → acquire r.key parts capacity refill r.amount r.at b ≡ some (d, b')
      → (n : ℕ) × (b' ≡ insert r.key (n, r.at) b)
        × ((if d.allowed then in_parts parts r.amount else 0) + n
            ≤ tokens_at r.key parts capacity refill r.at b)
  unfolding acquire
  acquire_cases r b b' d h =
      let tokens = tokens_at r.key parts capacity refill r.at b in
      elim (Bool-cases (leb (in_parts parts r.amount) tokens)) [
        | inl enough ↦ (tokens - in_parts parts r.amount, ground arith, ground arith)
        | inr short ↦ (tokens, ground arith, ground arith)
      ]

  acquire-pays :
      (key : String) (r : Request) (b b' : Buckets) (d : RateLimitDecision)
      → acquire r.key parts capacity refill r.amount r.at b ≡ some (d, b')
      → (if d.allowed && r.key == key then in_parts parts r.amount else 0)
          + tokens_at key parts capacity refill r.at b'
        ≤ tokens_at key parts capacity refill r.at b
  acquire-pays key r b b' d h =
      let (n, stored, paid) = acquire_cases r b b' d h in
      elim (beq-cases r.key key) [
        | inl (t, same) ↦
            rw (t, sym same, stored, tokens_at-insert r.key parts capacity refill r.at r.at n b)
              (ground (arith, paid))
        | inr (f, other) ↦
            rw
              (
                f,
                stored,
                tokens_at-insert_ne key r.key parts capacity refill r.at (n, r.at) b other,
              )
              (ground arith)
      ]

  granted-le_tokens :
      (key : String) (rs : List Request) (b : Buckets) (first last : ℕ)
      → Rising first rs last
      → granted key rs b ≤ tokens_at key parts capacity refill first b + (last - first) * refill
  unfolding granted
  granted-le_tokens key [] b first last up = omega arith
  granted-le_tokens key (r ∷ rs) b first last up =
      let split = elapsed up.0 (Rising-le r.at rs last up.1) in
      let later = tokens_at-later key parts capacity refill first r.at b in
      elim (Option-cases (acquire r.key parts capacity refill r.amount r.at b)) [
        | inl raised ↦
            rw (raised, granted)
              (omega (arith, split, later, granted-le_tokens key rs b r.at last up.1))
        | inr ((d, b'), made) ↦
            rw (made, granted)
              (omega (
                arith,
                split,
                later,
                acquire-pays key r b b' d made,
                granted-le_tokens key rs b' r.at last up.1,
              ))
      ]

  -- Over requests that come in the order of their times, on any keys, what those of one key are
  -- granted in all is at most the capacity and what the refill adds between the two times, whatever
  -- the buckets hold at first.
  pub granted-IsBounded :
      (key : String) (rs : List Request) (b : Buckets) (first last : ℕ)
      → Rising first rs last
      → granted key rs b ≤ in_parts parts capacity + (last - first) * refill
  granted-IsBounded key rs b first last up = omega (
    arith,
    granted-le_tokens key rs b first last up,
    tokens_at-le key parts capacity refill first b,
  )
