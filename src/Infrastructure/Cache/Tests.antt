-- ===== src/Infrastructure/Cache/Tests.antt =====
-- A payload of a search that is kept for a minute.
use enterprise_sales_intelli.Prelude.{
  ℕ, ◌≡◌, refl, String, true, Option, none, some, [], ◌∷◌, string_eq,
}
use enterprise_sales_intelli.Prelude.Dict.{Dict, lookup, insert, erase}
use enterprise_sales_intelli.Infrastructure.Cache.{
  MemoryValue, get, set, delete, provider_key, provider_get, provider_set, unmarked,
}
use enterprise_sales_intelli.Infrastructure.Cache.Lifetime.{IsUnmarked, provider_get-provider_set}

program : Unit {0}
unfolding lookup insert erase get set delete provider_get provider_set unmarked
program = tt

-- A payload has numbers, and perhaps nothing; its bytes are the payload itself.
abbrev Payload : Type 0
Payload = Dict String (Option ℕ)

abbrev found : Payload
found = ("total", some 7) ∷ ("cache_hit_at", some 3) ∷ []

abbrev kept : Payload
kept = ("total", some 7) ∷ ("cache_hit_at", none) ∷ []

abbrev lifetimes : Dict String ℕ
lifetimes = ("map_search", 60) ∷ []

abbrev stored : Dict String (MemoryValue Payload)
stored = (provider_key "amap" "h1", record { value = kept; expires_at = 61000 }) ∷ []

stored_once :
    provider_set (λ p. p) some (λ b. true) none lifetimes "amap" "map_search" "h1" found 1000 []
    ≡ some stored
unfolding program
stored_once = refl

deleted : delete (provider_key "amap" "h1") stored ≡ []
unfolding program
deleted = refl

provider_get-provider_set_example :
    (value : Payload) × IsUnmarked none found value
    × ((provider_get (λ p. p) some (λ b. true) none lifetimes "amap" "h1" 60999 stored).0
        ≡ some (some value))
unfolding lookup
provider_get-provider_set_example =
    provider_get-provider_set (λ p. p) some (λ b. true) none lifetimes "amap" "map_search" "h1"
      found 60 1000 60999 [] stored (λ p whole. (refl, refl)) refl stored_once
