-- ===== src/Infrastructure/Cache.antt =====
-- app/infrastructure/cache.py: `InMemoryCacheService`, `CacheKeys` and `ProviderCache` over it.
-- Times are whole milliseconds.
pub mod Lifetime
mod Tests
use Prim.Native.String.{◌++◌ as str_append}
use enterprise_sales_intelli.Prelude.{
  ℕ, ◌+◌, ◌*◌, String, Bool, Option, none, some, leb, if◌then◌else◌, string_eq,
}
use enterprise_sales_intelli.Prelude.Dict.{Dict, lookup, insert, erase}

-- `_MemoryValue`
pub record MemoryValue (B : Type 0) : Type 0 where
  pub value : B
  pub expires_at : ℕ

module _ {B : Type 0} where
  -- An entry that is missing or has expired is removed.
  unfoldable pub get :
      String → ℕ → Dict String (MemoryValue B) → Option B × Dict String (MemoryValue B)
  get key now values = elim (lookup key values) [
    | none ↦ (none, erase key values)
    | some item ↦
        if leb item.expires_at now then (none, erase key values) else (some item.value, values)
  ]

  unfoldable pub set :
      String → B → ℕ → ℕ → Dict String (MemoryValue B) → Dict String (MemoryValue B)
  set key value ttl now values =
      insert key (record { value = value; expires_at = now + ttl * 1000 }) values

  unfoldable pub delete : String → Dict String (MemoryValue B) → Dict String (MemoryValue B)
  delete key values = erase key values

-- `CacheKeys.provider`
abbrev pub provider_key : String → String → String
provider_key provider hash = str_append "provider:" (str_append provider (str_append ":" hash))

module _ {J : Type 0} (null : J) where
  -- `{**deepcopy(payload), "cache_hit_at": None}`
  unfoldable pub unmarked : Dict String J → Dict String J
  unmarked payload = insert "cache_hit_at" null payload

-- The texts of payloads, which are dictionaries: `json.dumps` and `json.loads`, which raises on
-- other texts. `has_text` is the truth of the bytes, and `null` is None.
module _ {B J : Type 0} (dumps : Dict String J → B) (loads : B → Option (Dict String J))
    (has_text : B → Bool) (null : J) (ttl_by_operation : Dict String ℕ) where
  -- `ProviderCache.get`; the outer option is nothing when it raises.
  unfoldable pub provider_get :
      String
      → String
      → ℕ
      → Dict String (MemoryValue B)
      → Option (Option (Dict String J)) × Dict String (MemoryValue B)
  provider_get provider hash now values =
      let (raw, values') = get (provider_key provider hash) now values in
      (
        elim raw [
          | none ↦ some none
          | some text ↦
              if has_text text
              then (elim (loads text) [ none ↦ none | some p ↦ some (some p) ])
              else some none
        ],
        values',
      )

  -- `ProviderCache.set`; nothing when the operation has no time to live.
  unfoldable pub provider_set :
      String
      → String
      → String
      → Dict String J
      → ℕ
      → Dict String (MemoryValue B)
      → Option (Dict String (MemoryValue B))
  provider_set provider operation hash payload now values =
      elim (lookup operation ttl_by_operation) [
        | none ↦ none
        | some ttl ↦
            some (set (provider_key provider hash) (dumps (unmarked null payload)) ttl now values)
      ]
