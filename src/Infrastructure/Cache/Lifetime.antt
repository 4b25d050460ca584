-- ===== src/Infrastructure/Cache/Lifetime.antt =====
-- A stored value is found until its time to live is over, and not after.
use enterprise_sales_intelli.Prelude.{
  ℕ, ◌+◌, ◌*◌, ◌≡◌, String, Bool, true, Option, none, some, ltb, if◌then◌else◌, string_eq, arith,
  ◌==◌, ◌≢◌,
}
use enterprise_sales_intelli.Prelude.Dict.{
  Dict, lookup, lookup-insert, lookup-insert_self, lookup-insert_ne,
}
use enterprise_sales_intelli.Infrastructure.Cache.{
  MemoryValue, get, set, provider_key, provider_get, provider_set, unmarked,
}

-- A value that is set is found while its time to live lasts and not from its end on, and other
-- keys are found as they were.
get-set :
    {B : Type 0} (key other : String) (value : B) (ttl now later : ℕ)
    (values : Dict String (MemoryValue B))
    → (get other later (set key value ttl now values)).0 ≡ (
        if key == other
        then if ltb later (now + ttl * 1000) then some value else none
        else (get other later values).0)
unfolding get set
get-set key other value ttl now later values = ground (
  arith,
  string_eq.equals_iff key other,
  lookup-insert other key (record { value = value; expires_at = now + ttl * 1000 }) values,
)

module _ {J : Type 0} (null : J) where
  -- What a payload is when it is read back: its mark is empty, and its other entries are the same.
  pub record IsUnmarked (payload value : Dict String J) : Type 0 where
    pub mark : lookup "cache_hit_at" value ≡ some null
    pub others : (k : String) → "cache_hit_at" ≢ k → lookup k value ≡ lookup k payload

  unmarked-IsUnmarked : (payload : Dict String J) → IsUnmarked payload (unmarked null payload)
  unfolding unmarked
  unmarked-IsUnmarked payload = record {
    mark = lookup-insert_self "cache_hit_at" null payload;
    others = λ k differ. lookup-insert_ne k "cache_hit_at" null payload differ;
  }

module _ {B J : Type 0} (dumps : Dict String J → B) (loads : B → Option (Dict String J))
    (has_text : B → Bool) (null : J) (ttl_by_operation : Dict String ℕ) where
  -- Where `json.loads` inverts `json.dumps` on dictionaries with the entries of the payload and an
  -- empty mark, and no text of one is empty: a payload stored for an operation with a time to live
  -- is read back until that time is over, with an empty `cache_hit_at` and with its other entries
  -- as they are; from then on nothing is found, and no read raises.
  pub provider_get-provider_set :
      (provider operation hash : String) (payload : Dict String J) (ttl now later : ℕ)
      (values values' : Dict String (MemoryValue B))
      → ((p : Dict String J)
          → IsUnmarked null payload p
          → (loads (dumps p) ≡ some p) × (has_text (dumps p) ≡ true))
      → lookup operation ttl_by_operation ≡ some ttl
      → provider_set dumps loads has_text null ttl_by_operation provider operation hash payload now
          values
        ≡ some values'
      → (value : Dict String J) × IsUnmarked null payload value
        × ((provider_get dumps loads has_text null ttl_by_operation provider hash later values').0
            ≡ some (if ltb later (now + ttl * 1000) then some value else none))
  unfolding provider_get provider_set
  provider_get-provider_set provider operation hash payload ttl now later values values' json h
        set_to =
      let key = provider_key provider hash in
      let value = unmarked null payload in
      let whole = unmarked-IsUnmarked null payload in
      let (inverse, text) = json value whole in
      (
        value,
        whole,
        ground (
          arith,
          string_eq.equals_iff key key,
          inverse,
          text,
          get-set key key (dumps value) ttl now later values,
        ),
      )
