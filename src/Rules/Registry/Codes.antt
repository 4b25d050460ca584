-- ===== src/Rules/Registry/Codes.antt =====
-- Normalising a business code.
use enterprise_sales_intelli.Prelude.{String, ◌≡◌, refl, string_eq, inl, inr, ◌⊎◌, arith}
use enterprise_sales_intelli.Prelude.Sort.{contains}
use enterprise_sales_intelli.Prelude.Texts.{strip, strip-strip, strip_left, strip_right, is_space}
use enterprise_sales_intelli.Rules.Registry.{catalog, names, code_in, normalize_business_code}

code_in_cases :
    (text : String)
    → (code_in text catalog ≡ "GROUP_VNET")
      ⊎ (code_in text catalog ≡ "ENTERPRISE_DEDICATED_LINE")
      ⊎ (code_in text catalog ≡ text)
unfolding code_in catalog
code_in_cases text = ground arith

known_codes :
    (normalize_business_code "GROUP_VNET" ≡ "GROUP_VNET")
    × (normalize_business_code "ENTERPRISE_DEDICATED_LINE" ≡ "ENTERPRISE_DEDICATED_LINE")
unfolding normalize_business_code strip strip_left strip_right is_space catalog code_in names
    contains
known_codes = (refl, refl)

-- Normalising a business code a second time changes nothing.
pub normalize_business_code_idempotent :
    (value : String)
    → normalize_business_code (normalize_business_code value) ≡ normalize_business_code value
unfolding normalize_business_code
normalize_business_code_idempotent value = elim (code_in_cases (strip value)) [
  | inl first ↦ rw first known_codes.0
  | inr (inl second) ↦ rw second known_codes.1
  | inr (inr same) ↦ rw (same, strip-strip value) same
]
