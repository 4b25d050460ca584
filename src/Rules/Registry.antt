-- ===== src/Rules/Registry.antt =====
-- app/rules/registry.py: the fields that rules may name, and the catalogue of businesses.
pub mod Codes
use enterprise_sales_intelli.Prelude.{
  String, Bool, false, ◌||◌, Option, List, [], ◌∷◌, ◌==◌, string_eq, if◌then◌else◌,
}
use enterprise_sales_intelli.Prelude.Dict.{Dict, lookup}
use enterprise_sales_intelli.Prelude.Sort.{contains}
use enterprise_sales_intelli.Prelude.Texts.{strip}
use enterprise_sales_intelli.Rules.Models.{
  RuleOperator, eq_op, ne_op, gt_op, gte_op, lt_op, lte_op, in_op, not_in_op, contains_op,
}

-- The fields that nothing modelled reads are left out.
pub record RuleFieldDefinition : Type 0 where
  pub name : String
  pub value_type : String
  pub allowed_operators : List RuleOperator

abbrev defined : String → String → List RuleOperator → String × RuleFieldDefinition
defined name value_type allowed =
    (name, record { name = name; value_type = value_type; allowed_operators = allowed })

abbrev numeric : List RuleOperator
numeric = eq_op ∷ ne_op ∷ gt_op ∷ gte_op ∷ lt_op ∷ lte_op ∷ []

-- `RuleFieldRegistry._fields`
unfoldable pub fields : Dict String RuleFieldDefinition
fields =
    defined "region" "STRING" (eq_op ∷ ne_op ∷ contains_op ∷ [])
    ∷ defined "industry" "STRING" (eq_op ∷ ne_op ∷ in_op ∷ not_in_op ∷ [])
    ∷ defined "employee_count" "INTEGER" numeric
    ∷ defined "member_count" "INTEGER" numeric
    ∷ defined "office_count" "INTEGER" numeric
    ∷ defined "has_office_in" "STRING" (eq_op ∷ contains_op ∷ [])
    ∷ defined "branch_count" "INTEGER" numeric
    ∷ defined "company_scale" "ENUM" (eq_op ∷ in_op ∷ not_in_op ∷ [])
    ∷ defined "company_status" "STRING" (eq_op ∷ in_op ∷ not_in_op ∷ [])
    ∷ defined "existing_products" "LIST" (contains_op ∷ in_op ∷ not_in_op ∷ [])
    ∷ defined "contact_availability" "BOOLEAN" (eq_op ∷ [])
    ∷ defined "cross_region_presence" "BOOLEAN" (eq_op ∷ [])
    ∷ []

-- `RuleFieldRegistry.get`
unfoldable pub definition_of : String → Option RuleFieldDefinition
definition_of field = lookup field fields

-- An entry of `BUSINESS_CATALOG`, without `enabled`, which nothing reads.
pub record Business : Type 0 where
  pub code : String
  pub name : String
  pub aliases : List String

-- `BUSINESS_CATALOG`
abbrev pub group_vnet : Business
group_vnet = record {
  code = "GROUP_VNET";
  name = "集团V网";
  aliases = "集团 V 网" ∷ "V网" ∷ "集团V网业务" ∷ [];
}

abbrev pub dedicated_line : Business
dedicated_line = record {
  code = "ENTERPRISE_DEDICATED_LINE";
  name = "企业专线";
  aliases = "专线" ∷ "企业专线业务" ∷ [];
}

unfoldable pub catalog : List Business
catalog = group_vnet ∷ dedicated_line ∷ []

-- `code in BUSINESS_CATALOG`
unfoldable pub in_catalog : String → List Business → Bool
in_catalog code [] = false
in_catalog code (b ∷ bs) = b.code == code || in_catalog code bs

unfoldable pub is_business : String → Bool
is_business code = in_catalog code catalog

unfoldable pub names : Business → String → Bool
names b text = b.code == text || b.name == text || contains text b.aliases

unfoldable pub code_in : String → List Business → String
code_in text [] = text
code_in text (b ∷ bs) = let rest = code_in text bs in if names b text then b.code else rest

unfoldable pub normalize_business_code : String → String
normalize_business_code value = code_in (strip value) catalog
