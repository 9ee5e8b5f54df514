-- ===== src/Cost/Catalog.antt =====
-- internal/cost/cost.go: validate, validateRecord, merge.
use Prim.Native.Char.{code}
use ai_engineering_productiv.Prelude.{
  ℕ, suc, String, Bool, true, false, Option, none, some, List, [], ◌∷◌, ◌==◌, ◌||◌, ◌&&◌, not,
  if◌then◌else◌, ltb, nat_eq, contains, any,
}
use ai_engineering_productiv.Prelude.Int.{is_negative}
use ai_engineering_productiv.Cost.{Rate, PriceRecord, PriceCatalog}

pub data CatalogError : Type 0 where
  bad_schema_version missing_version_or_currency missing_fields bad_matcher no_rates : CatalogError
  bad_rate duplicate_id : CatalogError

-- strings.Count(s, "*")
unfoldable pub star_count : String → ℕ
star_count String.[] = 0
star_count (String.◌∷◌ c s) = if nat_eq (code c) 42 then suc (star_count s) else star_count s

-- strings.HasSuffix(s, "*")
unfoldable pub ends_with_star : String → Bool
ends_with_star String.[] = false
ends_with_star (String.◌∷◌ c s) = nat_eq (code c) 42 && s == "" || ends_with_star s

unfoldable pub valid_category : String → Bool
valid_category s = s == "input" || s == "cached_input" || s == "output" || s == "reasoning"

unfoldable pub bad_rate_in : Rate → Bool
unfolding valid_category
bad_rate_in r = not (valid_category r.category) || is_negative r.microusd

abbrev pub no_entries : List Rate → Bool
no_entries [] = true
no_entries (r ∷ rs) = false

unfoldable pub validate_record : PriceRecord → Option CatalogError
unfolding star_count ends_with_star bad_rate_in
validate_record r =
    if r.id == ""
      || r.provider == ""
      || r.model_matcher == ""
      || nat_eq r.effective_at 0
      || r.source == ""
    then some missing_fields
    else if ltb 1 (star_count r.model_matcher)
        || ltb 0 (star_count r.model_matcher) && not (ends_with_star r.model_matcher)
    then some bad_matcher
    else if no_entries r.rates
    then some no_rates
    else if any bad_rate_in r.rates
    then some bad_rate
    else none

-- The loop over the records, with the ids it has seen.
unfoldable pub validate_records : List String → List PriceRecord → Option CatalogError
unfolding validate_record
validate_records seen [] = none
validate_records seen (r ∷ rs) =
    let rest = validate_records (r.id ∷ seen) rs in
    elim (validate_record r) [
      | some e ↦ some e
      | none ↦ if contains seen r.id then some duplicate_id else rest
    ]

unfoldable pub validate_catalog : PriceCatalog → Option CatalogError
unfolding validate_records
validate_catalog c =
    if not (c.schema_version == "0.1.0")
    then some bad_schema_version
    else if c.catalog_version == "" || not (c.currency == "USD")
    then some missing_version_or_currency
    else validate_records [] c.records
