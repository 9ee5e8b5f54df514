-- ===== src/Tests/Costs.antt =====
-- The theorems of Cost at examples.
use ai_engineering_productiv.Prelude.{
  ℕ, ◌+◌, ◌*◌, ◌≤◌, ◌<◌, String, ◌≡◌, refl, Option, none, some, List, [], ◌∷◌, any, contains,
  if◌then◌else◌, arith,
}
use ai_engineering_productiv.Prelude.Int.{ℤ, pos}
use ai_engineering_productiv.Canonical.{
  text, integer, field, end, Event, get_field, text_or_empty, find_field,
}
use ai_engineering_productiv.Cost.{PriceRecord, PriceCatalog, CostRecord}
use ai_engineering_productiv.Cost.Catalog.{
  ends_with_star, star_count, valid_category, bad_rate_in, validate_record, validate_records,
  validate_catalog,
}
use ai_engineering_productiv.Cost.Select.{
  starts_with, without_star, match_price, applies, better, select_from, select_price,
}
use ai_engineering_productiv.Cost.Select.Laws.{Chosen, select_price_lem}
use ai_engineering_productiv.Cost.Calculate.{
  rounded_product, calculate, observed_tokens_of, token, is_metric, find_rate,
}
use ai_engineering_productiv.Cost.Calculate.Laws.{
  total_of, has_no_rate, calculate_lem, rounded_product-nearest,
}
use ai_engineering_productiv.Cost.Summary.{summarize_records}
use ai_engineering_productiv.Cost.Summary.Laws.{sum_of, gives_amount, summarize_records-amount}
use ai_engineering_productiv.Tests.{event_with, no_integer}

abbrev price_with : String → String → PriceRecord
price_with id matcher = record {
  id = id;
  provider = "anthropic";
  model_matcher = matcher;
  effective_at = 1;
  source = "list";
  rates = record { category = "input"; microusd = pos 3000000 } ∷ [];
}

abbrev exact_price : PriceRecord
exact_price = price_with "p1" "opus"

abbrev prefix_price : PriceRecord
prefix_price = price_with "p2" "op*"

abbrev catalog : PriceCatalog
catalog = record {
  schema_version = "0.1.0";
  catalog_version = "1";
  currency = "USD";
  records = prefix_price ∷ exact_price ∷ [];
}

abbrev request : Event
request =
    event_with "e1"
      (field "model" (text "opus") (
        field "input_token_count" (integer (pos 7))
          (field "output_token_count" (integer (pos 2)) end)))
      end

select_price_lem_example :
    Chosen "anthropic" "opus" 5 (select_price catalog.records "anthropic" "opus" 5) catalog.records
select_price_lem_example = select_price_lem "anthropic" "opus" 5 catalog.records

rounded_product-nearest_example :
    (n : ℕ) × (rounded_product 7 (pos 3000001) ≡ pos n)
    × (1000000 * n ≤ 7 * 3000001 + 500000)
    × (7 * 3000001 < 1000000 * n + 500000)
rounded_product-nearest_example = rounded_product-nearest 7 3000001 (omega arith)

calculate_lem_example :
    ((calculate no_integer catalog request).amount_microusd
      ≡ some (pos (total_of exact_price.rates (observed_tokens_of no_integer request.attributes))))
    × ((calculate no_integer catalog request).price_record_id ≡ some exact_price.id)
    × ((calculate no_integer catalog request).status ≡ (
        if any (has_no_rate exact_price.rates) (observed_tokens_of no_integer request.attributes)
        then "partial"
        else "calculated"))
unfolding validate_catalog validate_records validate_record star_count ends_with_star bad_rate_in
    valid_category is_metric observed_tokens_of token get_field find_field text_or_empty
    select_price select_from applies better match_price starts_with without_star find_rate contains
calculate_lem_example =
    calculate_lem no_integer catalog request exact_price refl refl (λ h. cc) (λ h. cc) refl
      (omega arith)

abbrev priced_request : Option ℤ → String → CostRecord
priced_request amount status = record {
  event_id = "e1";
  session_id = "s1";
  calculated_at = 5;
  calculation_version = "1";
  catalog_version = "1";
  currency = "USD";
  status = status;
  amount_microusd = amount;
  price_record_id = none;
  observed_tokens = [];
}

abbrev costs : List CostRecord
costs =
    priced_request (some (pos 21)) "calculated"
    ∷ priced_request none "unknown_model"
    ∷ priced_request (some (pos 4)) "calculated"
    ∷ []

summarize_records-amount_example :
    (summarize_records costs).amount
    ≡ (if any gives_amount costs then some (pos (sum_of costs)) else none)
summarize_records-amount_example = summarize_records-amount costs (tt, (tt, (tt, tt))) (omega arith)
