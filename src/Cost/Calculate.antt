-- ===== src/Cost/Calculate.antt =====
-- internal/cost/cost.go: token, roundedProduct, Calculate. fmt.Sscan into an int64 is an argument.
pub mod Laws
use ai_engineering_productiv.Prelude.{
  ℕ, suc, ◌+◌, ◌-◌, ◌*◌, ◌/◌, ◌%◌, ◌^◌, String, Bool, true, false, Option, none, some, List, [],
  ◌∷◌, ◌++◌, ◌==◌, ◌||◌, if◌then◌else◌, ltb, leb,
}
use ai_engineering_productiv.Prelude.Int.{ℤ, pos, negsuc}
use ai_engineering_productiv.Canonical.{
  Value, boolean, integer, float, json_number, text, Fields, get_field, text_or_empty, Event,
}
use ai_engineering_productiv.Cost.{Rate, PriceRecord, PriceCatalog, Tokens, CostRecord}
use ai_engineering_productiv.Cost.Select.{select_price}

-- The bits of an int64, and the int64 of such bits.
unfoldable pub to_bits : ℤ → ℕ
to_bits (pos n) = n % 2 ^ 64
to_bits (negsuc n) = 2 ^ 64 - 1 - n % 2 ^ 64

unfoldable pub from_bits : ℕ → ℤ
from_bits b = if ltb b (2 ^ 63) then pos b else negsuc (2 ^ 64 - 1 - b)

-- big.Int: the product plus half a million, divided by a million rounding down. Its Int64 keeps the
-- low bits.
unfoldable pub rounded_product : ℕ → ℤ → ℤ
unfolding to_bits from_bits
rounded_product tokens (pos rate) = from_bits (to_bits (pos ((tokens * rate + 500000) / 1000000)))
rounded_product tokens (negsuc rate) =
    let owed = tokens * suc rate in
    if leb owed 500000
    then from_bits (to_bits (pos ((500000 - owed) / 1000000)))
    else from_bits (to_bits (negsuc ((owed - 500000 - 1) / 1000000)))

-- `+=` on an int64
unfoldable pub add_int64 : ℤ → ℤ → ℤ
unfolding to_bits from_bits
add_int64 a b = from_bits ((to_bits a + to_bits b) % 2 ^ 64)

unfoldable pub find_rate : List Rate → String → Option ℤ
find_rate [] category = none
find_rate (r ∷ rs) category =
    if r.category == category then some r.microusd else find_rate rs category

-- The loop over the observed tokens: the amount, and whether a rate was missing.
unfoldable pub price_tokens : List Rate → ℤ → Bool → List Tokens → ℤ × Bool
unfolding find_rate rounded_product add_int64
price_tokens rates amount partial [] = (amount, partial)
price_tokens rates amount partial (t ∷ ts) = elim (find_rate rates t.category) [
  | none ↦ price_tokens rates amount true ts
  | some rate ↦ price_tokens rates (add_int64 amount (rounded_product t.count rate)) partial ts
]

abbrev pub non_negative : Option ℤ → Option ℕ
non_negative (some (pos n)) = some n
non_negative _ = none

unfoldable pub is_metric : String → Bool
is_metric t =
    t == "codex.turn.token_usage"
    || t == "claude_code.token.usage"
    || t == "claude_code.cost.usage"
    || t == "cursor.token.usage"

abbrev pub blank_record : PriceCatalog → Event → CostRecord
blank_record catalog event = record {
  event_id = event.event_id;
  session_id = event.session_id;
  calculated_at = event.received_at;
  calculation_version = "1";
  catalog_version = catalog.catalog_version;
  currency = catalog.currency;
  status = "not_applicable";
  amount_microusd = none;
  price_record_id = none;
  observed_tokens = [];
}

-- The end of Calculate, where a price was found.
unfoldable pub priced : PriceRecord → CostRecord → CostRecord
unfolding price_tokens
priced price r =
    let total = price_tokens price.rates (pos 0) false r.observed_tokens in
    record r {
      price_record_id = some price.id;
      amount_microusd = some total.0;
      status = if total.1 then "partial" else "calculated";
    }

unfoldable pub with_price : Option PriceRecord → CostRecord → CostRecord
unfolding priced
with_price none r = record r { status = "unknown_price" }
with_price (some price) r = priced price r

-- The part of Calculate after the tokens were read.
unfoldable pub with_tokens : PriceCatalog → Event → List Tokens → CostRecord
unfolding with_price select_price text_or_empty get_field
with_tokens catalog event [] = blank_record catalog event
with_tokens catalog event (t ∷ ts) =
    let r = record (blank_record catalog event) { observed_tokens = t ∷ ts } in
    let model = text_or_empty (get_field event.attributes "model") in
    if model == ""
    then record r { status = "unknown_model" }
    else with_price (select_price catalog.records event.provider model event.occurred_at) r

module _ (scan_int : String → Option ℤ) where
  unfoldable pub token : Value → Option ℕ
  token (text s) = non_negative (scan_int s)
  token (float n) = non_negative n
  token (json_number n) = non_negative n
  token (integer n) = non_negative (some n)
  token _ = none

  abbrev pub observe : Fields → String → String → List Tokens → List Tokens
  observe attributes key category rest = elim (token (get_field attributes key)) [
    | none ↦ rest
    | some n ↦ record { category = category; count = n } ∷ rest
  ]

  -- ObservedTokens, in the order in which the code lists the categories.
  unfoldable pub observed_tokens_of : Fields → List Tokens
  unfolding token get_field
  observed_tokens_of attributes = observe attributes "input_token_count" "input" (
      observe attributes "cached_input_token_count" "cached_input" (
        observe attributes "output_token_count" "output"
          (observe attributes "reasoning_token_count" "reasoning" [])))

  -- Calculate
  unfoldable pub calculate : PriceCatalog → Event → CostRecord
  unfolding is_metric with_tokens observed_tokens_of
  calculate catalog event =
      if is_metric event.event_type
      then blank_record catalog event
      else with_tokens catalog event (observed_tokens_of event.attributes)
