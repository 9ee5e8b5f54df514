-- ===== src/Cost/Calculate/Laws.antt =====
-- The amounts that Calculate gives.
use mathlib.Core.Path.{subst}
use ai_engineering_productiv.Prelude.{
  ℕ, ◌+◌, ◌*◌, ◌/◌, ◌^◌, ◌≤◌, ◌<◌, String, ◌≡◌, ◌≢◌, refl, ap, ◌⊎◌, inl, inr, Bool, true, false,
  Option, none, some, List, [], ◌∷◌, ◌==◌, ◌||◌, eq_iff, arith, if◌then◌else◌, any, All, Has,
  Bool-cases, Option-cases,
}
use ai_engineering_productiv.Prelude.Int.{ℤ, pos, negsuc, is_negative}
use ai_engineering_productiv.Canonical.{get_field, text_or_empty, Event}
use ai_engineering_productiv.Cost.{Rate, PriceRecord, PriceCatalog, Tokens}
use ai_engineering_productiv.Cost.Catalog.{
  bad_rate_in, validate_record, validate_records, validate_catalog,
}
use ai_engineering_productiv.Cost.Select.{select_price}
use ai_engineering_productiv.Cost.Select.Laws.{Chosen, select_price_lem}
use ai_engineering_productiv.Cost.Calculate.{
  to_bits, from_bits, rounded_product, add_int64, find_rate, price_tokens, observed_tokens_of,
  is_metric, priced, with_price, with_tokens, calculate,
}

from_bits-to_bits : (n : ℕ) → n < 2 ^ 63 → from_bits (to_bits (pos n)) ≡ pos n
unfolding from_bits to_bits
from_bits-to_bits n h = ground arith

pub add_int64-pos : (a b : ℕ) → a + b < 2 ^ 63 → add_int64 (pos a) (pos b) ≡ pos (a + b)
unfolding add_int64 to_bits from_bits
add_int64-pos a b h = ground arith

rounded_product-pos :
    (tokens rate : ℕ)
    → (tokens * rate + 500000) / 1000000 < 2 ^ 63
    → rounded_product tokens (pos rate) ≡ pos ((tokens * rate + 500000) / 1000000)
unfolding rounded_product
rounded_product-pos tokens rate h = from_bits-to_bits ((tokens * rate + 500000) / 1000000) h

-- The price of a number of tokens is the exact one to half a micro-dollar, as long as that
-- fits an int64.
pub rounded_product-nearest :
    (tokens rate : ℕ)
    → tokens * rate + 500000 < 2 ^ 63 * 1000000
    → (n : ℕ) × (rounded_product tokens (pos rate) ≡ pos n)
      × (1000000 * n ≤ tokens * rate + 500000)
      × (tokens * rate < 1000000 * n + 500000)
rounded_product-nearest tokens rate h =
    let exact = tokens * rate in
    (
      (exact + 500000) / 1000000,
      rounded_product-pos tokens rate (omega arith),
      omega arith,
      omega arith,
    )

-- The exact amount: each category rounded, and those without a rate left out.
abbrev pub rounded : Option ℤ → ℕ → ℕ
rounded (some (pos rate)) tokens = (tokens * rate + 500000) / 1000000
rounded _ tokens = 0

abbrev pub total_of : List Rate → List Tokens → ℕ
total_of rates [] = 0
total_of rates (t ∷ ts) = rounded (find_rate rates t.category) t.count + total_of rates ts

abbrev pub has_no_rate : List Rate → Tokens → Bool
has_no_rate rates t = elim (find_rate rates t.category) [ none ↦ true | some rate ↦ false ]

not_negative : (z : ℤ) → is_negative z ≡ false → (n : ℕ) × (some z ≡ some (pos n))
not_negative (pos n) h = (n, refl)
not_negative (negsuc n) h = absurd (cc h)

find_rate-All :
    (rates : List Rate) (category : String)
    → any bad_rate_in rates ≡ false
    → (find_rate rates category ≡ none) ⊎ ((n : ℕ) × (find_rate rates category ≡ some (pos n)))
unfolding find_rate bad_rate_in
find_rate-All [] category h = inl refl
find_rate-All (r ∷ rs) category h = elim (Bool-cases (r.category == category)) [
  | inr e ↦ rw e (find_rate-All rs category (ground arith))
  | inl e ↦ rw e (inr (not_negative r.microusd (ground arith)))
]

price_tokens-total :
    (rates : List Rate) (amount : ℕ) (partial : Bool) (ts : List Tokens)
    → any bad_rate_in rates ≡ false
    → amount + total_of rates ts < 2 ^ 63
    → price_tokens rates (pos amount) partial ts
      ≡ (pos (amount + total_of rates ts), partial || any (has_no_rate rates) ts)
unfolding price_tokens
price_tokens-total rates amount partial [] valid h = ground arith
price_tokens-total rates amount partial (t ∷ ts) valid h =
    elim (find_rate-All rates t.category valid) [
      | inl e ↦ rw e (ground (arith, price_tokens-total rates amount true ts valid))
      | inr (n, e) ↦
          let cost = (t.count * n + 500000) / 1000000 in
          ground (
            arith,
            e,
            rounded_product-pos t.count n,
            add_int64-pos amount cost,
            price_tokens-total rates (amount + cost) partial ts valid,
          )
    ]

validate_record-rates :
    (r : PriceRecord) → validate_record r ≡ none → any bad_rate_in r.rates ≡ false
unfolding validate_record
validate_record-rates r h = elim (Bool-cases (any bad_rate_in r.rates)) [
  | inl e ↦ ground arith
  | inr e ↦ e
]

validate_records-All :
    (seen : List String) (rs : List PriceRecord)
    → validate_records seen rs ≡ none
    → All (λ r. any bad_rate_in r.rates ≡ false) rs
unfolding validate_records
validate_records-All seen [] h = tt
validate_records-All seen (r ∷ rs) h = elim (Option-cases (validate_record r)) [
  | inr (x, e) ↦ absurd (cc (rw (e, validate_records) at h))
  | inl e ↦ (validate_record-rates r e, validate_records-All (r.id ∷ seen) rs (ground arith))
]

All-Has :
    (P : PriceRecord → Type 0) (x : PriceRecord) (rs : List PriceRecord)
    → All P rs
    → Has (λ r. r ≡ x) rs
    → P x
All-Has P x [] h k = absurd k
All-Has P x (r ∷ rs) (p, h) (inl e) = subst P e p
All-Has P x (r ∷ rs) (p, h) (inr k) = All-Has P x rs h k

abbrev pub model_of : Event → String
unfolding get_field text_or_empty
model_of event = text_or_empty (get_field event.attributes "model")

selected_rates :
    (catalog : PriceCatalog) (provider model : String) (at : ℕ) (price : PriceRecord)
    → validate_catalog catalog ≡ none
    → select_price catalog.records provider model at ≡ some price
    → any bad_rate_in price.rates ≡ false
unfolding validate_catalog
selected_rates catalog provider model at price valid s =
    let chosen =
      subst (λ o. Chosen provider model at o catalog.records) s
        (select_price_lem provider model at catalog.records) in
    All-Has (λ r. any bad_rate_in r.rates ≡ false) price catalog.records
      (validate_records-All [] catalog.records (ground arith)) chosen.0

with_tokens_lem :
    (catalog : PriceCatalog) (event : Event) (price : PriceRecord) (ts : List Tokens)
    → any bad_rate_in price.rates ≡ false
    → ts ≢ []
    → model_of event ≢ ""
    → select_price catalog.records event.provider (model_of event) event.occurred_at ≡ some price
    → total_of price.rates ts < 2 ^ 63
    → ((with_tokens catalog event ts).amount_microusd ≡ some (pos (total_of price.rates ts)))
      × ((with_tokens catalog event ts).price_record_id ≡ some price.id)
      × ((with_tokens catalog event ts).status
          ≡ (if any (has_no_rate price.rates) ts then "partial" else "calculated"))
unfolding with_tokens with_price priced
with_tokens_lem catalog event price [] valid some_tokens named s fits = absurd (some_tokens refl)
with_tokens_lem catalog event price (t ∷ ts) valid some_tokens named s fits =
    let total = price_tokens-total price.rates 0 false (t ∷ ts) valid (omega arith) in
    let plain : 0 + total_of price.rates (t ∷ ts) ≡ total_of price.rates (t ∷ ts) = omega arith in
    let there : (model_of event == "") ≡ false = ground (arith, eq_iff (model_of event) "") in
    rw (there, s, total) (ap (λ n. some (pos n)) plain, refl, refl)

module _ (scan_int : String → Option ℤ) where
  -- With a valid catalog: a request-level event with observed tokens, a model and a selected price
  -- costs the sum over its categories of the tokens at their rate, each rounded to a micro-dollar,
  -- as long as the sum fits an int64. The record names the price, and its status is "partial" where
  -- a category has no rate and "calculated" otherwise.
  pub calculate_lem :
      (catalog : PriceCatalog) (event : Event) (price : PriceRecord)
      → validate_catalog catalog ≡ none
      → is_metric event.event_type ≡ false
      → observed_tokens_of scan_int event.attributes ≢ []
      → model_of event ≢ ""
      → select_price catalog.records event.provider (model_of event) event.occurred_at ≡ some price
      → total_of price.rates (observed_tokens_of scan_int event.attributes) < 2 ^ 63
      → ((calculate scan_int catalog event).amount_microusd
          ≡ some (pos (total_of price.rates (observed_tokens_of scan_int event.attributes))))
        × ((calculate scan_int catalog event).price_record_id ≡ some price.id)
        × ((calculate scan_int catalog event).status ≡ (
            if any (has_no_rate price.rates) (observed_tokens_of scan_int event.attributes)
            then "partial"
            else "calculated"))
  unfolding calculate
  calculate_lem catalog event price valid kind some_tokens named s fits = rw kind (
      with_tokens_lem catalog event price (observed_tokens_of scan_int event.attributes)
        (selected_rates catalog event.provider (model_of event) event.occurred_at price valid s)
        some_tokens named s fits)
