-- ===== src/Cost.antt =====
-- internal/cost/cost.go: estimates from token usage and a price catalog. Amounts are int64 counts
-- of micro-dollars.
pub mod Catalog
pub mod Select
pub mod Calculate
pub mod Summary
use ai_engineering_productiv.Prelude.{ℕ, String, Option, List}
use ai_engineering_productiv.Prelude.Int.{ℤ}

-- An entry of the map of rates: the category as written, and micro-dollars for a million tokens.
pub record Rate : Type 0 where
  pub category : String
  pub microusd : ℤ

-- Instants count nanoseconds from Go's zero time.
pub record PriceRecord : Type 0 where
  pub id : String
  pub provider : String
  pub model_matcher : String
  pub effective_at : ℕ
  pub source : String
  pub rates : List Rate

pub record PriceCatalog : Type 0 where
  pub schema_version : String
  pub catalog_version : String
  pub currency : String
  pub records : List PriceRecord

-- An entry of a map from categories to token counts.
pub record Tokens : Type 0 where
  pub category : String
  pub count : ℕ

pub record CostRecord : Type 0 where
  pub event_id : String
  pub session_id : String
  pub calculated_at : ℕ
  pub calculation_version : String
  pub catalog_version : String
  pub currency : String
  pub status : String
  pub amount_microusd : Option ℤ
  pub price_record_id : Option String
  pub observed_tokens : List Tokens
