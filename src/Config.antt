-- ===== src/Config.antt =====
-- internal/config/config.go: the local configuration, and its validation.
pub mod Validate
pub mod Allowlist
pub mod Manager
pub mod Laws
use ai_engineering_productiv.Prelude.{ℕ, String, Bool, true, false, List, []}
use ai_engineering_productiv.Prelude.Int.{ℤ, pos}
use ai_engineering_productiv.Prelude.Float.{Float64, fraction, float}

pub record PathRulePattern : Type 0 where
  pub kind : String
  pub value : String

pub record PathRules : Type 0 where
  pub mode : String
  pub allowed : List PathRulePattern
  pub blocked : List PathRulePattern

pub record PromptKeyword : Type 0 where
  pub id : String
  pub label : String
  pub group : String
  pub enabled : Bool
  pub kind : String
  pub value : String

pub record Collection : Type 0 where
  pub level : String
  pub prompts : Bool
  pub responses : Bool
  pub source_code : Bool
  pub tool_calls : Bool
  pub model_usage : Bool

pub record Storage : Type 0 where
  pub destination : String
  pub retention_days : ℤ

pub record Sharing : Type 0 where
  pub diagnostics : Bool
  pub anonymous_analytics : Bool
  pub research_sessions : String

pub record ContextWaste : Type 0 where
  pub cached_context_ratio_threshold : Float64
  pub input_token_growth_threshold : Float64

pub record Governance : Type 0 where
  pub mcp_allowlist : List String
  pub skills_allowlist : List String
  pub path_rules : PathRules
  pub prompt_keywords : List PromptKeyword

pub record Config : Type 0 where
  pub schema_version : String
  pub mode : String
  pub collection : Collection
  pub storage : Storage
  pub sharing : Sharing
  -- Pricing.OverridePath
  pub override_path : String
  -- Insights.ContextWaste
  pub context_waste : ContextWaste
  pub governance : Governance
  pub host : String
  pub port : String

-- Default
unfoldable pub default_config : Config
default_config = record {
  schema_version = "0.1.0";
  mode = "local-only";
  collection = record {
    level = "operational";
    prompts = false;
    responses = false;
    source_code = false;
    tool_calls = true;
    model_usage = true;
  };
  storage = record { destination = "local"; retention_days = pos 30 };
  sharing = record {
    diagnostics = false;
    anonymous_analytics = false;
    research_sessions = "explicit-only";
  };
  override_path = "";
  context_waste = record {
    cached_context_ratio_threshold = fraction (pos 3) 3;
    input_token_growth_threshold = float 2;
  };
  governance = record {
    mcp_allowlist = [];
    skills_allowlist = [];
    path_rules = record { mode = ""; allowed = []; blocked = [] };
    prompt_keywords = [];
  };
  host = "localhost";
  port = "8080";
}
