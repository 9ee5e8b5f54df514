-- ===== src/Governance.antt =====
-- internal/governance: the detect-and-report policies, and the vocabulary that they share.
pub mod Glob
pub mod Access
pub mod RiskyAccess
pub mod PathRules
pub mod Skills
pub mod Prompts
use ai_engineering_productiv.Prelude.{String, List}

pub data Outcome : Type 0 where
  violation not_violation indeterminate : Outcome

pub data Visibility : Type 0 where
  unavailable observed partial policy_unconfigured : Visibility

pub record PolicyEvidence : Type 0 where
  pub kind : String
  pub reference : String

pub record PolicyDecision : Type 0 where
  pub schema_version : String
  pub policy_id : String
  pub policy_version : String
  pub outcome : Outcome
  pub evidence : List PolicyEvidence

abbrev pub policy_schema_version : String
policy_schema_version = "0.1.0"
