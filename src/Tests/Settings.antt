-- ===== src/Tests/Settings.antt =====
-- The theorems of Config at examples.
use ai_engineering_productiv.Prelude.{
  String, ◌≡◌, ◌≢◌, ◌↔◌, ◌⊎◌, refl, true, false, Option, none, some, List, [], ◌∷◌, Has, Apart,
  Ascending, codes, trim_space,
}
use ai_engineering_productiv.Prelude.Float.{not_a_number, float_lt}
use ai_engineering_productiv.Config.{Config, default_config}
use ai_engineering_productiv.Config.Validate.{
  validate, validate_version_and_mode, validate_collection, validate_storage, validate_sharing,
  validate_insights, validate_governance, validate_mcp_allowlist, validate_skill_names,
  validate_path_rules, validate_prompt_keywords, validate_keyword_list, validate_pricing,
}
use ai_engineering_productiv.Config.Laws.{validate_nan}
use ai_engineering_productiv.Config.Allowlist.{key_of, codes_lt, normalized_allowlist}
use ai_engineering_productiv.Config.Allowlist.Laws.{normalized_allowlist_lem}
use ai_engineering_productiv.Config.Manager.{
  Faults, Managed, Save, mcp_allowlist, skills_allowlist, new_manager, next_config, save, run,
}
use ai_engineering_productiv.Config.Manager.Laws.{
  Unchanged, Replaced, IsSound, save_atomic, run-IsSound_created,
}
use ai_engineering_productiv.Tests.{same_rune, always_compiles}

default_valid : validate always_compiles default_config ≡ none
unfolding default_config validate validate_version_and_mode validate_collection validate_storage
    validate_sharing validate_insights float_lt validate_governance validate_mcp_allowlist
    validate_skill_names validate_path_rules validate_prompt_keywords validate_keyword_list
    validate_pricing
default_valid = refl

validate_nan_example :
    validate always_compiles (record default_config {
      context_waste = record {
        cached_context_ratio_threshold = not_a_number;
        input_token_growth_threshold = not_a_number;
      };
    })
    ≡ none
validate_nan_example = validate_nan always_compiles default_config default_valid

abbrev names : List String
names = " GitHub" ∷ "github" ∷ "files" ∷ []

normalized_allowlist_lem_example :
    Apart (λ a b. key_of same_rune a ≢ key_of same_rune b) (normalized_allowlist same_rune names)
    × (Has (λ b. key_of same_rune b ≡ codes "files") (normalized_allowlist same_rune names)
        ↔ Has (λ n. key_of same_rune (trim_space n) ≡ codes "files") names)
    × Ascending
        (λ a b. codes_lt (key_of same_rune a) (key_of same_rune b))
        (normalized_allowlist same_rune names)
normalized_allowlist_lem_example = normalized_allowlist_lem same_rune names (codes "files")

abbrev encoded : Config → Option String
encoded c = some "schema_version: 0.1.0"

abbrev started : Managed
started = record { cfg = default_config; disk = record { target = some "old"; temporary = none } }

starts : new_manager always_compiles "config.yaml" default_config started.disk ≡ some started
unfolding new_manager trim_space
starts = rw default_valid refl

abbrev no_faults : Faults
no_faults = record {
  mkdir_fails = false;
  create_fails = false;
  chmod_fails = false;
  write_fails = false;
  partial_contents = "";
  sync_fails = false;
  close_fails = false;
  rename_fails = false;
  remove_fails = false;
}

save_atomic_example :
    Unchanged always_compiles same_rune encoded started
      (save always_compiles same_rune encoded started (mcp_allowlist names) no_faults)
    ⊎ Replaced always_compiles same_rune encoded
        (next_config same_rune started.cfg (mcp_allowlist names))
        (save always_compiles same_rune encoded started (mcp_allowlist names) no_faults)
save_atomic_example =
    save_atomic always_compiles same_rune encoded started (mcp_allowlist names) no_faults

abbrev calls : List (Save × Faults)
calls =
    (mcp_allowlist names, record no_faults { sync_fails = true })
    ∷ (skills_allowlist names, no_faults)
    ∷ []

run-IsSound_created_example :
    IsSound always_compiles same_rune encoded started
      (run always_compiles same_rune encoded started calls)
run-IsSound_created_example =
    run-IsSound_created always_compiles same_rune encoded "config.yaml" default_config started.disk
      started calls starts
