-- ===== src/Config/Manager.antt =====
-- internal/config/manager.go: the manager of the configuration file. Each method holds the lock
-- from its first line to its last, so calls follow one another. cloneConfig and its like copy
-- slices, and values are copied here by nature.
pub mod Laws
use ai_engineering_productiv.Prelude.{
  ℕ, String, Bool, true, false, Option, none, some, List, [], ◌∷◌, if◌then◌else◌,
}
use ai_engineering_productiv.Config.{Config, Governance, PathRules, PromptKeyword}
use ai_engineering_productiv.Config.Validate.{ConfigError, is_blank, validate}
use ai_engineering_productiv.Config.Allowlist.{normalized_allowlist}

-- The configuration file and the temporary file beside it.
pub record Disk : Type 0 where
  pub target : Option String
  pub temporary : Option String

-- Which calls of atomicWrite fail; a failed write leaves some part of the contents.
pub record Faults : Type 0 where
  pub mkdir_fails : Bool
  pub create_fails : Bool
  pub chmod_fails : Bool
  pub write_fails : Bool
  pub partial_contents : String
  pub sync_fails : Bool
  pub close_fails : Bool
  pub rename_fails : Bool
  -- the deferred removal, whose error is ignored
  pub remove_fails : Bool

pub data SaveError : Type 0 where
  invalid : ConfigError → SaveError
  encode_failed : SaveError
  mkdir_failed create_failed chmod_failed write_failed sync_failed close_failed : SaveError
  rename_failed : SaveError

-- The deferred function, after a failure.
abbrev pub cleaned_up : Faults → Disk → Disk
cleaned_up f d = if f.remove_fails then d else record d { temporary = none }

-- atomicWrite from the temporary file on.
unfoldable pub fill_and_rename : Faults → String → Disk → Option SaveError × Disk
fill_and_rename f contents d =
    if f.chmod_fails
    then (some chmod_failed, cleaned_up f d)
    else if f.write_fails
    then (some write_failed, cleaned_up f (record d { temporary = some f.partial_contents }))
    else if f.sync_fails
    then (some sync_failed, cleaned_up f (record d { temporary = some contents }))
    else if f.close_fails
    then (some close_failed, cleaned_up f (record d { temporary = some contents }))
    else if f.rename_fails
    then (some rename_failed, cleaned_up f (record d { temporary = some contents }))
    else (none, record { target = some contents; temporary = none })

unfoldable pub atomic_write : Faults → String → Disk → Option SaveError × Disk
atomic_write f contents d =
    if f.mkdir_fails
    then (some mkdir_failed, d)
    else if f.create_fails
    then (some create_failed, d)
    else fill_and_rename f contents (record d { temporary = some "" })

-- The manager's live configuration beside the disk.
pub record Managed : Type 0 where
  pub cfg : Config
  pub disk : Disk

pub data Save : Type 0 where
  mcp_allowlist : List String → Save
  skills_allowlist : List String → Save
  path_rules : PathRules → Save
  prompt_keywords : List PromptKeyword → Save

abbrev pub publish : Managed → Config → Option SaveError × Disk → Option SaveError × Managed
publish m next (some e, disk) = (some e, record m { disk = disk })
publish m next (none, disk) = (none, record { cfg = next; disk = disk })

abbrev pub write_encoded : Managed → Config → Faults → Option String → Option SaveError × Managed
write_encoded m next f none = (some encode_failed, m)
write_encoded m next f (some contents) = publish m next (atomic_write f contents m.disk)

-- NewManager, where the first argument is the compiler of RE2 patterns.
unfoldable pub new_manager : (String → Bool) → String → Config → Disk → Option Managed
new_manager compiles path cfg disk = if is_blank path then none else elim (validate compiles cfg) [
  | some e ↦ none
  | none ↦ some (record { cfg = cfg; disk = disk })
]

-- The configuration that SaveMCPAllowlist, SaveSkillsAllowlist, SavePathRules and
-- SavePromptKeywords build, where the first argument is the lower case of a rune.
unfoldable pub next_config : (ℕ → ℕ) → Config → Save → Config
next_config lower c (mcp_allowlist names) = record c {
  governance = record c.governance { mcp_allowlist = normalized_allowlist lower names };
}
next_config lower c (skills_allowlist names) = record c {
  governance = record c.governance { skills_allowlist = names };
}
next_config lower c (path_rules rules) = record c {
  governance = record c.governance { path_rules = rules };
}
next_config lower c (prompt_keywords rules) = record c {
  governance = record c.governance { prompt_keywords = rules };
}

-- saveLocked, where `marshal` is yaml.Marshal.
unfoldable pub save_locked :
    (String → Bool)
    → (Config → Option String)
    → Managed
    → Config
    → Faults
    → Option SaveError × Managed
save_locked compiles marshal m next f = elim (validate compiles next) [
  | some e ↦ (some (invalid e), m)
  | none ↦ write_encoded m next f (marshal next)
]

-- The compiler of RE2 patterns, the lower case of a rune, and yaml.Marshal are arguments.
module _ (compiles : String → Bool) (lower : ℕ → ℕ) (marshal : Config → Option String) where
  -- The four Save methods.
  unfoldable pub save : Managed → Save → Faults → Option SaveError × Managed
  save m s f = save_locked compiles marshal m (next_config lower m.cfg s) f

  -- A history of calls, each with the faults that it meets.
  unfoldable pub run : Managed → List (Save × Faults) → Managed
  run m [] = m
  run m ((s, f) ∷ calls) = run (save m s f).1 calls
