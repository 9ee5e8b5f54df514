-- ===== src/Config/Laws.antt =====
-- When a configuration passes validation, without the order of the checks.
use Prim.Native.String.{len}
use ai_engineering_productiv.Prelude.{
  ℕ, ◌+◌, ◌≤◌, String, ◌≡◌, ◌≢◌, refl, ◌↔◌, ◌⊎◌, Bool, true, false, none, List, [], ◌∷◌, arith,
  eq_iff, length, All, contains,
}
use ai_engineering_productiv.Prelude.Int.{ℤ, pos, negsuc}
use ai_engineering_productiv.Prelude.Float.{float, float_lt, not_a_number}
use ai_engineering_productiv.Config.{
  Config, Collection, Storage, Sharing, ContextWaste, Governance, PathRules, PathRulePattern,
  PromptKeyword,
}
use ai_engineering_productiv.Config.Validate.{
  RuleList, allowed_list, blocked_list, is_blank, is_empty, below_one, rune_count,
  validate_version_and_mode, validate_collection, validate_storage, validate_sharing,
  validate_insights, validate_mcp_allowlist, validate_skill_names, has_unsupported_glob_character,
  validate_path_rule_pattern, validate_path_rule_list, validate_path_rules, is_prompt_keyword_id,
  validate_prompt_keyword, validate_keyword_list, validate_prompt_keywords, validate_governance,
  is_abs, validate_pricing, validate,
}

-- A text with something but white space in it.
abbrev pub HasText : String → Type 0
HasText s = is_blank s ≡ false

abbrev pub IsLocal : Config → Type 0
IsLocal c =
    (c.schema_version ≡ "0.1.0")
    × (c.mode ≡ "local-only")
    × ((c.collection.level ≡ "aggregate") ⊎ (c.collection.level ≡ "operational"))
    × (c.collection.prompts ≡ false)
    × (c.collection.responses ≡ false)
    × (c.collection.source_code ≡ false)
    × (c.storage.destination ≡ "local")
    × (c.sharing.diagnostics ≡ false)
    × (c.sharing.anonymous_analytics ≡ false)
    × (c.sharing.research_sessions ≡ "explicit-only")

version_iff :
    (c : Config)
    → (validate_version_and_mode c ≡ none)
      ↔ ((c.schema_version ≡ "0.1.0") × (c.mode ≡ "local-only"))
unfolding validate_version_and_mode
version_iff c = ground (arith, eq_iff c.schema_version "0.1.0", eq_iff c.mode "local-only")

collection_iff :
    (c : Collection)
    → (validate_collection c ≡ none) ↔ (
        ((c.level ≡ "aggregate") ⊎ (c.level ≡ "operational"))
        × (c.prompts ≡ false)
        × (c.responses ≡ false)
        × (c.source_code ≡ false))
unfolding validate_collection
collection_iff c = ground (arith, eq_iff c.level "aggregate", eq_iff c.level "operational")

abbrev pub IsPositive : ℤ → Type 0
IsPositive (pos n) = 1 ≤ n
IsPositive (negsuc n) = ⊥

below_one_iff : (z : ℤ) → (below_one z ≡ false) ↔ IsPositive z
below_one_iff (pos n) = ground arith
below_one_iff (negsuc n) = ((λ h. cc), λ h. absurd h)

storage_iff :
    (s : Storage)
    → (validate_storage s ≡ none) ↔ ((s.destination ≡ "local") × IsPositive s.retention_days)
unfolding validate_storage
storage_iff s = ground (arith, eq_iff s.destination "local", below_one_iff s.retention_days)

sharing_iff :
    (s : Sharing)
    → (validate_sharing s ≡ none) ↔ (
        (s.diagnostics ≡ false)
        × (s.anonymous_analytics ≡ false)
        × (s.research_sessions ≡ "explicit-only"))
unfolding validate_sharing
sharing_iff s = ground (arith, eq_iff s.research_sessions "explicit-only")

-- No threshold compares as out of its range: the ratio of [0, 1], the growth of [1, ∞).
abbrev pub NotOutside : ContextWaste → Type 0
NotOutside w =
    (float_lt w.cached_context_ratio_threshold (float 0) ≡ false)
    × (float_lt (float 1) w.cached_context_ratio_threshold ≡ false)
    × (float_lt w.input_token_growth_threshold (float 1) ≡ false)

insights_iff : (w : ContextWaste) → (validate_insights w ≡ none) ↔ NotOutside w
unfolding validate_insights
insights_iff w = ground arith

abbrev pub ValidPattern : PathRulePattern → Type 0
ValidPattern p =
    ((p.kind ≡ "exact") ⊎ ((p.kind ≡ "glob") × (has_unsupported_glob_character p.value ≡ false)))
    × HasText p.value
    × (rune_count p.value ≤ 1024)

pattern_iff : (p : PathRulePattern) → (validate_path_rule_pattern p ≡ none) ↔ ValidPattern p
unfolding validate_path_rule_pattern
pattern_iff p = ground (arith, eq_iff p.kind "exact", eq_iff p.kind "glob", eq_iff "exact" "glob")

mcp_iff : (i : ℕ) (l : List String) → (validate_mcp_allowlist i l ≡ none) ↔ All HasText l
unfolding validate_mcp_allowlist
mcp_iff i [] = (λ h. tt, λ h. refl)
mcp_iff i (x ∷ l) = ground (arith, mcp_iff (i + 1) l)

skills_iff :
    (i : ℕ) (l : List String)
    → (validate_skill_names i l ≡ none) ↔ All (λ s. HasText s × (rune_count s ≤ 1024)) l
unfolding validate_skill_names
skills_iff i [] = (λ h. tt, λ h. refl)
skills_iff i (x ∷ l) = ground (arith, skills_iff (i + 1) l)

patterns_iff :
    (list : RuleList) (i : ℕ) (l : List PathRulePattern)
    → (validate_path_rule_list list i l ≡ none) ↔ All ValidPattern l
unfolding validate_path_rule_list
patterns_iff list i [] = (λ h. tt, λ h. refl)
patterns_iff list i (p ∷ l) = ground (arith, patterns_iff list (i + 1) l, pattern_iff p)

abbrev pub ValidPathRules : PathRules → Type 0
ValidPathRules r =
    ((r.mode ≡ "") × (r.allowed ≡ []) × (r.blocked ≡ []))
    ⊎ (((r.mode ≡ "monitor") ⊎ ((r.mode ≡ "approved_only") ⊎ (r.mode ≡ "flag_all")))
        × (length r.allowed ≤ 100)
        × (length r.blocked ≤ 100)
        × All ValidPattern r.allowed
        × All ValidPattern r.blocked)

is_empty_iff {ℓ} : {A : Type ℓ} (l : List A) → (is_empty l ≡ true) ↔ (l ≡ [])
is_empty_iff [] = ((λ h. refl), λ h. refl)
is_empty_iff (x ∷ l) = ((λ h. cc), λ h. cc)

path_rules_iff : (r : PathRules) → (validate_path_rules r ≡ none) ↔ ValidPathRules r
unfolding validate_path_rules
path_rules_iff r = ground (
  arith,
  eq_iff r.mode "",
  eq_iff r.mode "monitor",
  eq_iff r.mode "approved_only",
  eq_iff r.mode "flag_all",
  eq_iff "" "monitor",
  eq_iff "" "approved_only",
  eq_iff "" "flag_all",
  is_empty_iff r.allowed,
  is_empty_iff r.blocked,
  patterns_iff allowed_list 0 r.allowed,
  patterns_iff blocked_list 0 r.blocked,
)

module _ (compiles : String → Bool) where
  abbrev pub ValidKeyword : PromptKeyword → Type 0
  ValidKeyword r =
      (is_prompt_keyword_id r.id ≡ true)
      × HasText r.label
      × (len r.label ≤ 120)
      × ((r.group ≡ "credentials") ⊎ ((r.group ≡ "customer_data") ⊎ (r.group ≡ "custom")))
      × ((r.kind ≡ "literal") ⊎ ((r.kind ≡ "regex") × (compiles r.value ≡ true)))
      × HasText r.value
      × (rune_count r.value ≤ 1024)

  keyword_iff : (r : PromptKeyword) → (validate_prompt_keyword compiles r ≡ none) ↔ ValidKeyword r
  unfolding validate_prompt_keyword
  keyword_iff r = ground (
    arith,
    eq_iff r.group "credentials",
    eq_iff r.group "customer_data",
    eq_iff r.group "custom",
    eq_iff r.kind "literal",
    eq_iff r.kind "regex",
    eq_iff "literal" "regex",
  )

-- No two rules have one id.
abbrev pub DistinctIds : List PromptKeyword → Type 0
DistinctIds [] = Unit
DistinctIds (r ∷ rs) = All (λ q. r.id ≢ q.id) rs × DistinctIds rs

abbrev Fresh : List String → List PromptKeyword → Type 0
Fresh seen = All (λ q. contains seen q.id ≡ false)

Fresh-cons :
    (id : String) (seen : List String) (rs : List PromptKeyword)
    → Fresh (id ∷ seen) rs ↔ (All (λ q. id ≢ q.id) rs × Fresh seen rs)
unfolding contains
Fresh-cons id seen [] = ((λ h. (tt, tt)), λ h. tt)
Fresh-cons id seen (q ∷ rs) = ground (arith, eq_iff id q.id, Fresh-cons id seen rs)

Fresh-nil : (rs : List PromptKeyword) → Fresh [] rs
unfolding contains
Fresh-nil [] = tt
Fresh-nil (q ∷ rs) = (refl, Fresh-nil rs)

module _ (compiles : String → Bool) where
  keywords_iff :
      (i : ℕ) (seen : List String) (rs : List PromptKeyword)
      → (validate_keyword_list compiles i seen rs ≡ none)
        ↔ (All (ValidKeyword compiles) rs × Fresh seen rs × DistinctIds rs)
  unfolding validate_keyword_list
  keywords_iff i seen [] = ((λ h. (tt, tt, tt)), λ h. refl)
  keywords_iff i seen (r ∷ rs) = ground (
    arith,
    keyword_iff compiles r,
    keywords_iff (i + 1) (r.id ∷ seen) rs,
    Fresh-cons r.id seen rs,
  )

  -- What the checks demand: local only, positive retention, every list within its bounds, and no
  -- threshold that compares as out of its range.
  abbrev pub IsValid : Config → Type 0
  IsValid c =
      IsLocal c
      × IsPositive c.storage.retention_days
      × NotOutside c.context_waste
      × All HasText c.governance.mcp_allowlist
      × (length c.governance.skills_allowlist ≤ 100)
      × All (λ s. HasText s × (rune_count s ≤ 1024)) c.governance.skills_allowlist
      × ValidPathRules c.governance.path_rules
      × (length c.governance.prompt_keywords ≤ 100)
      × All (ValidKeyword compiles) c.governance.prompt_keywords
      × DistinctIds c.governance.prompt_keywords
      × ((c.override_path ≡ "") ⊎ (is_abs c.override_path ≡ true))

  governance_iff :
      (g : Governance)
      → (validate_governance compiles g ≡ none) ↔ (
          All HasText g.mcp_allowlist
          × (length g.skills_allowlist ≤ 100)
          × All (λ s. HasText s × (rune_count s ≤ 1024)) g.skills_allowlist
          × ValidPathRules g.path_rules
          × (length g.prompt_keywords ≤ 100)
          × All (ValidKeyword compiles) g.prompt_keywords
          × DistinctIds g.prompt_keywords)
  unfolding validate_governance validate_prompt_keywords
  governance_iff g = ground (
    arith,
    mcp_iff 0 g.mcp_allowlist,
    skills_iff 0 g.skills_allowlist,
    path_rules_iff g.path_rules,
    keywords_iff 0 [] g.prompt_keywords,
    Fresh-nil g.prompt_keywords,
  )

  -- Validation accepts a configuration exactly where none of its checks refuses it; these checks are
  -- the code's, so a threshold that is not a number passes them.
  validate_iff : (c : Config) → (validate compiles c ≡ none) ↔ IsValid c
  unfolding validate validate_pricing
  validate_iff c = ground (
    arith,
    version_iff c,
    collection_iff c.collection,
    storage_iff c.storage,
    sharing_iff c.sharing,
    insights_iff c.context_waste,
    governance_iff c.governance,
    eq_iff c.override_path "",
  )

  -- A threshold that is not a number passes: a valid configuration stays valid with both
  -- context-waste thresholds replaced by NaN.
  pub validate_nan :
      (c : Config)
      → validate compiles c ≡ none
      → validate compiles (record c {
        context_waste = record {
          cached_context_ratio_threshold = not_a_number;
          input_token_growth_threshold = not_a_number;
        };
      })
        ≡ none
  unfolding float_lt
  validate_nan c h = (validate_iff _).1 (
      let v = (validate_iff c).0 h in
      (v.0, v.1, (refl, refl, refl), v.3, v.4, v.5, v.6, v.7, v.8, v.9, v.10))
