-- ===== src/Governance/PathRules/Laws.antt =====
-- What the path policy flags, and what its report says.
use mathlib.Core.List.{append_assoc, append-nil, map-append, Perm}
use mathlib.Core.List.Perm
use mathlib.Core.Bool.{false≢true}
use ai_engineering_productiv.Prelude.{
  String, ◌≡◌, ◌≢◌, refl, sym, ap, ◌∙◌, ◌↔◌, ◌⊎◌, inl, inr, Bool, true, false, ◌||◌, List, [], ◌∷◌,
  ◌++◌, map, arith, ◌==◌, eq_iff, if◌then◌else◌, Bool-cases, All, Has, keep, keep-append,
  keep-cases, not_Has_of_All, any, any-append, sort_by-perm, codes,
}
use ai_engineering_productiv.Canonical.{Event}
use ai_engineering_productiv.Config.{PathRulePattern, PathRules}
use ai_engineering_productiv.Governance.{violation, not_violation, indeterminate}
use ai_engineering_productiv.Governance.Access.{
  AccessMethod, filesystem_read, shell_command, AccessObservation, collect_accesses, all_accesses,
}
use ai_engineering_productiv.Governance.Glob.Meaning.{tokens, Describes}
use ai_engineering_productiv.Governance.Glob.Correct.{path_glob_match_iff}
use ai_engineering_productiv.Governance.PathRules.{
  PathFinding, PathReport, pattern_matches, matches_path_patterns, path_rule_decision, path_finding,
  scan_observations, scan_events, sort_findings, conclude, path_rules_from_events,
}

-- A pattern covers a path: an exact one is the path, a glob describes it.
abbrev pub Covers : String → PathRulePattern → Type 0
Covers path p =
    ((p.kind ≡ "exact") × (path ≡ p.value))
    ⊎ ((p.kind ≡ "glob") × Describes (tokens (codes p.value)) (codes path))

pattern_matches_iff :
    (path : String) (p : PathRulePattern) → (pattern_matches path p ≡ true) ↔ Covers path p
unfolding pattern_matches
pattern_matches_iff path p = ground (
  arith,
  eq_iff p.kind "exact",
  eq_iff p.kind "glob",
  eq_iff path p.value,
  path_glob_match_iff p.value path,
)

matches_path_patterns_iff :
    (path : String) (ps : List PathRulePattern)
    → (matches_path_patterns path ps ≡ true) ↔ Has (Covers path) ps
unfolding matches_path_patterns
matches_path_patterns_iff path [] = (λ h. cc, λ h. absurd h)
matches_path_patterns_iff path (p ∷ ps) = elim (Bool-cases (pattern_matches path p)) [
  | inl e ↦ rw e (λ h. inl ((pattern_matches_iff path p).0 e), λ h. refl)
  | inr e ↦ rw e (
    λ h. inr ((matches_path_patterns_iff path ps).0 h),
    λ h. elim h [
      | inl c ↦ absurd (cc ((pattern_matches_iff path p).1 c))
      | inr rest ↦ (matches_path_patterns_iff path ps).1 rest
    ],
  )
]

abbrev pub IsFlagged : PathRules → String → Type 0
IsFlagged rules path =
    Has (Covers path) rules.blocked
    ⊎ (((rules.mode ≡ "approved_only") × ¬ (Has (Covers path) rules.allowed))
        ⊎ (rules.mode ≡ "flag_all"))

-- A path is flagged exactly when a blocked pattern covers it, or the mode approves only allowed
-- paths and none covers it, or the mode flags all; and blocked is the reason given first.
pub path_rule_decision_iff :
    (path : String) (rules : PathRules)
    → (((path_rule_decision path rules).1 ≡ true) ↔ IsFlagged rules path)
      × (((path_rule_decision path rules).0 ≡ "blocked_match") ↔ Has (Covers path) rules.blocked)
unfolding path_rule_decision
path_rule_decision_iff path rules = ground (
  arith,
  matches_path_patterns_iff path rules.blocked,
  matches_path_patterns_iff path rules.allowed,
  eq_iff rules.mode "approved_only",
  eq_iff rules.mode "flag_all",
  eq_iff "approved_only" "flag_all",
  eq_iff "not_allowed" "blocked_match",
  eq_iff "flag_all" "blocked_match",
  eq_iff "" "blocked_match",
)

-- The flagged reads among the observed accesses.
abbrev pub is_flagged_read : PathRules → AccessObservation → Bool
is_flagged_read rules o = elim o.method [
  | filesystem_read ↦ (path_rule_decision o.value rules).1
  | shell_command ↦ false
]

abbrev pub is_read : AccessObservation → Bool
is_read o = elim o.method [ filesystem_read ↦ true | shell_command ↦ false ]

or_swap : (a b c : Bool) → (a || (b || c)) ≡ ((b || a) || c)
or_swap a b c = ground arith

or_false : (b : Bool) → (b || false) ≡ b
or_false b = ground arith

mode_set : (rules : PathRules) → rules.mode ≢ "" → (rules.mode == "") ≡ false
mode_set rules h = ground (arith, eq_iff rules.mode "")

or_true : (b : Bool) → (b || true) ≡ true
or_true b = ground arith

-- One round of the loop, where `k` is the rest of it.
scan_step :
    (m : AccessMethod) (flagged : Bool) (f : PathFinding)
    (k : List PathFinding → Bool → List PathFinding × Bool) (later : List PathFinding) (seen : Bool)
    → ((fs : List PathFinding) (saw : Bool) → k fs saw ≡ (fs ++ later, seen || saw))
    → (fs : List PathFinding) (saw : Bool)
    → elim m as (λ _. List PathFinding × Bool) [
      | filesystem_read ↦ k (if flagged then fs ++ f ∷ [] else fs) true
      | shell_command ↦ k fs saw
    ]
      ≡ (
        fs
            ++ ((if elim m as (λ _. Bool) [ filesystem_read ↦ flagged | shell_command ↦ false ]
                  then f ∷ []
                  else [])
                ++ later),
        elim m as (λ _. Bool) [ filesystem_read ↦ true | shell_command ↦ false ] || seen || saw,
      )
scan_step filesystem_read true f k later seen ih fs saw =
    ih (fs ++ f ∷ []) true ∙ rw (append_assoc, or_true)
scan_step filesystem_read false f k later seen ih fs saw = ih fs true ∙ rw or_true
scan_step shell_command flagged f k later seen ih fs saw = ih fs saw

module _ (rules : PathRules) where
  abbrev access_findings : Event → AccessObservation → List PathFinding
  access_findings event o =
      if is_flagged_read rules o
      then path_finding rules event o.value (path_rule_decision o.value rules).0 ∷ []
      else []

  abbrev findings_of : Event → List AccessObservation → List PathFinding
  findings_of event [] = []
  findings_of event (o ∷ rest) = access_findings event o ++ findings_of event rest

  abbrev all_findings : List Event → List PathFinding
  all_findings [] = []
  all_findings (e ∷ es) = findings_of e (collect_accesses e) ++ all_findings es

  scan_observations_lem :
      (event : Event) (l : List AccessObservation) (fs : List PathFinding) (saw : Bool)
      → scan_observations rules event l fs saw ≡ (fs ++ findings_of event l, any is_read l || saw)
  unfolding scan_observations
  scan_observations_lem event [] fs saw = rw append-nil
  scan_observations_lem event (o ∷ rest) fs saw =
      scan_step o.method (path_rule_decision o.value rules).1
        (path_finding rules event o.value (path_rule_decision o.value rules).0)
        (scan_observations rules event rest) (findings_of event rest) (any is_read rest)
        (scan_observations_lem event rest) fs saw

  scan_events_lem :
      (es : List Event) (fs : List PathFinding) (saw : Bool)
      → scan_events rules es fs saw ≡ (fs ++ all_findings es, any is_read (all_accesses es) || saw)
  unfolding scan_events all_accesses
  scan_events_lem [] fs saw = rw append-nil
  scan_events_lem (e ∷ es) fs saw = rw scan_observations_lem (
      scan_events_lem es (fs ++ findings_of e (collect_accesses e))
        (any is_read (collect_accesses e) || saw)
      ∙ rw (append_assoc fs, any-append is_read (collect_accesses e) (all_accesses es))
          (rw (or_swap (any is_read (all_accesses es)) (any is_read (collect_accesses e)) saw)))

  -- The findings and the flagged reads, by their paths.
  path_of_finding :
      (event : Event) (o : AccessObservation)
      → map (λ f. f.path) (access_findings event o)
        ≡ map (λ a. a.value) (keep (is_flagged_read rules) (o ∷ []))
  unfolding path_finding
  path_of_finding event o = ground arith

  event_paths :
      (event : Event) (l : List AccessObservation)
      → map (λ f. f.path) (findings_of event l)
        ≡ map (λ a. a.value) (keep (is_flagged_read rules) l)
  event_paths event [] = refl
  event_paths event (o ∷ l) =
      map-append _ (access_findings event o) (findings_of event l)
      ∙ rw (path_of_finding event o, event_paths event l)
          (sym (
            ap (map (λ a. a.value)) (keep-append (is_flagged_read rules) (o ∷ []) l)
            ∙ map-append _ _ _))

  all_paths :
      (es : List Event)
      → map (λ f. f.path) (all_findings es)
        ≡ map (λ a. a.value) (keep (is_flagged_read rules) (all_accesses es))
  unfolding all_accesses
  all_paths [] = refl
  all_paths (e ∷ es) =
      map-append _ (findings_of e (collect_accesses e)) (all_findings es)
      ∙ rw (event_paths e (collect_accesses e), all_paths es)
          (rw (keep-append (is_flagged_read rules) (collect_accesses e) (all_accesses es))
            (sym (map-append _ _ _)))

  read_of_flagged :
      (l : List AccessObservation)
      → Has (λ a. is_flagged_read rules a ≡ true) l
      → any is_read l ≡ true
  read_of_flagged [] h = elim h [ ]
  read_of_flagged (o ∷ l) (inl h) = ground arith
  read_of_flagged (o ∷ l) (inr h) = ground (arith, read_of_flagged l h)

  All-of_any : (l : List AccessObservation) → any is_read l ≡ false → All (λ a. is_read a ≡ false) l
  All-of_any [] h = tt
  All-of_any (o ∷ l) h = ground (arith, All-of_any l)

  any_of_All : (l : List AccessObservation) → All (λ a. is_read a ≡ false) l → any is_read l ≡ false
  any_of_All [] h = refl
  any_of_All (o ∷ l) (h, hs) = rw h (any_of_All l hs)

  path_map_nil : (l : List AccessObservation) → map (λ a. a.value) l ≡ [] → l ≡ []
  path_map_nil [] h = refl
  path_map_nil (a ∷ l) h = absurd (cc)

  abbrev pub Verdict : PathReport → List AccessObservation → Type 0
  Verdict r l =
      ((r.outcome ≡ violation) ↔ Has (λ a. is_flagged_read rules a ≡ true) l)
      × ((r.outcome ≡ not_violation)
          ↔ ((any is_read l ≡ true) × All (λ a. is_flagged_read rules a ≡ false) l))
      × ((r.outcome ≡ indeterminate) ↔ All (λ a. is_read a ≡ false) l)

  conclude-Verdict :
      (fs : List PathFinding) (l : List AccessObservation) (saw : Bool)
      → any is_read l ≡ saw
      → map (λ f. f.path) fs ≡ map (λ a. a.value) (keep (is_flagged_read rules) l)
      → Verdict (conclude fs saw) l
  unfolding conclude
  conclude-Verdict fs l false e h = (
    (λ x. cc, λ has. absurd (false≢true (sym e ∙ read_of_flagged l has))),
    (λ x. cc, λ (x, y). absurd (false≢true (sym e ∙ x))),
    (λ x. All-of_any l e, λ x. refl),
  )
  conclude-Verdict [] l true e h = elim (keep-cases (is_flagged_read rules) l) [
    | inl (none_kept, clean) ↦ (
      (λ x. cc, λ has. absurd (not_Has_of_All (is_flagged_read rules) l clean has)),
      (λ x. (e, clean), λ x. refl),
      (λ x. cc, λ no_read. absurd (false≢true (sym (any_of_All l no_read) ∙ e))),
    )
    | inr (ne, has) ↦ absurd (ne (path_map_nil (keep (is_flagged_read rules) l) (sym h)))
  ]
  conclude-Verdict (f ∷ fs) l true e h = elim (keep-cases (is_flagged_read rules) l) [
    | inl (none_kept, clean) ↦ absurd (cc (h ∙ ap (map (λ a. a.value)) none_kept))
    | inr (ne, has) ↦ (
      (λ x. has, λ x. refl),
      (λ x. cc, λ (x, clean). absurd (not_Has_of_All (is_flagged_read rules) l clean has)),
      (λ x. cc, λ no_read. absurd (false≢true (sym (any_of_All l no_read) ∙ e))),
    )
  ]

  report_lem :
      (es : List Event)
      → rules.mode ≢ ""
      → path_rules_from_events es rules ≡ conclude (all_findings es) (any is_read (all_accesses es))
  unfolding path_rules_from_events
  report_lem es h =
      rw (mode_set rules h, scan_events_lem) (rw (or_false (any is_read (all_accesses es))))

  -- With a mode configured, the report is a violation exactly when some observed filesystem read is
  -- flagged, clean exactly when there are reads and none is flagged, and indeterminate exactly when
  -- no filesystem read was observed.
  pub path_rules_outcome :
      (es : List Event)
      → rules.mode ≢ ""
      → Verdict (path_rules_from_events es rules) (all_accesses es)
  path_rules_outcome es h =
      rw (report_lem es h)
        (conclude-Verdict (all_findings es) (all_accesses es) _ refl (all_paths es))

  conclude-perm : (fs : List PathFinding) (saw : Bool) → Perm (conclude fs saw).findings fs
  unfolding conclude sort_findings
  conclude-perm fs false = Perm.refl fs
  conclude-perm [] true = sort_by-perm _ []
  conclude-perm (f ∷ fs) true = sort_by-perm _ (f ∷ fs)

  -- With a mode configured, the paths of the findings are those of the flagged filesystem reads, as
  -- often as they were observed; only the order is another.
  pub path_rules_findings :
      (es : List Event)
      → rules.mode ≢ ""
      → Perm
          (map (λ f. f.path) (path_rules_from_events es rules).findings)
          (map (λ a. a.value) (keep (is_flagged_read rules) (all_accesses es)))
  path_rules_findings es h =
      rw (report_lem es h, ← all_paths es) (Perm.map _ (conclude-perm (all_findings es) _))
