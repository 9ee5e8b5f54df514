-- ===== src/Governance/Skills/Laws.antt =====
-- What the skills report says of the explicit skills of a session.
use mathlib.Core.Path.{subst}
use ai_engineering_productiv.Prelude.{
  String, ◌≡◌, ◌≢◌, refl, sym, ◌∙◌, ◌↔◌, ◌⊎◌, inl, inr, Bool, true, false, ◌||◌, some, List, [],
  ◌∷◌, map, arith, eq_iff, contains, text_lt, sort_by-Has, Bool-cases, Option-cases, Has, Has-map,
  Has-iff, Has-append, any, All, ◌==◌,
}
use ai_engineering_productiv.Governance.Skills.Keys.{NoNul, skill_key-parts}
use ai_engineering_productiv.Canonical.{Event}
use ai_engineering_productiv.Governance.{violation, not_violation}
use ai_engineering_productiv.Governance.Skills.{
  SkillFinding, Scan, explicit_skill_name, skill_key, finding_key, new_skill_finding, add_finding,
  skill_evidence, saw_explicit, saw_incomplete, scan_skills, sorted_skill_findings, sort_ids,
  no_scan, skill_outcome, apply_skill_outcome, unapproved_skills_from_events,
}

-- The parts of the key before the name hold no NUL.
abbrev pub IsPlain : Event → Type 0
IsPlain event = NoNul event.provider × NoNul event.tool

abbrev IsPlainFinding : SkillFinding → Type 0
IsPlainFinding f = NoNul f.provider × NoNul f.tool

module _ (allowlist : List String) where
  add_finding-IsPlain :
      (fs : List SkillFinding) (event : Event) (name : String)
      → IsPlain event
      → All IsPlainFinding fs
      → All IsPlainFinding (add_finding fs event name)
  unfolding add_finding new_skill_finding
  add_finding-IsPlain [] event name p h = (p, tt)
  add_finding-IsPlain (f ∷ fs) event name p (q, h) =
      elim (Bool-cases (finding_key f == skill_key event.provider event.tool name)) [
        | inl e ↦ rw e (q, h)
        | inr e ↦ rw e (q, add_finding-IsPlain fs event name p h)
      ]

  skill_evidence-IsPlain :
      (fs : List SkillFinding) (event : Event)
      → IsPlain event
      → All IsPlainFinding fs
      → All IsPlainFinding (skill_evidence allowlist fs event)
  unfolding skill_evidence
  skill_evidence-IsPlain fs event p h = elim (Option-cases (explicit_skill_name event)) [
    | inl n ↦
        let same : skill_evidence allowlist fs event ≡ fs = rw (n, skill_evidence) refl in
        subst (All IsPlainFinding) (sym same) h
    | inr (name, s) ↦ elim (Bool-cases (contains allowlist name)) [
      | inl c ↦
          let same : skill_evidence allowlist fs event ≡ fs = rw (s, skill_evidence) (rw c refl) in
          subst (All IsPlainFinding) (sym same) h
      | inr c ↦
          let added : skill_evidence allowlist fs event ≡ add_finding fs event name =
            rw (s, skill_evidence) (rw c refl) in
          subst (All IsPlainFinding) (sym added) (add_finding-IsPlain fs event name p h)
    ]
  ]

module _ (allowlist : List String) (provider tool name e : String) where
  -- The event has the id and names the skill explicitly, of this provider and tool; the allowlist
  -- does not have the name.
  abbrev pub Unapproved : Event → Type 0
  Unapproved event =
      (explicit_skill_name event ≡ some name)
      × (contains allowlist name ≡ false)
      × (event.provider ≡ provider)
      × (event.tool ≡ tool)
      × (event.event_id ≡ e)

  -- The finding is of the provider, tool and skill, and lists the event.
  abbrev pub Reports : SkillFinding → Type 0
  Reports f =
      (f.provider ≡ provider)
      × (f.tool ≡ tool)
      × (f.skill_name ≡ name)
      × Has (λ i. i ≡ e) f.source_event_ids

  abbrev Adds : Event → String → Type 0
  Adds event n =
      (event.provider ≡ provider) × (event.tool ≡ tool) × (n ≡ name) × (event.event_id ≡ e)

  add_finding-Has :
      (fs : List SkillFinding) (event : Event) (n : String)
      → IsPlain event
      → All IsPlainFinding fs
      → Has Reports (add_finding fs event n) ↔ (Has Reports fs ⊎ Adds event n)
  unfolding add_finding new_skill_finding
  add_finding-Has [] event n p h = ground arith
  add_finding-Has (f ∷ fs) event n p (q, h) =
      let i = add_finding-Has fs event n p h in
      elim (Bool-cases (finding_key f == skill_key event.provider event.tool n)) [
        | inl k ↦
            let (a, b, c) =
              skill_key-parts f.provider event.provider f.tool event.tool f.skill_name n q.0 p.0 q.1
                p.1 ((eq_iff (finding_key f) (skill_key event.provider event.tool n)).0 k) in
            rw k (
              ground
                (arith, a, b, c, Has-append (λ x. x ≡ e) f.source_event_ids (event.event_id ∷ [])))
        | inr k ↦ rw k (ground (arith, i))
      ]

  skill_evidence-Has :
      (fs : List SkillFinding) (event : Event)
      → IsPlain event
      → All IsPlainFinding fs
      → Has Reports (skill_evidence allowlist fs event) ↔ (Has Reports fs ⊎ Unapproved event)
  unfolding skill_evidence
  skill_evidence-Has fs event p h = elim (Option-cases (explicit_skill_name event)) [
    | inl n ↦ rw n (ground arith)
    | inr (n, s) ↦ rw s (ground (arith, add_finding-Has fs event n p h))
  ]

  scan_skills-Has :
      (events : List Event) (s : Scan)
      → All IsPlain events
      → All IsPlainFinding s.findings
      → Has Reports ((scan_skills allowlist s events).findings)
        ↔ (Has Reports s.findings ⊎ Has Unapproved events)
  unfolding scan_skills
  scan_skills-Has [] s p h = (λ h. inl h, λ h. elim h [ inl k ↦ k | inr k ↦ absurd k ])
  scan_skills-Has (event ∷ events) s (q, p) h =
      let i =
        scan_skills-Has events
          (record {
            findings = skill_evidence allowlist s.findings event;
            explicit = s.explicit || saw_explicit event;
            incomplete = s.incomplete || saw_incomplete event;
          })
          p (skill_evidence-IsPlain allowlist s.findings event q h) in
      let step = skill_evidence-Has s.findings event q h in
      (
        λ h. elim (i.0 h) [
          | inl k ↦ elim (step.0 k) [ inl a ↦ inl a | inr b ↦ inr (inl b) ]
          | inr k ↦ inr (inr k)
        ],
        λ h. elim h [
          | inl a ↦ i.1 (inl (step.1 (inl a)))
          | inr (inl b) ↦ i.1 (inl (step.1 (inr b)))
          | inr (inr k) ↦ i.1 (inr k)
        ],
      )

  sort_ids-Reports : (f : SkillFinding) → Reports (sort_ids f) ↔ Reports f
  sort_ids-Reports f = ground (arith, sort_by-Has text_lt (λ i. i ≡ e) f.source_event_ids)

  sorted_skill_findings-Has :
      (fs : List SkillFinding) → Has Reports (sorted_skill_findings fs) ↔ Has Reports fs
  unfolding sorted_skill_findings
  sorted_skill_findings-Has fs = ground (
    arith,
    sort_by-Has (λ a b. text_lt (finding_key a) (finding_key b)) Reports (map sort_ids fs),
    Has-map sort_ids Reports fs,
    Has-iff (λ f. Reports (sort_ids f)) Reports sort_ids-Reports fs,
  )

-- With an allowlist configured, and no NUL in the provider or the tool of an event: the report has a
-- finding of a provider, tool and skill that lists an event exactly when some event with this id
-- names this skill explicitly, of this provider and tool, and the allowlist does not have the name.
pub skills_evidence :
    (allowlist : List String) (events : List Event) (provider tool name e : String)
    → allowlist ≢ []
    → All IsPlain events
    → Has
        (Reports allowlist provider tool name e)
        ((unapproved_skills_from_events events allowlist).findings)
      ↔ Has (Unapproved allowlist provider tool name e) events
unfolding unapproved_skills_from_events apply_skill_outcome
skills_evidence [] events provider tool name e h p = absurd (h refl)
skills_evidence (x ∷ xs) events provider tool name e h p =
    let i = scan_skills-Has (x ∷ xs) provider tool name e events no_scan p tt in
    let sorted =
      sorted_skill_findings-Has (x ∷ xs) provider tool name e
        (scan_skills (x ∷ xs) no_scan events).findings in
    (λ k. elim (i.0 (sorted.0 k)) [ inl a ↦ absurd a | inr b ↦ b ], λ k. sorted.1 (i.1 (inr k)))

-- The event names an explicit skill outside the allowlist.
abbrev pub IsUnapproved : List String → Event → Type 0
IsUnapproved allowlist event =
    (name : String) × (explicit_skill_name event ≡ some name) × (contains allowlist name ≡ false)

add_finding-nonempty :
    (fs : List SkillFinding) (event : Event) (name : String) → add_finding fs event name ≢ []
unfolding add_finding
add_finding-nonempty [] event name = λ h. cc
add_finding-nonempty (f ∷ fs) event name = ground arith

skill_evidence-nonempty :
    (allowlist : List String) (fs : List SkillFinding) (event : Event)
    → (skill_evidence allowlist fs event ≢ []) ↔ ((fs ≢ []) ⊎ IsUnapproved allowlist event)
unfolding skill_evidence
skill_evidence-nonempty allowlist fs event = elim (Option-cases (explicit_skill_name event)) [
  | inl n ↦ rw (n, skill_evidence) (ground arith)
  | inr (name, s) ↦ elim (Bool-cases (contains allowlist name)) [
    | inl c ↦
        rw (s, skill_evidence)
          (rw c ((λ h. inl h), λ h. elim h [ inl k ↦ k | inr (n2, e, d) ↦ absurd (cc (c, e, d)) ]))
    | inr c ↦
        rw (s, skill_evidence)
          (rw c ((λ h. inr (name, refl, c)), λ h. add_finding-nonempty fs event name))
  ]
]

scan_skills-nonempty :
    (allowlist : List String) (events : List Event) (s : Scan)
    → ((scan_skills allowlist s events).findings ≢ [])
      ↔ ((s.findings ≢ []) ⊎ Has (IsUnapproved allowlist) events)
unfolding scan_skills
scan_skills-nonempty allowlist [] s = (λ h. inl h, λ h. elim h [ inl k ↦ k | inr k ↦ absurd k ])
scan_skills-nonempty allowlist (event ∷ events) s =
    let i = scan_skills-nonempty allowlist events (record {
      findings = skill_evidence allowlist s.findings event;
      explicit = s.explicit || saw_explicit event;
      incomplete = s.incomplete || saw_incomplete event;
    }) in
    let step = skill_evidence-nonempty allowlist s.findings event in
    (
      λ h. elim (i.0 h) [
        | inl k ↦ elim (step.0 k) [ inl a ↦ inl a | inr b ↦ inr (inl b) ]
        | inr k ↦ inr (inr k)
      ],
      λ h. elim h [
        | inl a ↦ i.1 (inl (step.1 (inl a)))
        | inr (inl b) ↦ i.1 (inl (step.1 (inr b)))
        | inr (inr k) ↦ i.1 (inr k)
      ],
    )

or_assoc : (a b c : Bool) → ((a || b) || c) ≡ (a || (b || c))
or_assoc a b c = ground arith

scan_skills-flags :
    (allowlist : List String) (events : List Event) (s : Scan)
    → ((scan_skills allowlist s events).explicit ≡ (s.explicit || any saw_explicit events))
      × ((scan_skills allowlist s events).incomplete ≡ (s.incomplete || any saw_incomplete events))
unfolding scan_skills
scan_skills-flags allowlist [] s = ground arith
scan_skills-flags allowlist (event ∷ events) s =
    let i = scan_skills-flags allowlist events (record {
      findings = skill_evidence allowlist s.findings event;
      explicit = s.explicit || saw_explicit event;
      incomplete = s.incomplete || saw_incomplete event;
    }) in
    (
      i.0 ∙ or_assoc s.explicit (saw_explicit event) (any saw_explicit events),
      i.1 ∙ or_assoc s.incomplete (saw_incomplete event) (any saw_incomplete events),
    )

skill_outcome-cases :
    (fs : List SkillFinding) (explicit incomplete : Bool)
    → (((skill_outcome fs explicit incomplete).0 ≡ violation) ↔ (fs ≢ []))
      × (((skill_outcome fs explicit incomplete).0 ≡ not_violation)
          ↔ (¬ (fs ≢ []) × (explicit ≡ true) × (incomplete ≡ false)))
unfolding skill_outcome
skill_outcome-cases [] false false = ground arith
skill_outcome-cases [] false true = ground arith
skill_outcome-cases [] true false = ground arith
skill_outcome-cases [] true true = ground arith
skill_outcome-cases (f ∷ fs) explicit incomplete = ground arith

-- With an allowlist configured: the report is a violation exactly when some event names an explicit
-- skill that the allowlist does not have, and clean exactly when no event does, some event names a
-- skill explicitly, and none shows a skill that it does not name.
pub skills_outcome :
    (allowlist : List String) (events : List Event)
    → allowlist ≢ []
    → (((unapproved_skills_from_events events allowlist).outcome ≡ violation)
        ↔ Has (IsUnapproved allowlist) events)
      × (((unapproved_skills_from_events events allowlist).outcome ≡ not_violation) ↔ (
          ¬ (Has (IsUnapproved allowlist) events)
          × (any saw_explicit events ≡ true)
          × (any saw_incomplete events ≡ false)))
unfolding unapproved_skills_from_events apply_skill_outcome
skills_outcome [] events h = absurd (h refl)
skills_outcome (name ∷ names) events h =
    let s = scan_skills (name ∷ names) no_scan events in
    let (explicit, incomplete) = scan_skills-flags (name ∷ names) events no_scan in
    let found = scan_skills-nonempty (name ∷ names) events no_scan in
    let (bad, clean) = skill_outcome-cases s.findings s.explicit s.incomplete in
    let some_bad : (s.findings ≢ []) ↔ Has (IsUnapproved (name ∷ names)) events =
      ground (arith, found) in
    (
      (λ k. some_bad.0 (bad.0 k), λ k. bad.1 (some_bad.1 k)),
      (
        λ k.
            let (n, a, b) = clean.0 k in
            (λ u. n (some_bad.1 u), sym explicit ∙ a, sym incomplete ∙ b),
        λ (n, a, b). clean.1 (λ u. n (some_bad.0 u), explicit ∙ a, incomplete ∙ b),
      ),
    )
