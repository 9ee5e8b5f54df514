-- ===== src/Governance/Prompts/Laws.antt =====
-- A prompt report is a violation exactly when a rule matches a retained prompt.
use mathlib.Core.Path.{subst}
use ai_engineering_productiv.Prelude.{
  ℕ, String, ◌≡◌, ◌↔◌, ◌⊎◌, refl, inl, inr, arith, Bool, true, false, not, Option, none, some, List,
  [], ◌∷◌, ◌==◌, Bool-cases, Option-cases, All, Has, Has-iff, Has-append, sort_by, sort_by-Has,
  keep, keep-adds, keep-skips, trim_space,
}
use ai_engineering_productiv.Canonical.{Event}
use ai_engineering_productiv.Config.{PromptKeyword}
use ai_engineering_productiv.Conversation.{Record, project}
use ai_engineering_productiv.Governance.{violation}
use ai_engineering_productiv.Governance.Prompts.{
  PromptFinding, PromptSource, PromptIdentity, CompiledKeyword, match_prompt_keyword,
  finding_before, source_before, finding_from, is_user, source_of, with_source, add_to_prompt,
  group_records, event_by_id, no_event, prompt_identity_key, prompt_finding, rule_findings,
  scan_prompts, apply_prompt_keyword_outcome, any_prompt, conclude, compile_prompt_keywords,
  group_prompt_identities, prompt_keywords_from_events,
}

-- There is an element.
abbrev Any {ℓ} : {A : Type ℓ} → List A → Type 0
Any xs = Has (λ x. Unit) xs

apply_outcome_iff :
    (findings : List PromptFinding) (a b : Bool)
    → ((apply_prompt_keyword_outcome findings a b).outcome ≡ violation) ↔ Any findings
unfolding apply_prompt_keyword_outcome
apply_outcome_iff [] a b = ground arith
apply_outcome_iff (f ∷ fs) a b = (λ h. inl tt, λ h. refl)

keep-Any :
    (rule : CompiledKeyword) (xs : List PromptSource)
    → Any (keep (λ s. match_prompt_keyword rule s.text) xs)
      ↔ Has (λ s. match_prompt_keyword rule s.text ≡ true) xs
keep-Any rule [] = (λ h. h, λ h. h)
keep-Any rule (x ∷ xs) = elim (Bool-cases (match_prompt_keyword rule x.text)) [
  | inl e ↦ rw (keep-adds (λ s. match_prompt_keyword rule s.text) x xs e) (λ h. inl e, λ h. inl tt)
  | inr e ↦ rw (keep-skips (λ s. match_prompt_keyword rule s.text) x xs e) (
    λ h. inr ((keep-Any rule xs).0 h),
    λ h. elim h [ inl q ↦ absurd (cc (q, e)) | inr k ↦ (keep-Any rule xs).1 k ],
  )
]

-- Some source matches the rule.
abbrev HasMatch : PromptIdentity → CompiledKeyword → Type 0
HasMatch p rule = Has (λ s. match_prompt_keyword rule s.text ≡ true) p.sources

finding_from-some :
    (p : PromptIdentity) (rule : CompiledKeyword) (ss : List PromptSource)
    → ((f : PromptFinding) × (finding_from p rule ss ≡ some f)) ↔ Any ss
finding_from-some p rule [] = (λ h. absurd (cc h.1), λ h. absurd h)
finding_from-some p rule (s ∷ ss) = (λ h. inl tt, λ h. (_, refl))

prompt_finding-some :
    (p : PromptIdentity) (rule : CompiledKeyword)
    → ((f : PromptFinding) × (prompt_finding p rule ≡ some f)) ↔ HasMatch p rule
unfolding prompt_finding
prompt_finding-some p rule =
    let kept = keep (λ s. match_prompt_keyword rule s.text) p.sources in
    let found = finding_from-some p rule (sort_by source_before kept) in
    let sorted = sort_by-Has source_before (λ s. Unit) kept in
    let chosen = keep-Any rule p.sources in
    (λ h. chosen.0 (sorted.0 (found.0 h)), λ h. found.1 (sorted.1 (chosen.1 h)))

rule_findings-skips :
    (p : PromptIdentity) (rule : CompiledKeyword) (rules : List CompiledKeyword)
    → prompt_finding p rule ≡ none
    → rule_findings p (rule ∷ rules) ≡ rule_findings p rules
unfolding rule_findings
rule_findings-skips p rule rules e = rw (e, rule_findings) refl

rule_findings-adds :
    (p : PromptIdentity) (rule : CompiledKeyword) (rules : List CompiledKeyword) (f : PromptFinding)
    → prompt_finding p rule ≡ some f
    → rule_findings p (rule ∷ rules) ≡ f ∷ rule_findings p rules
unfolding rule_findings
rule_findings-adds p rule rules f e = rw (e, rule_findings) refl

rule_findings-Any :
    (p : PromptIdentity) (rules : List CompiledKeyword)
    → Any (rule_findings p rules) ↔ Has (HasMatch p) rules
unfolding rule_findings
rule_findings-Any p [] = (λ h. h, λ h. h)
rule_findings-Any p (rule ∷ rules) = elim (Option-cases (prompt_finding p rule)) [
  | inl e ↦ rw (rule_findings-skips p rule rules e) (
    λ h. inr ((rule_findings-Any p rules).0 h),
    λ h. elim h [
      | inl m ↦ absurd (cc (((prompt_finding-some p rule).1 m).1, e))
      | inr k ↦ (rule_findings-Any p rules).1 k
    ],
  )
  | inr (f, e) ↦
      rw (rule_findings-adds p rule rules f e)
        (λ h. inl ((prompt_finding-some p rule).0 (f, e)), λ h. inl tt)
]

scan_prompts-Any :
    (rules : List CompiledKeyword) (ps : List PromptIdentity)
    → Any (scan_prompts rules ps) ↔ Has (λ p. (p.available ≡ true) × Has (HasMatch p) rules) ps
unfolding scan_prompts
scan_prompts-Any rules [] = (λ h. h, λ h. h)
scan_prompts-Any rules (p ∷ ps) = elim (Bool-cases (p.available)) [
  | inl e ↦
      let joined = Has-append (λ f. Unit) (rule_findings p rules) (scan_prompts rules ps) in
      let mine = rule_findings-Any p rules in
      let rest = scan_prompts-Any rules ps in
      rw e (
        λ h. elim (joined.0 h) [ inl a ↦ inl (refl, mine.0 a) | inr b ↦ inr (rest.0 b) ],
        λ h. joined.1 (elim h [ inl (q, a) ↦ inl (mine.1 a) | inr b ↦ inr (rest.1 b) ]),
      )
  | inr e ↦
      let rest = scan_prompts-Any rules ps in
      rw e (λ h. inr (rest.0 h), λ h. elim h [ inl (q, a) ↦ absurd (cc q) | inr b ↦ rest.1 b ])
]

Has-imp :
    {A : Type 0} (P Q : A → Type 0) → ((a : A) → P a → Q a) → (xs : List A) → Has P xs → Has Q xs
Has-imp P Q f [] h = h
Has-imp P Q f (x ∷ xs) (inl h) = inl (f x h)
Has-imp P Q f (x ∷ xs) (inr h) = inr (Has-imp P Q f xs h)

-- Two lists, searched in either order.
Has-swap :
    {A : Type 0} {B : Type 0} (R : A → B → Type 0) (xs : List A) (ys : List B)
    → Has (λ x. Has (R x) ys) xs
    → Has (λ y. Has (λ x. R x y) xs) ys
Has-swap R [] ys h = absurd h
Has-swap R (x ∷ xs) ys (inl h) = Has-imp (R x) (λ y. Has (λ a. R a y) (x ∷ xs)) (λ y r. inl r) ys h
Has-swap R (x ∷ xs) ys (inr h) =
    Has-imp (λ y. Has (λ a. R a y) xs) (λ y. Has (λ a. R a y) (x ∷ xs)) (λ y r. inr r) ys
      (Has-swap R xs ys h)

abbrev new_prompt : String → String → PromptIdentity
new_prompt key session = record { key = key; session_id = session; available = false; sources = [] }

-- Grouping keeps the sources: one with a property is in a prompt, and there the prompt is available.
module _ (M : PromptSource → Type 0) where
  abbrev HasSource : PromptIdentity → Type 0
  HasSource p = (p.available ≡ true) × Has M p.sources

  -- A prompt with sources is available.
  abbrev Fits : PromptIdentity → Type 0
  Fits p = (p.available ≡ true) ⊎ (p.sources ≡ [])

  abbrev IsNew : Option PromptSource → Type 0
  IsNew o = (s : PromptSource) × (o ≡ some s) × M s

  with_source-Fits :
      (o : Option PromptSource) (p : PromptIdentity) → Fits p → Fits (with_source o p)
  with_source-Fits none p h = h
  with_source-Fits (some s) p h = inl refl

  with_source-HasSource :
      (o : Option PromptSource) (p : PromptIdentity)
      → Fits p
      → HasSource (with_source o p) ↔ (HasSource p ⊎ IsNew o)
  with_source-HasSource none p h =
      (λ k. inl k, λ k. elim k [ inl a ↦ a | inr (s, e, m) ↦ absurd (cc e) ])
  with_source-HasSource (some s) p h =
      let both = Has-append M p.sources (s ∷ []) in
      (
        λ (a, k). elim (both.0 k) [
          | inl old ↦ elim h [ inl v ↦ inl (v, old) | inr e ↦ absurd (subst (Has M) e old) ]
          | inr (inl m) ↦ inr (s, refl, m)
          | inr (inr n) ↦ absurd n
        ],
        λ k. (
          refl,
          both.1 (elim k [
            | inl (a, old) ↦ inl old
            | inr (t, e, m) ↦ inr (inl (subst M (let same : t ≡ s = cc e in same) m))
          ]),
        ),
      )

  add_to_prompt-Fits :
      (ps : List PromptIdentity) (key session : String) (o : Option PromptSource)
      → All Fits ps
      → All Fits (add_to_prompt ps key session o)
  unfolding add_to_prompt
  add_to_prompt-Fits [] key session o h = (with_source-Fits o _ (inr refl), tt)
  add_to_prompt-Fits (p ∷ ps) key session o (f, h) = elim (Bool-cases (p.key == key)) [
    | inl e ↦ rw e (with_source-Fits o p f, h)
    | inr e ↦ rw e (f, add_to_prompt-Fits ps key session o h)
  ]

  add_to_prompt-HasSource :
      (ps : List PromptIdentity) (key session : String) (o : Option PromptSource)
      → All Fits ps
      → Has HasSource (add_to_prompt ps key session o) ↔ (Has HasSource ps ⊎ IsNew o)
  unfolding add_to_prompt
  add_to_prompt-HasSource [] key session o h =
      let both = with_source-HasSource o (new_prompt key session) (inr refl) in
      (
        λ k. elim k [
          | inl a ↦ elim (both.0 a) [ inl (q, n) ↦ absurd n | inr m ↦ inr m ]
          | inr b ↦ absurd b
        ],
        λ k. elim k [ inl b ↦ absurd b | inr m ↦ inl (both.1 (inr m)) ],
      )
  add_to_prompt-HasSource (p ∷ ps) key session o (f, h) = elim (Bool-cases (p.key == key)) [
    | inl e ↦ rw e (ground (arith, with_source-HasSource o p f))
    | inr e ↦ rw e (ground (arith, add_to_prompt-HasSource ps key session o h))
  ]

  -- A record of the user with such a source.
  abbrev IsRetained : Record → Type 0
  IsRetained r = (is_user r.role ≡ true) × IsNew (source_of r)

  group_records-HasSource :
      (events : List Event) (ps : List PromptIdentity) (rs : List Record)
      → All Fits ps
      → Has HasSource (group_records events ps rs) ↔ (Has HasSource ps ⊎ Has IsRetained rs)
  unfolding group_records
  group_records-HasSource events ps [] h =
      (λ k. inl k, λ k. elim k [ inl a ↦ a | inr b ↦ absurd b ])
  group_records-HasSource events ps (r ∷ rs) h =
      let event = event_by_id no_event events r.event_id in
      let key = prompt_identity_key event in
      let session = trim_space event.session_id in
      elim (Bool-cases (is_user r.role)) [
        | inl e ↦
            let added = add_to_prompt-HasSource ps key session (source_of r) h in
            let later =
              group_records-HasSource events (add_to_prompt ps key session (source_of r)) rs
                (add_to_prompt-Fits ps key session (source_of r) h) in
            rw e (
              λ k. elim (later.0 k) [
                | inl a ↦ elim (added.0 a) [ inl b ↦ inl b | inr n ↦ inr (inl (refl, n)) ]
                | inr b ↦ inr (inr b)
              ],
              λ k. later.1 (elim k [
                | inl a ↦ inl (added.1 (inl a))
                | inr (inl (q, n)) ↦ inl (added.1 (inr n))
                | inr (inr b) ↦ inr b
              ]),
            )
        | inr e ↦
            let later = group_records-HasSource events ps rs h in
            rw e (
              λ k. elim (later.0 k) [ inl a ↦ inl a | inr b ↦ inr (inr b) ],
              λ k. later.1 (elim k [
                | inl a ↦ inl a
                | inr (inl (q, n)) ↦ absurd (cc q)
                | inr (inr b) ↦ inr b
              ]),
            )
      ]

-- Some rule of the list matches the text of the source.
abbrev pub IsMatched : List CompiledKeyword → PromptSource → Type 0
IsMatched rules s = Has (λ rule. match_prompt_keyword rule s.text ≡ true) rules

conclude-violation :
    (rules : List CompiledKeyword) (prompts : List PromptIdentity)
    → ((conclude rules prompts).outcome ≡ violation) ↔ Has (HasSource (IsMatched rules)) prompts
conclude-violation rules prompts =
    let found = scan_prompts rules prompts in
    let table =
      apply_outcome_iff (sort_by finding_before found) (any_prompt (λ p. p.available) prompts)
        (any_prompt (λ p. not p.available) prompts) in
    let sorted = sort_by-Has finding_before (λ f. Unit) found in
    let scanned = scan_prompts-Any rules prompts in
    let swapped =
      Has-iff (λ p. (p.available ≡ true) × Has (HasMatch p) rules) (HasSource (IsMatched rules))
        (λ p. (
          (λ (a, h).
              (a, Has-swap (λ rule s. match_prompt_keyword rule s.text ≡ true) rules p.sources h)),
          (λ (a, h).
              (a, Has-swap (λ s rule. match_prompt_keyword rule s.text ≡ true) p.sources rules h)),
        ))
        prompts in
    (
      λ h. swapped.0 (scanned.0 (sorted.0 (table.0 h))),
      λ h. table.1 (sorted.1 (scanned.1 (swapped.1 h))),
    )

-- With a rule that is enabled and compiles: the report is a violation exactly when some user record of
-- the conversation has a retained text that one of these rules matches, whatever prompts are taken
-- for the same one.
pub prompts_violation :
    (fold : ℕ → ℕ) (regex : String → Option (String → Bool)) (events : List Event)
    (rules : List PromptKeyword) (rule : CompiledKeyword) (compiled : List CompiledKeyword)
    → compile_prompt_keywords regex rules ≡ rule ∷ compiled
    → ((prompt_keywords_from_events fold regex events rules).outcome ≡ violation)
      ↔ Has
          (λ r.
            (is_user r.role ≡ true)
            × ((s : PromptSource) × (source_of r ≡ some s) × IsMatched (rule ∷ compiled) s))
          (project fold events)
unfolding prompt_keywords_from_events group_prompt_identities
prompts_violation fold regex events rules rule compiled e =
    let grouped =
      group_records-HasSource (IsMatched (rule ∷ compiled)) events [] (project fold events) tt in
    let concluded =
      conclude-violation (rule ∷ compiled) (group_records events [] (project fold events)) in
    rw (e, prompt_keywords_from_events)
      (
        λ h. elim (grouped.0 (concluded.0 h)) [ inl a ↦ absurd a | inr b ↦ b ],
        λ h. concluded.1 (grouped.1 (inr h)),
      )
