-- ===== src/Governance/RiskyAccess/Laws.antt =====
-- What the risky-access report says of the accesses that were observed.
use mathlib.Core.List.{append_assoc, append-nil, map-append}
use ai_engineering_productiv.Prelude.{
  ℕ, ◌+◌, String, ◌≡◌, ◌≢◌, refl, sym, ap, ◌∙◌, ◌↔◌, inl, inr, Bool, true, false, ◌||◌, Option,
  none, some, List, [], ◌∷◌, ◌++◌, map, arith, All, Has, keep, keep-append, keep-cases,
  not_Has_of_All, codes,
}
use ai_engineering_productiv.Canonical.{Event}
use ai_engineering_productiv.Privacy.{
  is_secret_class, classify_path, classify_command_access, credential_access, no_access,
}
use ai_engineering_productiv.Governance.{violation, not_violation, indeterminate}
use ai_engineering_productiv.Governance.Access.{
  filesystem_read, shell_command, AccessObservation, collect_accesses, all_accesses,
  thin_access_event, thin_observations, thin_from, thin_access_events, after_observations,
}
use ai_engineering_productiv.Governance.Access.Thin.{
  IsObserved, collect_accesses-IsObserved, collect_accesses-thin_access_event,
}
use ai_engineering_productiv.Governance.RiskyAccess.{
  Finding, path_finding, command_finding, classify_access, append_finding, scan_accesses,
  scan_events, conclude, risky_access_from_events,
}

module _ (unicode_lower : ℕ → ℕ) (format_time : ℕ → String) where
  -- The access reaches a secret file.
  unfoldable pub is_risky : AccessObservation → Bool
  is_risky a = elim a.method [
    | filesystem_read ↦ is_secret_class (classify_path unicode_lower (codes a.value)).0
    | shell_command ↦ elim (classify_command_access unicode_lower (codes a.value)).0 [
      | credential_access ↦ true
      | no_access ↦ false
    ]
  ]

  -- The findings of one event's accesses, and of all events.
  abbrev pub findings_of : String → String → List AccessObservation → List Finding
  findings_of at session [] = []
  findings_of at session (a ∷ rest) =
      append_finding [] (classify_access unicode_lower format_time a at session).0
      ++ findings_of at session rest

  abbrev pub event_findings : Event → List Finding
  event_findings e = findings_of (format_time e.occurred_at) e.session_id (collect_accesses e)

  abbrev pub all_findings : List Event → List Finding
  all_findings [] = []
  all_findings (e ∷ es) = event_findings e ++ all_findings es

  abbrev pub non_empty : List AccessObservation → Bool
  non_empty [] = false
  non_empty (a ∷ rest) = true

  classify_access_observed :
      (a : AccessObservation) (at session : String)
      → (classify_access unicode_lower format_time a at session).1 ≡ true
  unfolding classify_access
  classify_access_observed a at session = ground arith

  append_finding_lem :
      (fs rest : List Finding) (o : Option Finding)
      → append_finding fs o ++ rest ≡ fs ++ (append_finding [] o ++ rest)
  append_finding_lem fs rest none = refl
  append_finding_lem fs rest (some f) = append_assoc fs (f ∷ []) rest

  seen_or : (b c seen : Bool) → b ≡ true → (c || (b || seen)) ≡ true
  seen_or b c seen h = ground arith

  scan_accesses_lem :
      (at session : String) (l : List AccessObservation) (fs : List Finding) (seen : Bool)
      → scan_accesses unicode_lower format_time at session l fs seen
        ≡ (fs ++ findings_of at session l, non_empty l || seen)
  unfolding scan_accesses
  scan_accesses_lem at session [] fs seen = rw append-nil
  scan_accesses_lem at session (a ∷ rest) fs seen =
      let r = classify_access unicode_lower format_time a at session in
      scan_accesses_lem at session rest (append_finding fs r.0) (r.1 || seen)
      ∙ rw append_finding_lem
          (rw (seen_or r.1 (non_empty rest) seen (classify_access_observed a at session)))

  non_empty-append :
      (l r : List AccessObservation) (seen : Bool)
      → (non_empty r || (non_empty l || seen)) ≡ (non_empty (l ++ r) || seen)
  non_empty-append [] r seen = refl
  non_empty-append (a ∷ l) r seen = ground arith

  scan_events_lem :
      (es : List Event) (fs : List Finding) (seen : Bool)
      → scan_events unicode_lower format_time es fs seen
        ≡ (fs ++ all_findings es, non_empty (all_accesses es) || seen)
  unfolding scan_events all_accesses
  scan_events_lem [] fs seen = rw append-nil
  scan_events_lem (e ∷ es) fs seen = rw scan_accesses_lem (
      scan_events_lem es (fs ++ event_findings e) (non_empty (collect_accesses e) || seen)
      ∙ rw (append_assoc, non_empty-append (collect_accesses e) (all_accesses es) seen))

  access_reference :
      (a : AccessObservation) (at session : String)
      → map
          (λ f. f.reference)
          (append_finding [] (classify_access unicode_lower format_time a at session).0)
        ≡ map (λ b. b.value) (keep is_risky (a ∷ []))
  unfolding classify_access path_finding command_finding is_risky
  access_reference a at session = ground arith

  event_references :
      (at session : String) (l : List AccessObservation)
      → map (λ f. f.reference) (findings_of at session l) ≡ map (λ b. b.value) (keep is_risky l)
  event_references at session [] = refl
  event_references at session (a ∷ l) =
      map-append _ _ (findings_of at session l)
      ∙ rw (access_reference a at session, event_references at session l)
          (sym (ap (map (λ b. b.value)) (keep-append is_risky (a ∷ []) l) ∙ map-append _ _ _))

  references_lem :
      (es : List Event)
      → map (λ f. f.reference) (all_findings es)
        ≡ map (λ b. b.value) (keep is_risky (all_accesses es))
  unfolding all_accesses
  references_lem [] = refl
  references_lem (e ∷ es) =
      map-append _ (event_findings e) (all_findings es)
      ∙ rw
          (
            event_references (format_time e.occurred_at) e.session_id (collect_accesses e),
            references_lem es,
          )
          (rw (keep-append is_risky (collect_accesses e) (all_accesses es))
            (sym (map-append _ _ _)))

  pub report_lem :
      (es : List Event)
      → risky_access_from_events unicode_lower format_time es
        ≡ conclude (all_findings es) (non_empty (all_accesses es) || false)
  unfolding risky_access_from_events
  report_lem es = rw scan_events_lem

  conclude-findings : (fs : List Finding) (seen : Bool) → (conclude fs seen).findings ≡ fs
  unfolding conclude
  conclude-findings fs seen = ground arith

  -- The findings of the report are the risky accesses of the events, each with its raw path or
  -- command, in the order in which they are observed.
  pub risky_findings :
      (es : List Event)
      → map (λ f. f.reference) (risky_access_from_events unicode_lower format_time es).findings
        ≡ map (λ a. a.value) (keep is_risky (all_accesses es))
  risky_findings es = rw (report_lem es, conclude-findings) (references_lem es)

  map_nil : (g : AccessObservation → String) (l : List AccessObservation) → map g l ≡ [] → l ≡ []
  map_nil g [] h = refl
  map_nil g (a ∷ l) h = absurd (cc)

  conclude_outcome :
      (fs : List Finding) (l : List AccessObservation)
      → map (λ f. f.reference) fs ≡ map (λ a. a.value) (keep is_risky l)
      → (((conclude fs (non_empty l || false)).outcome ≡ violation)
          ↔ Has (λ a. is_risky a ≡ true) l)
        × (((conclude fs (non_empty l || false)).outcome ≡ not_violation)
            ↔ ((l ≢ []) × All (λ a. is_risky a ≡ false) l))
        × (((conclude fs (non_empty l || false)).outcome ≡ indeterminate) ↔ (l ≡ []))
  unfolding conclude
  conclude_outcome [] [] h = ground arith
  conclude_outcome [] (a ∷ l) h = elim (keep-cases is_risky (a ∷ l)) [
    | inl (e, clean) ↦ (
      (λ x. cc, λ has. absurd (not_Has_of_All is_risky (a ∷ l) clean has)),
      (λ x. (λ y. cc, clean), λ x. refl),
      (λ x. cc, λ x. cc),
    )
    | inr (ne, has) ↦ absurd (ne (map_nil (λ b. b.value) (keep is_risky (a ∷ l)) (sym h)))
  ]
  conclude_outcome (f ∷ fs) [] h = absurd (cc)
  conclude_outcome (f ∷ fs) (a ∷ l) h = elim (keep-cases is_risky (a ∷ l)) [
    | inl (e, clean) ↦ absurd (cc (h ∙ ap (map (λ b. b.value)) e))
    | inr (ne, has) ↦ (
      (λ x. has, λ x. refl),
      (λ x. cc, λ (x, clean). absurd (not_Has_of_All is_risky (a ∷ l) clean has)),
      (λ x. cc, λ x. cc),
    )
  ]

  -- The report is a violation exactly when some observed access is risky, clean exactly when there
  -- are accesses and none is risky, and indeterminate exactly when no access was observed.
  pub risky_outcome :
      (es : List Event)
      → (((risky_access_from_events unicode_lower format_time es).outcome ≡ violation)
          ↔ Has (λ a. is_risky a ≡ true) (all_accesses es))
        × (((risky_access_from_events unicode_lower format_time es).outcome ≡ not_violation)
            ↔ ((all_accesses es ≢ []) × All (λ a. is_risky a ≡ false) (all_accesses es)))
        × (((risky_access_from_events unicode_lower format_time es).outcome ≡ indeterminate)
            ↔ (all_accesses es ≡ []))
  risky_outcome es =
      rw (report_lem es) (conclude_outcome (all_findings es) (all_accesses es) (references_lem es))

  thin_event_findings :
      (event : Event) (o : AccessObservation) (i : ℕ)
      → IsObserved o
      → event_findings (thin_access_event event o i)
        ≡ append_finding []
            (classify_access unicode_lower format_time o
              (format_time event.occurred_at)
              event.session_id).0
  unfolding thin_access_event
  thin_event_findings event o i h =
      ap (findings_of (format_time event.occurred_at) event.session_id)
        (collect_accesses-thin_access_event event o i h)
      ∙ append-nil _

  -- The report over thin events.
  thin_findings :
      (event : Event) (l : List AccessObservation) (i : ℕ)
      → All IsObserved l
      → all_findings (thin_observations event l i)
        ≡ findings_of (format_time event.occurred_at) event.session_id l
  unfolding thin_observations
  thin_findings event [] i h = refl
  thin_findings event (o ∷ l) i (h, hs) =
      rw (thin_event_findings event o i h, thin_findings event l (i + 1) hs)

  thin_accesses :
      (event : Event) (l : List AccessObservation) (i : ℕ)
      → All IsObserved l
      → all_accesses (thin_observations event l i) ≡ l
  unfolding thin_observations all_accesses
  thin_accesses event [] i h = refl
  thin_accesses event (o ∷ l) i (h, hs) =
      rw (collect_accesses-thin_access_event event o i h, thin_accesses event l (i + 1) hs)

  all_findings-append :
      (xs ys : List Event) → all_findings (xs ++ ys) ≡ all_findings xs ++ all_findings ys
  all_findings-append [] ys = refl
  all_findings-append (e ∷ xs) ys =
      ap (λ l. event_findings e ++ l) (all_findings-append xs ys)
      ∙ sym (append_assoc (event_findings e) (all_findings xs) (all_findings ys))

  all_accesses-append :
      (xs ys : List Event) → all_accesses (xs ++ ys) ≡ all_accesses xs ++ all_accesses ys
  unfolding all_accesses
  all_accesses-append [] ys = refl
  all_accesses-append (e ∷ xs) ys =
      ap (λ l. collect_accesses e ++ l) (all_accesses-append xs ys)
      ∙ sym (append_assoc (collect_accesses e) (all_accesses xs) (all_accesses ys))

  thin_from_findings : (es : List Event) (i : ℕ) → all_findings (thin_from es i) ≡ all_findings es
  unfolding thin_from
  thin_from_findings [] i = refl
  thin_from_findings (e ∷ es) i =
      all_findings-append (thin_observations e (collect_accesses e) i) _
      ∙ rw (
        thin_findings e (collect_accesses e) i (collect_accesses-IsObserved e),
        thin_from_findings es (after_observations (collect_accesses e) i),
      )

  pub thin_from_accesses :
      (es : List Event) (i : ℕ) → all_accesses (thin_from es i) ≡ all_accesses es
  unfolding thin_from all_accesses
  thin_from_accesses [] i = refl
  thin_from_accesses (e ∷ es) i =
      all_accesses-append (thin_observations e (collect_accesses e) i) _
      ∙ rw (
        thin_accesses e (collect_accesses e) i (collect_accesses-IsObserved e),
        thin_from_accesses es (after_observations (collect_accesses e) i),
      )

  -- Where the iterations over a map take one order, the thin events that are kept in place of full
  -- ones give the very same report.
  pub risky-thin_access_events :
      (es : List Event)
      → risky_access_from_events unicode_lower format_time (thin_access_events es)
        ≡ risky_access_from_events unicode_lower format_time es
  unfolding thin_access_events
  risky-thin_access_events es =
      report_lem (thin_from es 0)
      ∙ rw (thin_from_findings es 0, thin_from_accesses es 0) (sym (report_lem es))
