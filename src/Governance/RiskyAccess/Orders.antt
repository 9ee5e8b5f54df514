-- ===== src/Governance/RiskyAccess/Orders.antt =====
-- internal/governance/risky_access.go: the risky-access report when every iteration over a map takes
-- an order of its own, as Go's do.
use mathlib.Core.List.{Perm}
use mathlib.Core.List.Perm
use ai_engineering_productiv.Prelude.{
  ℕ, String, ◌≡◌, refl, ap, Bool, false, ◌||◌, List, [], ◌∷◌, ◌++◌,
}
use ai_engineering_productiv.Canonical.{Event}
use ai_engineering_productiv.Governance.Access.{
  AccessObservation, collect_accesses, all_accesses, thin_access_events,
}
use ai_engineering_productiv.Governance.Access.Orders.{
  SameFields, SameEvents, spread, collect_accesses-Same, all_accesses-Same,
}
use ai_engineering_productiv.Governance.RiskyAccess.{
  Finding, RiskyAccess, append_finding, classify_access, conclude, risky_access_from_events,
}
use ai_engineering_productiv.Governance.RiskyAccess.Laws.{
  findings_of, event_findings, all_findings, non_empty, report_lem, risky-thin_access_events,
}

module _ (unicode_lower : ℕ → ℕ) (format_time : ℕ → String) where
  finding_of : String → String → AccessObservation → List Finding
  finding_of at session a =
      append_finding [] (classify_access unicode_lower format_time a at session).0

  findings_of-spread :
      (at session : String) (l : List AccessObservation)
      → findings_of unicode_lower format_time at session l ≡ spread (finding_of at session) l
  unfolding finding_of
  findings_of-spread at session [] = refl
  findings_of-spread at session (a ∷ l) =
      ap (λ z. finding_of at session a ++ z) (findings_of-spread at session l)

  event_findings-Same :
      (e f : Event)
      → e.occurred_at ≡ f.occurred_at
      → e.session_id ≡ f.session_id
      → SameFields e.attributes f.attributes
      → SameFields e.provider_extensions f.provider_extensions
      → Perm
          (event_findings unicode_lower format_time e)
          (event_findings unicode_lower format_time f)
  unfolding collect_accesses
  event_findings-Same e f p q s t =
      rw
        (
          p,
          q,
          findings_of-spread (format_time f.occurred_at) f.session_id (collect_accesses e),
          findings_of-spread (format_time f.occurred_at) f.session_id (collect_accesses f),
        )
        (collect_accesses-Same (finding_of (format_time f.occurred_at) f.session_id) e f s t)

  all_findings-Same :
      (es fs : List Event)
      → SameEvents es fs
      → Perm (all_findings unicode_lower format_time es) (all_findings unicode_lower format_time fs)
  all_findings-Same [] [] h = Perm.refl []
  all_findings-Same [] (f ∷ fs) h = absurd h
  all_findings-Same (e ∷ es) [] h = absurd h
  all_findings-Same (e ∷ es) (f ∷ fs) ((p, q, s, t), h) =
      Perm.append (event_findings-Same e f p q s t) (all_findings-Same es fs h)

  non_empty-Perm :
      (l r : List AccessObservation)
      → Perm l r
      → non_empty unicode_lower format_time l ≡ non_empty unicode_lower format_time r
  non_empty-Perm [] [] p = refl
  non_empty-Perm [] (a ∷ r) p = absurd (cc (Perm.eq-nil (Perm.symm p)))
  non_empty-Perm (a ∷ l) [] p = absurd (cc (Perm.eq-nil p))
  non_empty-Perm (a ∷ l) (b ∷ r) p = refl

  -- The same report, the findings in any order.
  abbrev pub SameReport : RiskyAccess → RiskyAccess → Type 0
  SameReport r s =
      Perm r.findings s.findings × (r.outcome ≡ s.outcome) × (r.visibility ≡ s.visibility)

  conclude-Perm :
      (fs gs : List Finding) (b c : Bool)
      → Perm fs gs
      → b ≡ c
      → SameReport (conclude fs b) (conclude gs c)
  unfolding conclude
  conclude-Perm [] [] b c p e = rw e (Perm.refl _, refl, refl)
  conclude-Perm [] (g ∷ gs) b c p e = absurd (cc (Perm.eq-nil (Perm.symm p)))
  conclude-Perm (f ∷ fs) [] b c p e = absurd (cc (Perm.eq-nil p))
  conclude-Perm (f ∷ fs) (g ∷ gs) b c p e = (p, refl, refl)

  -- The thin events that are kept in place of full ones give the report of the full events, whatever
  -- orders the iterations over the maps take when the events are thinned and when the full report is
  -- made: the same findings, each as often, with the class, the boundary, the reference, the time and
  -- the session, perhaps in another order, and the same outcome and visibility.
  pub risky-thin_access_events-Same :
      (es fs : List Event)
      → SameEvents es fs
      → SameReport
          (risky_access_from_events unicode_lower format_time (thin_access_events es))
          (risky_access_from_events unicode_lower format_time fs)
  risky-thin_access_events-Same es fs h =
      rw
        (
          risky-thin_access_events unicode_lower format_time es,
          report_lem unicode_lower format_time es,
          report_lem unicode_lower format_time fs,
        )
        (conclude-Perm (all_findings unicode_lower format_time es)
          (all_findings unicode_lower format_time fs) _ _ (all_findings-Same es fs h)
          (ap (λ b. b || false)
            (non_empty-Perm (all_accesses es) (all_accesses fs) (all_accesses-Same es fs h))))
