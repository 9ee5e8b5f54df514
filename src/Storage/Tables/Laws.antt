-- ===== src/Storage/Tables/Laws.antt =====
-- Which rows a retention run and a deletion leave.
use mathlib.Core.Path.{subst}
use ai_engineering_productiv.Prelude.{
  ℕ, String, ◌≡◌, ◌↔◌, refl, sym, ap, ◌∙◌, inl, inr, arith, Bool, true, false, not, ◌||◌, some,
  List, [], ◌∷◌, ◌==◌, ltb, Bool-cases, eq_iff, map, keep, keep-adds, keep-skips, Has,
}
use ai_engineering_productiv.Canonical.{Event, AgentRelation}
use ai_engineering_productiv.Storage.Tables.{
  EventRow, SessionRow, Database, delete_where, delete_session_rows, delete_each,
  rebuild_codex_agent_relations, is_expired, list_expired_session_ids, apply_retention,
}

abbrev in_list : List String → String → Bool
in_list [] s = false
in_list (id ∷ ids) s = s == id || in_list ids s

-- A choice of rows by their session, made twice.
keep-keep_session :
    {A : Type 0} (session : A → String) (p q : String → Bool) (xs : List A)
    → keep (λ r. not (q (session r))) (keep (λ r. not (p (session r))) xs)
      ≡ keep (λ r. not (p (session r) || q (session r))) xs
keep-keep_session session p q [] = refl
keep-keep_session session p q (x ∷ xs) = ground (arith, keep-keep_session session p q xs)

keep-none : {A : Type 0} (xs : List A) → keep (λ r. true) xs ≡ xs
keep-none [] = refl
keep-none (x ∷ xs) = ap (λ z. x ∷ z) (keep-none xs)

delete_where-none : (db : Database) → delete_where (λ s. false) db ≡ db
unfolding delete_where
delete_where-none db =
    rw
      (
        keep-none db.events,
        keep-none db.sessions,
        keep-none db.operations,
        keep-none db.agent_relations,
        keep-none db.cost_records,
        keep-none db.insight_signals,
      )
      refl

delete_where-delete_where :
    (p q : String → Bool) (db : Database)
    → delete_where q (delete_where p db) ≡ delete_where (λ s. p s || q s) db
unfolding delete_where
delete_where-delete_where p q db =
    rw
      (
        keep-keep_session (λ r. r.session_id) p q db.events,
        keep-keep_session (λ r. r.session_id) p q db.sessions,
        keep-keep_session (λ r. r.session_id) p q db.operations,
        keep-keep_session (λ r. r.session_id) p q db.agent_relations,
        keep-keep_session (λ r. r.session_id) p q db.cost_records,
        keep-keep_session (λ r. r.session_id) p q db.insight_signals,
      )
      refl

-- Deleting the sessions of a list one after the other is one deletion.
delete_each-delete_where :
    (ids : List String) (db : Database) → delete_each ids db ≡ delete_where (in_list ids) db
unfolding delete_each delete_session_rows
delete_each-delete_where [] db = sym (delete_where-none db)
delete_each-delete_where (id ∷ ids) db =
    delete_each-delete_where ids (delete_where (λ s. s == id) db)
    ∙ delete_where-delete_where (λ s. s == id) (in_list ids) db

keep-Has :
    {A : Type 0} (p : A → Bool) (x : A) (xs : List A)
    → Has (λ r. r ≡ x) (keep p xs) ↔ (Has (λ r. r ≡ x) xs × (p x ≡ true))
keep-Has p x [] = (λ h. absurd h, λ h. h.0)
keep-Has p x (y ∷ ys) = elim (Bool-cases (p y)) [
  | inl e ↦ rw (keep-adds p y ys e) (
    λ h. elim h [
      | inl q ↦ (inl q, sym (ap p q) ∙ e)
      | inr k ↦ (inr ((keep-Has p x ys).0 k).0, ((keep-Has p x ys).0 k).1)
    ],
    λ (h, t). elim h [ inl q ↦ inl q | inr k ↦ inr ((keep-Has p x ys).1 (k, t)) ],
  )
  | inr e ↦ rw (keep-skips p y ys e) (
    λ h. (inr ((keep-Has p x ys).0 h).0, ((keep-Has p x ys).0 h).1),
    λ (h, t). elim h [ inl q ↦ absurd (cc (ap p q, e, t)) | inr k ↦ (keep-Has p x ys).1 (k, t) ],
  )
]

-- Some session of the id has a start whose text is below that of the cutoff.
abbrev pub IsExpired : String → List SessionRow → String → Type 0
IsExpired cutoff sessions id =
    Has (λ s. (s.session_id ≡ id) × (is_expired cutoff s ≡ true)) sessions

expired-adds :
    (cutoff : String) (s : SessionRow) (ss : List SessionRow)
    → is_expired cutoff s ≡ true
    → list_expired_session_ids cutoff (s ∷ ss) ≡ s.session_id ∷ list_expired_session_ids cutoff ss
unfolding list_expired_session_ids
expired-adds cutoff s ss e = ap (map (λ r. r.session_id)) (keep-adds (is_expired cutoff) s ss e)

expired-skips :
    (cutoff : String) (s : SessionRow) (ss : List SessionRow)
    → is_expired cutoff s ≡ false
    → list_expired_session_ids cutoff (s ∷ ss) ≡ list_expired_session_ids cutoff ss
unfolding list_expired_session_ids
expired-skips cutoff s ss e = ap (map (λ r. r.session_id)) (keep-skips (is_expired cutoff) s ss e)

in_list-IsExpired :
    (cutoff : String) (sessions : List SessionRow) (id : String)
    → (in_list (list_expired_session_ids cutoff sessions) id ≡ true) ↔ IsExpired cutoff sessions id
unfolding list_expired_session_ids
in_list-IsExpired cutoff [] id = (λ h. absurd (cc h), λ h. absurd h)
in_list-IsExpired cutoff (s ∷ ss) id = elim (Bool-cases (is_expired cutoff s)) [
  | inl e ↦
      rw (expired-adds cutoff s ss e)
        (ground (arith, e, in_list-IsExpired cutoff ss id, eq_iff id s.session_id))
  | inr e ↦ rw (expired-skips cutoff s ss e) (ground (arith, e, in_list-IsExpired cutoff ss id))
]

kept_iff :
    (cutoff : String) (sessions : List SessionRow) (id : String)
    → (not (in_list (list_expired_session_ids cutoff sessions) id) ≡ true)
      ↔ ¬ (IsExpired cutoff sessions id)
kept_iff cutoff sessions id = ground (arith, in_list-IsExpired cutoff sessions id)

kept-rows :
    (reconstruct : List Event → List AgentRelation) (cutoff : String) (db : Database) (e : EventRow)
    (s : SessionRow)
    → (Has
          (λ r. r ≡ e)
          (rebuild_codex_agent_relations reconstruct
            (delete_each (list_expired_session_ids cutoff db.sessions) db)).events
        ↔ (Has (λ r. r ≡ e) db.events × ¬ (IsExpired cutoff db.sessions e.session_id)))
      × (Has
            (λ r. r ≡ s)
            (rebuild_codex_agent_relations reconstruct
              (delete_each (list_expired_session_ids cutoff db.sessions) db)).sessions
          ↔ (Has (λ r. r ≡ s) db.sessions × ¬ (IsExpired cutoff db.sessions s.session_id)))
unfolding rebuild_codex_agent_relations delete_where
kept-rows reconstruct cutoff db e s =
    let ids = list_expired_session_ids cutoff db.sessions in
    let (ke, kb) = kept_iff cutoff db.sessions e.session_id in
    let (se, sb) = kept_iff cutoff db.sessions s.session_id in
    rw (delete_each-delete_where ids db) (
      (
        λ h.
            let (a, b) = (keep-Has (λ r. not (in_list ids r.session_id)) e db.events).0 h in
            (a, ke b),
        λ (a, b). (keep-Has (λ r. not (in_list ids r.session_id)) e db.events).1 (a, kb b),
      ),
      (
        λ h.
            let (a, b) = (keep-Has (λ r. not (in_list ids r.session_id)) s db.sessions).0 h in
            (a, se b),
        λ (a, b). (keep-Has (λ r. not (in_list ids r.session_id)) s db.sessions).1 (a, sb b),
      ),
    )

-- Retention of so many days, at least one: a row of the events table, and one of the sessions table,
-- stays exactly where no session of its id has a start whose text is below that of the cutoff.
pub apply_retention-IsExpired :
    (reconstruct : List Event → List AgentRelation) (cutoff_of : ℕ → String) (days : ℕ)
    (db after : Database) (n : ℕ) (e : EventRow) (s : SessionRow)
    → apply_retention reconstruct cutoff_of days db ≡ some (after, n)
    → (Has (λ r. r ≡ e) after.events
        ↔ (Has (λ r. r ≡ e) db.events × ¬ (IsExpired (cutoff_of days) db.sessions e.session_id)))
      × (Has (λ r. r ≡ s) after.sessions ↔ (
          Has (λ r. r ≡ s) db.sessions × ¬ (IsExpired (cutoff_of days) db.sessions s.session_id)))
unfolding apply_retention
apply_retention-IsExpired reconstruct cutoff_of days db after n e s h =
    let ids = list_expired_session_ids (cutoff_of days) db.sessions in
    elim (Bool-cases (ltb days 1)) [
      | inl q ↦ absurd (cc (rw (q, apply_retention) at h))
      | inr q ↦
          let made : rebuild_codex_agent_relations reconstruct (delete_each ids db) ≡ after =
            cc (rw (q, apply_retention) at h) in
          subst
            (λ z.
              (Has (λ r. r ≡ e) z.events ↔ (
                Has (λ r. r ≡ e) db.events
                × ¬ (IsExpired (cutoff_of days) db.sessions e.session_id)))
              × (Has (λ r. r ≡ s) z.sessions ↔ (
                  Has (λ r. r ≡ s) db.sessions
                  × ¬ (IsExpired (cutoff_of days) db.sessions s.session_id))))
            made (kept-rows reconstruct (cutoff_of days) db e s)
    ]
