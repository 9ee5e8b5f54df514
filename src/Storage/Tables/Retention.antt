-- ===== src/Storage/Tables/Retention.antt =====
-- internal/storage/sqlite/retention.go: a retention run in terms of the instants at which sessions
-- started. `format` is the RFC3339Nano text of an instant, in nanoseconds since the year 1, and
-- `cutoff_of` the instant so many days before now.
use ai_engineering_productiv.Prelude.{
  ℕ, ◌/◌, ◌<◌, String, ◌≡◌, ◌↔◌, ◌⊎◌, inl, inr, true, false, some, none, List, [], ◌∷◌, text_lt,
  text_lt_irrefl, text_lt_trans, All, Has, Bool-cases,
}
use ai_engineering_productiv.Canonical.{Event, AgentRelation}
use ai_engineering_productiv.Storage.Tables.{
  EventRow, SessionRow, Database, is_expired, apply_retention,
}
use ai_engineering_productiv.Storage.Tables.Laws.{IsExpired, apply_retention-IsExpired}

abbrev pub second_of : ℕ → ℕ
second_of t = t / 1000000000

-- The first second of the year 10000, whose text has more digits.
abbrev pub last_second : ℕ
last_second = 315537897600

module _ (format : ℕ → String) (cutoff : ℕ) where
  -- The session started in an earlier second than the cutoff's.
  abbrev pub StartedBefore : SessionRow → Type 0
  StartedBefore s = (t : ℕ) × (s.started_at ≡ some (format t)) × (second_of t < second_of cutoff)

  -- The session started at the cutoff, or in a later second of a year with four digits.
  abbrev pub StartedLater : SessionRow → Type 0
  StartedLater s =
      (t : ℕ) × (s.started_at ≡ some (format t))
      × ((t ≡ cutoff) ⊎ ((second_of cutoff < second_of t) × (second_of t < last_second)))

  -- The row has no start, or one that is the cutoff or lies in another second than it.
  abbrev pub IsDated : SessionRow → Type 0
  IsDated s = (s.started_at ≡ none) ⊎ StartedBefore s ⊎ StartedLater s

  module _
      (in_order : (a b : ℕ)
        → second_of a < second_of b
        → second_of b < last_second
        → text_lt (format a) (format b) ≡ true)
      (in_range : second_of cutoff < last_second) where
    is_expired-StartedBefore :
        (s : SessionRow) → StartedBefore s → is_expired (format cutoff) s ≡ true
    is_expired-StartedBefore s (t, e, h) = rw e (in_order t cutoff h in_range)

    is_expired-StartedLater :
        (s : SessionRow) → StartedLater s → is_expired (format cutoff) s ≡ false
    is_expired-StartedLater s (t, e, inl h) = rw (e, h) (text_lt_irrefl (format cutoff))
    is_expired-StartedLater s (t, e, inr (h, k)) =
        let above = in_order cutoff t h k in
        elim (Bool-cases (text_lt (format t) (format cutoff))) [
          | inl b ↦
              let round = text_lt_trans (format cutoff) (format t) (format cutoff) above b in
              cc (round, text_lt_irrefl (format cutoff))
          | inr b ↦ rw e b
        ]

    is_expired_iff :
        (s : SessionRow) → IsDated s → (is_expired (format cutoff) s ≡ true) ↔ StartedBefore s
    is_expired_iff s d = (
      λ h. elim d [
        | inl e ↦ cc (rw e at h)
        | inr (inl b) ↦ b
        | inr (inr l) ↦ cc (h, is_expired-StartedLater s l)
      ],
      λ b. is_expired-StartedBefore s b,
    )

    IsExpired-StartedBefore :
        (sessions : List SessionRow) (id : String)
        → All IsDated sessions
        → IsExpired (format cutoff) sessions id
          ↔ Has (λ s. (s.session_id ≡ id) × StartedBefore s) sessions
    IsExpired-StartedBefore [] id d = (λ h. h, λ h. h)
    IsExpired-StartedBefore (s ∷ ss) id (d, ds) =
        let here = is_expired_iff s d in
        let there = IsExpired-StartedBefore ss id ds in
        (
          λ h. elim h [ inl (e, k) ↦ inl (e, here.0 k) | inr k ↦ inr (there.0 k) ],
          λ h. elim h [ inl (e, k) ↦ inl (e, here.1 k) | inr k ↦ inr (there.1 k) ],
        )

-- Where a retention run succeeds, the cutoff is in a year of four digits, and every session has no
-- start, or one that is the cutoff or lies in another second than it, in such a year: a row of the
-- events table, and one of the sessions table, stays exactly where no session of its id started in a
-- second before the cutoff's. Of the format it is assumed that in years of four digits the text of an
-- instant of an earlier second is the lower one.
pub apply_retention_lem :
    (reconstruct : List Event → List AgentRelation) (format : ℕ → String) (cutoff_of : ℕ → ℕ)
    (days : ℕ) (db after : Database) (n : ℕ) (e : EventRow) (s : SessionRow)
    → ((a b : ℕ)
        → second_of a < second_of b
        → second_of b < last_second
        → text_lt (format a) (format b) ≡ true)
    → second_of (cutoff_of days) < last_second
    → All (IsDated format (cutoff_of days)) db.sessions
    → apply_retention reconstruct (λ d. format (cutoff_of d)) days db ≡ some (after, n)
    → (Has (λ r. r ≡ e) after.events ↔ (
        Has (λ r. r ≡ e) db.events
        × ¬ (
            Has
              (λ r. (r.session_id ≡ e.session_id) × StartedBefore format (cutoff_of days) r)
              db.sessions)))
      × (Has (λ r. r ≡ s) after.sessions ↔ (
          Has (λ r. r ≡ s) db.sessions
          × ¬ (
              Has
                (λ r. (r.session_id ≡ s.session_id) × StartedBefore format (cutoff_of days) r)
                db.sessions)))
apply_retention_lem reconstruct format cutoff_of days db after n e s in_order in_range d h =
    let (events, sessions) =
      apply_retention-IsExpired reconstruct (λ z. format (cutoff_of z)) days db after n e s h in
    let of_event =
      IsExpired-StartedBefore format (cutoff_of days) in_order in_range db.sessions e.session_id
        d in
    let of_session =
      IsExpired-StartedBefore format (cutoff_of days) in_order in_range db.sessions s.session_id
        d in
    (
      (
        λ k. ((events.0 k).0, λ b. (events.0 k).1 (of_event.1 b)),
        λ (k, b). events.1 (k, λ x. b (of_event.0 x)),
      ),
      (
        λ k. ((sessions.0 k).0, λ b. (sessions.0 k).1 (of_session.1 b)),
        λ (k, b). sessions.1 (k, λ x. b (of_session.0 x)),
      ),
    )
