-- ===== src/Storage/Events/Laws.antt =====
-- The order of the rows, the table's key, and what inserting and looking up an event do.
use mathlib.Core.Path.{subst}
use ai_engineering_productiv.Prelude.{
  ℕ, String, ◌≡◌, ◌≢◌, ◌↔◌, ◌⊎◌, refl, sym, ◌∙◌, inl, inr, arith, Bool, true, false, ◌&&◌, ◌||◌,
  some, List, [], ◌∷◌, ◌++◌, ◌==◌, if◌then◌else◌, Bool-cases, eq_iff, eq_refl, text_lt,
  text_lt_irrefl, text_lt_trans, text_lt_total, All, Has, Apart,
}
use ai_engineering_productiv.Canonical.{Event}
use ai_engineering_productiv.Storage.Tables.{EventRow, row_before}
use ai_engineering_productiv.Storage.Events.{event_row, save_event, is_after, cursor_of}

abbrev key_before : String → String → String → String → Bool
key_before s i t j = if s == t then text_lt i j else text_lt s t

text_apart : (s t : String) → (s == t) ≡ false → (t == s) ≡ false
text_apart s t h = elim (Bool-cases (t == s)) [
  | inl e ↦ absurd (cc (h, (eq_iff s t).1 (sym ((eq_iff t s).0 e))))
  | inr e ↦ e
]

key_before-or : (s i t j : String) → key_before s i t j ≡ (text_lt s t || (t == s && text_lt i j))
key_before-or s i t j = elim (Bool-cases (s == t)) [
  | inl e ↦
      let same : s ≡ t = (eq_iff s t).0 e in
      let low : text_lt s t ≡ false = subst (λ z. text_lt s z ≡ false) same (text_lt_irrefl s) in
      let back : (t == s) ≡ true = (eq_iff t s).1 (sym same) in rw (e, low, back) refl
  | inr e ↦ rw (e, text_apart s t e) ground arith
]

key_before_iff :
    (s i t j : String)
    → (key_before s i t j ≡ true) ↔ ((text_lt s t ≡ true) ⊎ ((s ≡ t) × (text_lt i j ≡ true)))
key_before_iff s i t j = ground (arith, key_before-or s i t j, eq_iff t s)

key_before_trans :
    (s i t j u k : String)
    → key_before s i t j ≡ true
    → key_before t j u k ≡ true
    → key_before s i u k ≡ true
key_before_trans s i t j u k h l = (key_before_iff s i u k).1 (elim ((key_before_iff s i t j).0 h) [
  | inl a ↦ elim ((key_before_iff t j u k).0 l) [
    | inl b ↦ inl (text_lt_trans s t u a b)
    | inr (e, b) ↦ inl (subst (λ z. text_lt s z ≡ true) e a)
  ]
  | inr (e, a) ↦ elim ((key_before_iff t j u k).0 l) [
    | inl b ↦ inl (subst (λ z. text_lt z u ≡ true) (sym e) b)
    | inr (f, b) ↦ inr (e ∙ f, text_lt_trans i j k a b)
  ]
])

pub row_before_trans :
    (a b c : EventRow) → row_before a b ≡ true → row_before b c ≡ true → row_before a c ≡ true
row_before_trans a b c h k =
    key_before_trans a.occurred_at a.event_id b.occurred_at b.event_id c.occurred_at c.event_id h k

pub row_before_irrefl : (a : EventRow) → row_before a a ≡ false
row_before_irrefl a = rw (eq_refl a.occurred_at) (text_lt_irrefl a.event_id)

pub row_before_total :
    (a b : EventRow) → a.event_id ≢ b.event_id → (row_before a b ≡ true) ⊎ (row_before b a ≡ true)
row_before_total a b apart =
    let there = key_before_iff a.occurred_at a.event_id b.occurred_at b.event_id in
    let back = key_before_iff b.occurred_at b.event_id a.occurred_at a.event_id in
    elim (text_lt_total a.occurred_at b.occurred_at) [
      | inl h ↦ inl (there.1 (inl h))
      | inr (inr h) ↦ inr (back.1 (inl h))
      | inr (inl e) ↦ elim (text_lt_total a.event_id b.event_id) [
        | inl h ↦ inl (there.1 (inr (e, h)))
        | inr (inl f) ↦ absurd (apart f)
        | inr (inr h) ↦ inr (back.1 (inr (sym e, h)))
      ]
    ]

module _ (stamp : ℕ → String) where
  -- The rows are those of their events, and no event id is there twice.
  pub record IsTable (rows : List EventRow) : Type 0 where
    pub keys : Apart (λ a b. a.event_id ≢ b.event_id) rows
    pub columns : All (λ r. r ≡ event_row stamp r.event) rows

  -- What lies behind the cursor of a row's event is what the order puts behind the row.
  pub is_after-row_before :
      (a b : EventRow)
      → a ≡ event_row stamp a.event
      → is_after stamp (some (cursor_of a.event)) b ≡ row_before a b
  is_after-row_before a b e =
      subst (λ z. is_after stamp (some (cursor_of a.event)) b ≡ row_before z b) (sym e)
        (sym (key_before-or (stamp a.event.occurred_at) a.event.event_id b.occurred_at b.event_id))

  -- An event is inserted behind the other rows, unless its id is there: then nothing changes.
  pub save_event_lem :
      (rows : List EventRow) (e : Event)
      → (Has (λ r. r.event_id ≡ e.event_id) rows × (save_event stamp rows e ≡ (rows, false)))
        ⊎ (All (λ r. r.event_id ≢ e.event_id) rows
            × (save_event stamp rows e ≡ (rows ++ event_row stamp e ∷ [], true)))
  unfolding save_event
  save_event_lem [] e = inr (tt, refl)
  save_event_lem (row ∷ rows) e = elim (Bool-cases (row.event_id == e.event_id)) [
    | inl q ↦ inl (inl ((eq_iff row.event_id e.event_id).0 q), rw q refl)
    | inr q ↦ elim (save_event_lem rows e) [
      | inl (h, s) ↦ inl (inr h, rw q (rw s refl))
      | inr (h, s) ↦
          inr (((λ p. cc ((eq_iff row.event_id e.event_id).1 p, q)), h), rw q (rw s refl))
    ]
  ]

  All-end :
      (P : EventRow → Type 0) (rows : List EventRow) (r : EventRow)
      → All P rows
      → P r
      → All P (rows ++ r ∷ [])
  All-end P [] r h p = (p, tt)
  All-end P (x ∷ xs) r (q, h) p = (q, All-end P xs r h p)

  Apart-end :
      (rows : List EventRow) (r : EventRow)
      → Apart (λ a b. a.event_id ≢ b.event_id) rows
      → All (λ a. a.event_id ≢ r.event_id) rows
      → Apart (λ a b. a.event_id ≢ b.event_id) (rows ++ r ∷ [])
  Apart-end [] r h n = (tt, tt)
  Apart-end (x ∷ xs) r (q, h) (p, n) =
      (All-end (λ b. x.event_id ≢ b.event_id) xs r q p, Apart-end xs r h n)

  -- Inserting an event keeps the ids of the table apart, and its columns those of the events.
  save_event-IsTable :
      (rows : List EventRow) (e : Event) → IsTable rows → IsTable (save_event stamp rows e).0
  save_event-IsTable rows e table = elim (save_event_lem rows e) [
    | inl (h, s) ↦ rw s table
    | inr (n, s) ↦ rw s (record {
      keys = Apart-end rows (event_row stamp e) table.keys n;
      columns =
          All-end (λ r. r ≡ event_row stamp r.event) rows (event_row stamp e) table.columns refl;
    })
  ]
