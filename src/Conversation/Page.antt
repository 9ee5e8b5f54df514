-- ===== src/Conversation/Page.antt =====
-- internal/conversation/projection.go, Page. The RFC3339Nano form of an instant is an argument.
use ai_engineering_productiv.Prelude.{
  ℕ, zero, suc, ◌+◌, ◌-◌, ◌≤◌, String, Bool, true, false, ◌&&◌, ◌||◌, not, Option, none, some, List,
  [], ◌∷◌, ◌++◌, ◌==◌, ◌≡◌, ◌≢◌, ◌⊎◌, refl, sym, ◌∙◌, ap, if◌then◌else◌, ltb, length, get_elem?,
  get_elem?-in, take, drop, arith, Bool-cases, inl, inr, eq_iff, eq_refl, All, length-drop,
  take-length_le,
}
use ai_engineering_productiv.Conversation.{Record}

-- `&records[end-1]`, `none` where that panics.
abbrev pub record_before : List Record → ℕ → Option Record
record_before records zero = none
record_before records (suc n) = get_elem? records n

module _ (format_time : ℕ → String) where
  abbrev pub is_cursor : String → String → Record → Bool
  is_cursor time id r = format_time r.occurred_at == time && r.event_id == id

  -- The position after the first record at the cursor, 0 where there is none.
  unfoldable pub position_after : List Record → String → String → ℕ
  position_after [] time id = 0
  position_after (r ∷ rs) time id =
      let rest = position_after rs time id in
      if is_cursor time id r then 1 else elim rest [ zero ↦ 0 | suc n ↦ suc (suc n) ]

  unfoldable pub start_of : List Record → String → String → ℕ
  unfolding position_after
  start_of records time id =
      if not (time == "") || not (id == "") then position_after records time id else 0

  -- Page. `none` is the panic on `records[-1]`.
  unfoldable pub page : List Record → ℕ → String → String → Option (List Record × Option Record)
  unfolding start_of
  page records limit time id =
      let start = start_of records time id in
      let stop = start + limit in
      if ltb stop (length records)
      then elim (record_before records stop) [
        | none ↦ none
        | some last ↦ some (take (stop - start) (drop start records), some last)
      ]
      else some (drop start records, none)

  -- No record is at the cursor.
  abbrev pub IsAhead : Record → List Record → Type 0
  IsAhead c =
      All (λ r. (format_time r.occurred_at ≢ format_time c.occurred_at) ⊎ (r.event_id ≢ c.event_id))

  is_cursor-ahead :
      (c r : Record)
      → (format_time r.occurred_at ≢ format_time c.occurred_at) ⊎ (r.event_id ≢ c.event_id)
      → is_cursor (format_time c.occurred_at) c.event_id r ≡ false
  is_cursor-ahead c r h = ground (
    arith,
    eq_iff (format_time r.occurred_at) (format_time c.occurred_at),
    eq_iff r.event_id c.event_id,
  )

  position_after-cursor :
      (pre post : List Record) (c : Record)
      → IsAhead c pre
      → position_after (pre ++ c ∷ post) (format_time c.occurred_at) c.event_id ≡ suc (length pre)
  unfolding position_after
  position_after-cursor [] post c h =
      rw (eq_refl (format_time c.occurred_at), eq_refl c.event_id) refl
  position_after-cursor (r ∷ pre) post c (n, h) =
      rw (is_cursor-ahead c r n) (rw (position_after-cursor pre post c h) refl)

  drop-behind :
      (pre post : List Record) (c : Record) → drop (suc (length pre)) (pre ++ c ∷ post) ≡ post
  drop-behind [] post c = refl
  drop-behind (r ∷ pre) post c = drop-behind pre post c

  get_elem?-behind :
      (pre post : List Record) (c : Record) (i n : ℕ)
      → n ≡ suc (length pre + i)
      → get_elem? (pre ++ c ∷ post) n ≡ get_elem? post i
  get_elem?-behind [] post c i zero e = absurd (omega arith)
  get_elem?-behind [] post c i (suc n) e = let same : n ≡ i = omega arith in rw same refl
  get_elem?-behind (r ∷ pre) post c i zero e = absurd (omega arith)
  get_elem?-behind (r ∷ pre) post c i (suc n) e = get_elem?-behind pre post c i n (omega arith)

  abbrev pub last_unless_end : List Record → ℕ → Option Record
  last_unless_end records limit =
      if ltb limit (length records) then get_elem? records (limit - 1) else none

  -- Page from a position on.
  abbrev page_at : List Record → ℕ → ℕ → Option (List Record × Option Record)
  page_at records limit start =
      if ltb (start + limit) (length records)
      then elim (record_before records (start + limit)) [
        | none ↦ none
        | some last ↦ some (take (start + limit - start) (drop start records), some last)
      ]
      else some (drop start records, none)

  page-page_at :
      (records : List Record) (limit : ℕ) (time id : String)
      → page records limit time id ≡ page_at records limit (start_of records time id)
  unfolding page
  page-page_at records limit time id = refl

  -- The same, with `behind` the records from there on.
  page_at-behind :
      (records behind : List Record) (start l : ℕ)
      → drop start records ≡ behind
      → get_elem? records (start + l) ≡ get_elem? behind l
      → page_at records (suc l) start ≡ some (take (suc l) behind, last_unless_end behind (suc l))
  page_at-behind records behind start l d g =
      let size : length behind ≡ length records - start =
        ap length (sym d) ∙ length-drop start records in
      let next : start + suc l ≡ suc (start + l) = omega arith in
      let piece : start + suc l - start ≡ suc l = omega arith in
      let before : suc l - 1 ≡ l = omega arith in
      elim (Bool-cases (ltb (suc l) (length behind))) [
        | inl b ↦
            let more : ltb (start + suc l) (length records) ≡ true = ground arith in
            let (last, e) = get_elem?-in behind l (ground arith) in
            let ending : record_before records (start + suc l) ≡ some last = rw next (g ∙ e) in
            rw (more, ending, piece, d, b, before, e) refl
        | inr b ↦
            let no_more : ltb (start + suc l) (length records) ≡ false = ground arith in
            let all : take (suc l) behind ≡ behind = take-length_le (suc l) behind (ground arith) in
            rw (no_more, d, b, all) refl
      ]

  start_of-cursor :
      (pre post : List Record) (c : Record)
      → c.event_id ≢ ""
      → IsAhead c pre
      → start_of (pre ++ c ∷ post) (format_time c.occurred_at) c.event_id ≡ suc (length pre)
  unfolding start_of
  start_of-cursor pre post c n a =
      let named : (c.event_id == "") ≡ false = elim (Bool-cases (c.event_id == "")) [
        | inl e ↦ absurd (n ((eq_iff c.event_id "").0 e))
        | inr e ↦ e
      ] in
      elim (Bool-cases (format_time c.occurred_at == "")) [
        | inl e ↦ rw (e, named) (position_after-cursor pre post c a)
        | inr e ↦ rw e (position_after-cursor pre post c a)
      ]

  -- For a limit of at least one: without a cursor, a page is the first records up to the limit; with
  -- the cursor of a record that has an event id, and no record of its time and id before it, the
  -- page is the records that follow this record, up to the limit. The record to continue from is
  -- the last one of the page where more records follow, and none where the page reaches the end.
  pub page_lem :
      (pre post : List Record) (c : Record) (limit : ℕ)
      → 1 ≤ limit
      → c.event_id ≢ ""
      → IsAhead c pre
      → (page (pre ++ c ∷ post) limit "" ""
          ≡ some (take limit (pre ++ c ∷ post), last_unless_end (pre ++ c ∷ post) limit))
        × (page (pre ++ c ∷ post) limit (format_time c.occurred_at) c.event_id
            ≡ some (take limit post, last_unless_end post limit))
  unfolding start_of
  page_lem pre post c zero h n a = absurd (omega arith)
  page_lem pre post c (suc l) h n a = (
    page-page_at (pre ++ c ∷ post) (suc l) "" ""
        ∙ page_at-behind (pre ++ c ∷ post) (pre ++ c ∷ post) 0 l refl
            (ap (get_elem? (pre ++ c ∷ post)) (omega arith)),
    page-page_at (pre ++ c ∷ post) (suc l) (format_time c.occurred_at) c.event_id
        ∙ ap (page_at (pre ++ c ∷ post) (suc l)) (start_of-cursor pre post c n a)
        ∙ page_at-behind (pre ++ c ∷ post) post (suc (length pre)) l (drop-behind pre post c)
            (get_elem?-behind pre post c l (suc (length pre) + l) (omega arith)),
  )
