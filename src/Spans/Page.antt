-- ===== src/Spans/Page.antt =====
-- internal/spans/projection.go Page and setParentAvailability, and cursor.go Contains.
pub mod Laws
pub mod Parents
use ai_engineering_productiv.Prelude.{
  ℕ, zero, suc, ◌+◌, ◌-◌, String, Bool, true, false, ◌&&◌, ◌||◌, not, Option, none, some, List, [],
  ◌∷◌, ◌++◌, map, ◌==◌, if◌then◌else◌, ltb, length, get_elem?, take, drop, any,
}
use ai_engineering_productiv.Spans.{
  ParentAvailability, root, loaded, not_loaded, absent, Record, identity_key,
}

abbrev pub has_identity : String → String → Record → Bool
has_identity trace span r = r.trace_id == trace && r.span_id == span

-- Contains: the loop's early return is `any`.
unfoldable pub contains_identity : List Record → String → String → Bool
contains_identity records trace span = any (has_identity trace span) records

-- Is the key in the map built from these records?
abbrev pub has_key : String → Record → Bool
has_key key r = identity_key r.trace_id r.span_id == key

unfoldable pub parent_availability_of : List Record → List Record → Record → ParentAvailability
parent_availability_of page all r = elim (r.parent_span_id) [
  | none ↦ root
  | some parent ↦
      if any (has_key (identity_key r.trace_id parent)) page
      then loaded
      else if any (has_key (identity_key r.trace_id parent)) all
      then not_loaded
      else absent
]

abbrev pub with_availability : ParentAvailability → Record → Record
with_availability a r = record r { parent_availability = a }

unfoldable pub set_parent_availability : List Record → List Record → List Record
unfolding parent_availability_of
set_parent_availability page all =
    map (λ r. with_availability (parent_availability_of page all r) r) page

-- The position after the first record with the identity, 0 where there is none.
unfoldable pub position_after : List Record → String → String → ℕ
position_after [] trace span = 0
position_after (r ∷ rs) trace span =
    let rest = position_after rs trace span in
    if has_identity trace span r then 1 else elim rest [ zero ↦ 0 | suc n ↦ suc (suc n) ]

unfoldable pub start_of : List Record → String → String → ℕ
unfolding position_after
start_of records trace span =
    if not (trace == "") || not (span == "") then position_after records trace span else 0

abbrev pub slice : List Record → ℕ → ℕ → List Record
slice records start stop = take (stop - start) (drop start records)

-- `records[stop-1]`, `none` where that panics.
abbrev pub record_before : List Record → ℕ → Option Record
record_before records zero = none
record_before records (suc n) = get_elem? records n

-- The page that starts at the position. `none` is the panic on `records[-1]`.
unfoldable pub page_from : List Record → ℕ → ℕ → Option (List Record × Option Record)
unfolding set_parent_availability
page_from records limit start =
    let stop = start + limit in
    if ltb stop (length records)
    then elim (record_before records stop) [
      | none ↦ none
      | some last ↦ some (set_parent_availability (slice records start stop) records, some last)
    ]
    else some (set_parent_availability (slice records start (length records)) records, none)

-- Page
unfoldable pub page : List Record → ℕ → String → String → Option (List Record × Option Record)
unfolding page_from start_of
page records limit trace span = page_from records limit (start_of records trace span)
