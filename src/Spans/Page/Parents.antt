-- ===== src/Spans/Page/Parents.antt =====
-- What a page says of its records' parents.
use mathlib.Core.Path.{subst}
use ai_engineering_productiv.Prelude.{
  ℕ, ◌+◌, String, ◌≡◌, ◌↔◌, inl, inr, true, Option, none, some, List, [], ◌∷◌, map, eq_iff, arith,
  ltb, length, any, Has, Has-map, All, Bool-cases, Option-cases,
}
use ai_engineering_productiv.Spans.{root, loaded, not_loaded, absent, Record, identity_key}
use ai_engineering_productiv.Spans.Page.{
  has_key, parent_availability_of, with_availability, set_parent_availability, slice, record_before,
  page_from, start_of, page,
}

-- Some record of the list has the identity that the record gives for its parent.
abbrev pub HasParent : List Record → Record → Type 0
HasParent rs r =
    (parent : String) × (r.parent_span_id ≡ some parent)
    × Has (λ q. identity_key q.trace_id q.span_id ≡ identity_key r.trace_id parent) rs

-- The state says what is true of the page and of all the retained records.
abbrev pub Describes : List Record → List Record → Record → Type 0
Describes p all r =
    ((r.parent_availability ≡ root) ↔ (r.parent_span_id ≡ none))
    × ((r.parent_availability ≡ loaded) ↔ HasParent p r)
    × ((r.parent_availability ≡ not_loaded) ↔ (¬ (HasParent p r) × HasParent all r))
    × ((r.parent_availability ≡ absent)
        ↔ (¬ (HasParent p r) × ¬ (HasParent all r) × ¬ (r.parent_span_id ≡ none)))

has_key_iff :
    (key : String) (rs : List Record)
    → (any (has_key key) rs ≡ true) ↔ Has (λ q. identity_key q.trace_id q.span_id ≡ key) rs
has_key_iff key [] = (λ h. cc, λ h. absurd h)
has_key_iff key (r ∷ rs) =
    ground (arith, has_key_iff key rs, eq_iff (identity_key r.trace_id r.span_id) key)

abbrev described : List Record → List Record → Record → Record
described p all r = with_availability (parent_availability_of p all r) r

parent_availability_of-Describes :
    (p all : List Record) (r : Record) → Describes p all (described p all r)
unfolding parent_availability_of
parent_availability_of-Describes p all r = elim (Option-cases (r.parent_span_id)) [
  | inl n ↦ ground arith
  | inr (parent, s) ↦ ground (
    arith,
    has_key_iff (identity_key r.trace_id parent) p,
    has_key_iff (identity_key r.trace_id parent) all,
  )
]

HasParent-iff :
    (p all : List Record) (r : Record) → HasParent (set_parent_availability p all) r ↔ HasParent p r
unfolding set_parent_availability
HasParent-iff p all r = (
  λ (parent, s, h). (parent, s, (same parent).0 h),
  λ (parent, s, h). (parent, s, (same parent).1 h),
)
  where
    same :
        (parent : String)
        → Has
            (λ q. identity_key q.trace_id q.span_id ≡ identity_key r.trace_id parent)
            (map (described p all) p)
          ↔ Has (λ q. identity_key q.trace_id q.span_id ≡ identity_key r.trace_id parent) p
    same parent = Has-map (described p all) _ p

set_parent_availability-Describes :
    (p all q : List Record)
    → All (Describes (set_parent_availability p all) all) (map (described p all) q)
set_parent_availability-Describes p all [] = tt
set_parent_availability-Describes p all (r ∷ q) = (
  ground (arith, HasParent-iff p all (described p all r), parent_availability_of-Describes p all r),
  set_parent_availability-Describes p all q,
)

page_from-cases_of :
    (records : List Record) (limit start : ℕ) (p : List Record) (next : Option Record)
    → page_from records limit start ≡ some (p, next)
    → (q : List Record) × (set_parent_availability q records ≡ p)
unfolding page_from
page_from-cases_of records limit start p next e =
    elim (Bool-cases (ltb (start + limit) (length records))) [
      | inl b ↦ elim (Option-cases (record_before records (start + limit))) [
        | inl o ↦ absurd (cc (rw o at (rw b at e)))
        | inr (last, o) ↦ (slice records start (start + limit), ground arith)
      ]
      | inr b ↦ (slice records start (length records), ground arith)
    ]

-- Each record of a page is called a root exactly when it gives no parent; loaded exactly when its
-- parent is on the page; not loaded exactly when its parent is retained and not on the page;
-- absent exactly when it gives a parent that is not retained.
pub page_parents :
    (records : List Record) (limit : ℕ) (trace span : String) (p : List Record)
    (next : Option Record)
    → page records limit trace span ≡ some (p, next)
    → All (Describes p records) p
unfolding page set_parent_availability
page_parents records limit trace span p next e =
    let (q, same) = page_from-cases_of records limit (start_of records trace span) p next e in
    subst (λ l. All (Describes l records) l) same (set_parent_availability-Describes q records q)
