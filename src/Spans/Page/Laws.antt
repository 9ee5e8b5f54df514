-- ===== src/Spans/Page/Laws.antt =====
-- The pages that a client reads one after the other, and what each says of its records' parents.
use ai_engineering_productiv.Prelude.{
  ℕ, zero, suc, ◌+◌, ◌-◌, ◌≤◌, ◌<◌, String, ◌≡◌, ◌≢◌, refl, sym, ap, ◌∙◌, ◌↔◌, ◌⊎◌, inl, inr, true,
  none, some, List, [], ◌∷◌, ◌++◌, map, eq_iff, arith, ltb, length, get_elem?, take, drop, All,
  Apart, Bool-cases, take-append-drop, take-length_le, length-drop,
}
use ai_engineering_productiv.Spans.{unset, Record}
use ai_engineering_productiv.Spans.Page.{
  has_identity, parent_availability_of, with_availability, set_parent_availability, position_after,
  start_of, slice, record_before, page_from, page,
}

abbrev pub Separate : Record → Record → Type 0
Separate a b = ¬ ((a.trace_id ≡ b.trace_id) × (a.span_id ≡ b.span_id))

has_identity_iff :
    (trace span : String) (r : Record)
    → (has_identity trace span r ≡ true) ↔ ((r.trace_id ≡ trace) × (r.span_id ≡ span))
has_identity_iff trace span r = ground (arith, eq_iff r.trace_id trace, eq_iff r.span_id span)

get_elem?-All :
    (P : Record → Type 0) (rs : List Record) (n : ℕ) (r : Record)
    → All P rs
    → get_elem? rs n ≡ some r
    → P r
get_elem?-All P [] n r h g = absurd (cc g)
get_elem?-All P (x ∷ xs) zero r (p, h) g = ground (arith)
get_elem?-All P (x ∷ xs) (suc n) r (p, h) g = get_elem?-All P xs n r h g

position_after-get_elem? :
    (rs : List Record) (n : ℕ) (r : Record)
    → Apart Separate rs
    → get_elem? rs n ≡ some r
    → position_after rs r.trace_id r.span_id ≡ suc n
unfolding position_after
position_after-get_elem? [] n r h g = absurd (cc g)
position_after-get_elem? (x ∷ xs) zero r (p, h) g =
    ground (arith, has_identity_iff r.trace_id r.span_id x)
position_after-get_elem? (x ∷ xs) (suc n) r (p, h) g = ground (
  arith,
  has_identity_iff r.trace_id r.span_id x,
  get_elem?-All (Separate x) xs n r p g,
  position_after-get_elem? xs n r h g,
)

get_elem?-lt : (rs : List Record) (n : ℕ) → n < length rs → (r : Record) × (get_elem? rs n ≡ some r)
get_elem?-lt [] n h = absurd (omega arith)
get_elem?-lt (x ∷ xs) zero h = (x, refl)
get_elem?-lt (x ∷ xs) (suc n) h = get_elem?-lt xs n (omega arith)

take-nil : (b : ℕ) → take {A = Record} b [] ≡ []
take-nil zero = refl
take-nil (suc b) = refl

take-append-drop_add :
    (a b : ℕ) (rs : List Record) → take b (drop a rs) ++ drop (a + b) rs ≡ drop a rs
take-append-drop_add zero b rs = let e : 0 + b ≡ b = omega arith in rw e (take-append-drop b rs)
take-append-drop_add (suc a) b [] =
    let e : suc a + b ≡ suc (a + b) = omega arith in rw e (rw (take-nil b) refl)
take-append-drop_add (suc a) b (x ∷ xs) =
    let e : suc a + b ≡ suc (a + b) = omega arith in rw e (take-append-drop_add a b xs)

-- What is left of a record when its availability is forgotten.
abbrev pub forget : Record → Record
forget = with_availability unset

forget-map :
    (p all q : List Record)
    → map forget (map (λ r. with_availability (parent_availability_of p all r) r) q) ≡ map forget q
forget-map p all [] = refl
forget-map p all (r ∷ q) = ap (λ l. forget r ∷ l) (forget-map p all q)

set_parent_availability-forget :
    (p all : List Record) → map forget (set_parent_availability p all) ≡ map forget p
unfolding set_parent_availability
set_parent_availability-forget p all = forget-map p all p

map-append : (xs ys : List Record) → map forget (xs ++ ys) ≡ map forget xs ++ map forget ys
map-append [] ys = refl
map-append (x ∷ xs) ys = ap (λ l. forget x ∷ l) (map-append xs ys)

-- A client that follows the cursors, for at most so many pages.
unfoldable pub walk : ℕ → List Record → ℕ → String → String → List Record
unfolding page
walk zero records limit trace span = []
walk (suc fuel) records limit trace span = elim (page records limit trace span) [
  | none ↦ []
  | some (p, next) ↦ elim next [
    | none ↦ p
    | some r ↦ p ++ walk fuel records limit r.trace_id r.span_id
  ]
]

walk-end :
    (fuel : ℕ) (records : List Record) (limit : ℕ) (trace span : String) (p : List Record)
    → page records limit trace span ≡ some (p, none)
    → walk (suc fuel) records limit trace span ≡ p
unfolding walk
walk-end fuel records limit trace span p e = rw (e, walk) refl

walk-next :
    (fuel : ℕ) (records : List Record) (limit : ℕ) (trace span : String) (p : List Record)
    (r : Record)
    → page records limit trace span ≡ some (p, some r)
    → walk (suc fuel) records limit trace span ≡ p ++ walk fuel records limit r.trace_id r.span_id
unfolding walk
walk-next fuel records limit trace span p r e = rw (e, walk) refl

record_before-lt :
    (records : List Record) (m : ℕ)
    → 1 ≤ m
    → m < length records
    → (n : ℕ) × (r : Record) × (suc n ≡ m)
      × (get_elem? records n ≡ some r)
      × (record_before records m ≡ some r)
record_before-lt records zero h k = absurd (omega arith)
record_before-lt records (suc n) h k =
    let (r, g) = get_elem?-lt records n (omega arith) in (n, r, refl, g, g)

-- A page is the last one, or its cursor is the record before its end.
page_from-cases :
    (records : List Record) (limit start : ℕ)
    → 1 ≤ limit
    → ((length records ≤ start + limit)
        × (page_from records limit start
            ≡ some (set_parent_availability (slice records start (length records)) records, none)))
      ⊎ ((n : ℕ) × (r : Record) × (suc n ≡ start + limit)
          × (suc n < length records)
          × (get_elem? records n ≡ some r)
          × (page_from records limit start
              ≡ some
                  (set_parent_availability (slice records start (start + limit)) records, some r)))
unfolding page_from
page_from-cases records limit start h = elim (Bool-cases (ltb (start + limit) (length records))) [
  | inl e ↦
      let (n, r, q, g, b) = record_before-lt records (start + limit) (omega arith) (ground arith) in
      inr (n, r, q, rw q (ground arith), g, rw (e, b) refl)
  | inr e ↦ inl (ground arith, rw e refl)
]

start_of-get_elem? :
    (records : List Record) (n : ℕ) (r : Record)
    → Apart Separate records
    → All (λ r. r.trace_id ≢ "") records
    → get_elem? records n ≡ some r
    → start_of records r.trace_id r.span_id ≡ suc n
unfolding start_of
start_of-get_elem? records n r apart named g = ground (
  arith,
  position_after-get_elem? records n r apart g,
  eq_iff r.trace_id "",
  get_elem?-All (λ a. a.trace_id ≢ "") records n r named g,
)

page-start_of :
    (records : List Record) (limit : ℕ) (trace span : String) (start : ℕ)
    → start_of records trace span ≡ start
    → page records limit trace span ≡ page_from records limit start
unfolding page
page-start_of records limit trace span start e = ap (page_from records limit) e

slice_lem :
    (records : List Record) (start limit : ℕ)
    → slice records start (start + limit) ++ drop (start + limit) records ≡ drop start records
slice_lem records start limit =
    let e : start + limit - start ≡ limit = omega arith in
    rw e (take-append-drop_add start limit records)

slice-length :
    (records : List Record) (start : ℕ) → slice records start (length records) ≡ drop start records
slice-length records start =
    take-length_le (length records - start) (drop start records)
      (rw (length-drop start records) (omega arith))

module _ (records : List Record) (limit : ℕ) (positive : 1 ≤ limit) (apart : Apart Separate records)
    (named : All (λ r. r.trace_id ≢ "") records) where
  walk_last :
      (fuel : ℕ) (trace span : String) (start : ℕ)
      → page records limit trace span
        ≡ some (set_parent_availability (slice records start (length records)) records, none)
      → map forget (walk (suc fuel) records limit trace span) ≡ map forget (drop start records)
  walk_last fuel trace span start e = rw (walk-end fuel records limit trace span _ e) (
      set_parent_availability-forget (slice records start (length records)) records
      ∙ ap (map forget) (slice-length records start))

  walk_step :
      (fuel : ℕ) (trace span : String) (start : ℕ) (r : Record)
      → page records limit trace span
        ≡ some (set_parent_availability (slice records start (start + limit)) records, some r)
      → map forget (walk fuel records limit r.trace_id r.span_id)
        ≡ map forget (drop (start + limit) records)
      → map forget (walk (suc fuel) records limit trace span) ≡ map forget (drop start records)
  walk_step fuel trace span start r e rest =
      let this = slice records start (start + limit) in
      rw (walk-next fuel records limit trace span _ r e) (
        map-append (set_parent_availability this records)
          (walk fuel records limit r.trace_id r.span_id)
        ∙ rw (set_parent_availability-forget this records, rest)
            (sym (map-append this (drop (start + limit) records))
              ∙ ap (map forget) (slice_lem records start limit)))

  walk_from :
      (fuel : ℕ) (trace span : String) (start : ℕ)
      → start_of records trace span ≡ start
      → length records ≤ start + fuel
      → map forget (walk (suc fuel) records limit trace span) ≡ map forget (drop start records)
  walk_from zero trace span start s enough = elim (page_from-cases records limit start positive) [
    | inl (l, e) ↦
        walk_last zero trace span start (page-start_of records limit trace span start s ∙ e)
    | inr (n, r, q, k, g, e) ↦ absurd (omega arith)
  ]
  walk_from (suc fuel) trace span start s enough =
      elim (page_from-cases records limit start positive) [
        | inl (l, e) ↦
            walk_last (suc fuel) trace span start
              (page-start_of records limit trace span start s ∙ e)
        | inr (n, r, q, k, g, e) ↦
            walk_step (suc fuel) trace span start r
              (page-start_of records limit trace span start s ∙ e)
              (walk_from fuel r.trace_id r.span_id (start + limit)
                (start_of-get_elem? records n r apart named g ∙ q) (omega arith))
      ]

  -- Where no two records share both ids, every trace id is given and the limit is positive, a
  -- client that starts without a cursor and follows the cursors reads every record once, in order.
  pub walk_pages :
      (fuel : ℕ)
      → length records ≤ fuel
      → map forget (walk (suc fuel) records limit "" "") ≡ map forget records
  unfolding start_of
  walk_pages fuel enough = walk_from fuel "" "" 0 refl (omega arith)
