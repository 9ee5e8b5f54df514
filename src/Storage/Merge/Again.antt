-- ===== src/Storage/Merge/Again.antt =====
-- Merging the same observation a second time changes nothing.
use mathlib.Core.Path.{subst}
use ai_engineering_productiv.Prelude.{
  String, ◌≡◌, refl, sym, ap, ◌∙◌, inl, inr, arith, Bool, true, false, Option, none, some, List, [],
  ◌∷◌, ◌==◌, if◌then◌else◌, ltb, Bool-cases, Option-cases, eq_iff, eq_refl,
}
use ai_engineering_productiv.Canonical.{
  Value, null, boolean, integer, float, json_number, text, texts, array, object, objects, Fields,
  end, field, find_field, as_object, Operation,
}
use ai_engineering_productiv.Canonical.Assign.{put_field-same, IsMap, IsMapValue}
use ai_engineering_productiv.Storage.Merge.{
  provenance_rank, higher_provenance, merge_value, deep_merge_maps, is_unset,
  merge_operation_evidence, same_row, save_operation,
}
use ai_engineering_productiv.Storage.Merge.Laws.{
  merge_entry, written, write_of-entry, find_field-deep_merge_maps, merge_value-by_leaf,
  as_object-some,
}

-- The entries of the second map are in the first one.
abbrev Entries : Fields → Fields → Type 0
Entries fs end = Unit
Entries fs (field k v rest) = (find_field fs k ≡ some v) × Entries fs rest

text_apart : (a b : String) → (a == b) ≡ false → (b == a) ≡ false
text_apart a b h = elim (Bool-cases (b == a)) [
  | inl e ↦
      let same : b ≡ a = (eq_iff b a).0 e in
      absurd (cc (h, subst (λ z. (z == b) ≡ true) same (eq_refl b)))
  | inr e ↦ e
]

Entries-weaker :
    (fs rest : Fields) (key : String) (w : Value)
    → find_field rest key ≡ none
    → Entries fs rest
    → Entries (field key w fs) rest
unfolding find_field
Entries-weaker fs end key w absent h = tt
Entries-weaker fs (field k v rest) key w absent (e, h) = elim (Bool-cases (k == key)) [
  | inl q ↦ absurd (cc (rw q at absent))
  | inr q ↦ (rw (text_apart k key q) e, Entries-weaker fs rest key w (rw q at absent) h)
]

IsMap-Entries : (fs : Fields) → IsMap fs → Entries fs fs
unfolding find_field
IsMap-Entries end m = tt
IsMap-Entries (field k v fs) (once, nested, m) =
    (rw (eq_refl k) refl, Entries-weaker fs fs k v once (IsMap-Entries fs m))

-- What the base has for the keys of the map is the outcome of a merge with the map's values.
abbrev Covers : Fields → Fields → Type 0
Covers base end = Unit
Covers base (field k v rest) =
    ((o : Option Value) × (find_field base k ≡ merge_entry o (some v))) × Covers base rest

Covers-merged :
    (base fs rest : Fields) → IsMap fs → Entries fs rest → Covers (deep_merge_maps base fs) rest
Covers-merged base fs end m h = tt
Covers-merged base fs (field k v rest) m (e, h) = (
  (
    find_field base k,
    find_field-deep_merge_maps base fs k m ∙ ap (merge_entry (find_field base k)) e,
  ),
  Covers-merged base fs rest m h,
)

Covers-self : (fs rest : Fields) → Entries fs rest → Covers fs rest
unfolding merge_entry
Covers-self fs end h = tt
Covers-self fs (field k v rest) (e, h) = ((none, e), Covers-self fs rest h)

-- A merge with the values does not change what the base has.
abbrev Absorbs : Fields → Fields → Type 0
Absorbs base end = Unit
Absorbs base (field k v rest) =
    (merge_entry (find_field base k) (some v) ≡ find_field base k) × Absorbs base rest

Absorbs-merged : (base fs : Fields) → Absorbs base fs → deep_merge_maps base fs ≡ base
unfolding deep_merge_maps
Absorbs-merged base end h = refl
Absorbs-merged base (field k v rest) (e, h) =
    let same : find_field base k ≡ some (written base k v) =
      sym (write_of-entry (find_field base k) v ∙ e) in
    rw (put_field-same base k (written base k v) same) (Absorbs-merged base rest h)

leaf-again :
    (v : Value) (o : Option Value)
    → as_object v ≡ none
    → merge_entry (merge_entry o (some v)) (some v) ≡ merge_entry o (some v)
unfolding merge_entry
leaf-again v none e = ap some (merge_value-by_leaf v v e)
leaf-again v (some w) e = ap some (merge_value-by_leaf (merge_value w v) v e)

-- A value that is no map stays.
kept-again :
    (w : Value) (fs : Fields)
    → as_object w ≡ none
    → merge_value (merge_value w (object fs)) (object fs) ≡ merge_value w (object fs)
unfolding as_object merge_value
kept-again w fs e = ground arith

mutual
  unfolding merge_entry merge_value as_object

  value-again :
      (v : Value)
      → IsMapValue v
      → (o : Option Value) → merge_entry (merge_entry o (some v)) (some v) ≡ merge_entry o (some v)
  value-again (object fs) m none =
      ap (λ z. some (object z))
        (Absorbs-merged fs fs (Covers-Absorbs fs fs m (Covers-self fs fs (IsMap-Entries fs m))))
  value-again (object fs) m (some w) = elim (Option-cases (as_object w)) [
    | inl e ↦ ap some (kept-again w fs e)
    | inr (es, e) ↦
        let both : deep_merge_maps (deep_merge_maps es fs) fs ≡ deep_merge_maps es fs =
          Absorbs-merged (deep_merge_maps es fs) fs (
            Covers-Absorbs fs (deep_merge_maps es fs) m
              (Covers-merged es fs fs m (IsMap-Entries fs m))) in
        subst
          (λ z.
            merge_entry (merge_entry (some z) (some (object fs))) (some (object fs))
            ≡ merge_entry (some z) (some (object fs)))
          (sym (as_object-some w es e)) (ap (λ z. some (object z)) both)
  ]
  value-again null m o = leaf-again null o refl
  value-again (boolean b) m o = leaf-again (boolean b) o refl
  value-again (integer n) m o = leaf-again (integer n) o refl
  value-again (float n) m o = leaf-again (float n) o refl
  value-again (json_number n) m o = leaf-again (json_number n) o refl
  value-again (text s) m o = leaf-again (text s) o refl
  value-again (texts ts) m o = leaf-again (texts ts) o refl
  value-again (array vs) m o = leaf-again (array vs) o refl
  value-again (objects os) m o = leaf-again (objects os) o refl

  Covers-Absorbs : (fs base : Fields) → IsMap fs → Covers base fs → Absorbs base fs
  Covers-Absorbs end base m h = tt
  Covers-Absorbs (field k v rest) base (once, nested, m) ((o, e), h) =
      (rw e (value-again v nested o), Covers-Absorbs rest base m h)

pub deep_merge_maps-again :
    (base fs : Fields)
    → IsMap fs
    → deep_merge_maps (deep_merge_maps base fs) fs ≡ deep_merge_maps base fs
deep_merge_maps-again base fs m = Absorbs-merged (deep_merge_maps base fs) fs (
    Covers-Absorbs fs (deep_merge_maps base fs) m (Covers-merged base fs fs m (IsMap-Entries fs m)))

higher_provenance-again :
    (a b : String) → higher_provenance (higher_provenance a b) b ≡ higher_provenance a b
unfolding higher_provenance
higher_provenance-again a b = ground arith

filled-again :
    (s t : String)
    → (if is_unset (if is_unset s then t else s) then t else (if is_unset s then t else s))
      ≡ (if is_unset s then t else s)
filled-again s t = ground arith

merge_operation_evidence-again :
    (row o : Operation)
    → IsMap o.provider_extensions
    → merge_operation_evidence (merge_operation_evidence row o) o ≡ merge_operation_evidence row o
unfolding merge_operation_evidence
merge_operation_evidence-again row o m =
    rw (deep_merge_maps-again row.provider_extensions o.provider_extensions m) (
      rw (higher_provenance-again row.provenance o.provenance)
        (rw (filled-again row.outcome o.outcome, filled-again row.category o.category) refl))

choose-same : (b : Bool) (s : String) → (if b then s else s) ≡ s
choose-same true s = refl
choose-same false s = refl

merge_operation_evidence_self :
    (o : Operation) → IsMap o.provider_extensions → merge_operation_evidence o o ≡ o
unfolding merge_operation_evidence higher_provenance
merge_operation_evidence_self o m =
    let extensions : deep_merge_maps o.provider_extensions o.provider_extensions
        ≡ o.provider_extensions =
      Absorbs-merged o.provider_extensions o.provider_extensions (
        Covers-Absorbs o.provider_extensions o.provider_extensions m (
          Covers-self o.provider_extensions o.provider_extensions
            (IsMap-Entries o.provider_extensions m))) in
    rw extensions (
      rw
        (
          choose-same (ltb (provenance_rank o.provenance) (provenance_rank o.provenance))
              o.provenance,
          choose-same (is_unset o.outcome) o.outcome,
          choose-same (is_unset o.category) o.category,
        )
        refl)

same_row_self : (o : Operation) → same_row o o ≡ true
same_row_self o = rw (eq_refl o.session_id, eq_refl o.operation_id) refl

same_row-merged :
    (row o p : Operation) → same_row (merge_operation_evidence row o) p ≡ same_row row p
unfolding merge_operation_evidence
same_row-merged row o p = refl

-- Saving an operation that was just saved changes no row of the table, whatever was observed of it
-- before; the maps of its extensions have no key twice, as every Go map.
pub save_operation-again :
    (rows : List Operation) (o : Operation)
    → IsMap o.provider_extensions
    → save_operation (save_operation rows o) o ≡ save_operation rows o
unfolding save_operation
save_operation-again [] o m =
    rw (same_row_self o) (ap (λ z. z ∷ []) (merge_operation_evidence_self o m))
save_operation-again (row ∷ rows) o m = elim (Bool-cases (same_row row o)) [
  | inl e ↦ rw e (
      rw (same_row-merged row o o)
        (rw e (ap (λ z. z ∷ rows) (merge_operation_evidence-again row o m))))
  | inr e ↦ rw e (rw e (ap (λ z. row ∷ z) (save_operation-again rows o m)))
]
