-- ===== src/Storage/Merge/Laws.antt =====
-- What the merge of two observations of an operation keeps and adds.
use mathlib.Core.Path.{subst}
use ai_engineering_productiv.Prelude.{
  String, ◌≡◌, ◌⊎◌, ◌≤◌, refl, ◌∙◌, inl, inr, arith, Bool, true, false, ◌&&◌, Option, none, some,
  List, [], ◌∷◌, ◌==◌, if◌then◌else◌, Bool-cases, Option-cases, eq_iff,
}
use ai_engineering_productiv.Canonical.{
  Value, object, Fields, end, field, find_field, put_field, as_object, Operation,
}
use ai_engineering_productiv.Canonical.Assign.{
  find_field-put_field, find_field-put_field_ne, IsMap, IsMapValue,
}
use ai_engineering_productiv.Storage.Merge.{
  provenance_rank, higher_provenance, merge_value, deep_merge_maps, is_unset,
  merge_operation_evidence,
}

unfoldable pub merge_entry : Option Value → Option Value → Option Value
unfolding merge_value
merge_entry none incoming = incoming
merge_entry (some existing) none = some existing
merge_entry (some existing) (some value) = some (merge_value existing value)

-- The value that the body of the loop writes.
abbrev pub write_of : Option Value → Value → Value
write_of o value = elim o [ none ↦ value | some existing ↦ merge_value existing value ]

abbrev pub written : Fields → String → Value → Value
written base key value = write_of (find_field base key) value

pub write_of-entry :
    (o : Option Value) (value : Value) → some (write_of o value) ≡ merge_entry o (some value)
unfolding merge_entry
write_of-entry none value = refl
write_of-entry (some existing) value = refl

pub merge_entry-none : (o : Option Value) → o ≡ merge_entry o none
unfolding merge_entry
merge_entry-none none = refl
merge_entry-none (some existing) = refl

-- One key of the merged map.
pub find_field-deep_merge_maps :
    (base incoming : Fields) (k : String)
    → IsMap incoming
    → find_field (deep_merge_maps base incoming) k
      ≡ merge_entry (find_field base k) (find_field incoming k)
unfolding deep_merge_maps find_field merge_entry
find_field-deep_merge_maps base end k m = merge_entry-none (find_field base k)
find_field-deep_merge_maps base (field key value rest) k (once, nested, m) =
    find_field-deep_merge_maps (put_field base key (written base key value)) rest k m
    ∙ elim (Bool-cases (key == k)) [
      | inl e ↦
          let same : key ≡ k = (eq_iff key k).0 e in
          let here : find_field (put_field base key (written base key value)) k
              ≡ some (written base key value) =
            subst
              (λ z.
                find_field (put_field base key (written base key value)) z
                ≡ some (written base key value))
              same (find_field-put_field base key (written base key value)) in
          let gone : find_field rest k ≡ none = subst (λ z. find_field rest z ≡ none) same once in
          let entry : some (written base key value) ≡ merge_entry (find_field base k) (some value) =
            subst
              (λ z. some (written base key value) ≡ merge_entry (find_field base z) (some value))
              same (write_of-entry (find_field base key) value) in
          rw e (rw (here, gone) entry)
      | inr e ↦ rw e (rw (find_field-put_field_ne base key k (written base key value) e) refl)
    ]

-- The value at the end of a path of keys, where it is not a map.
unfoldable pub path_leaf : Option Value → List String → Option Value
unfolding as_object find_field
path_leaf none ls = none
path_leaf (some v) [] = elim (as_object v) [ none ↦ some v | some fs ↦ none ]
path_leaf (some v) (l ∷ ls) = elim (as_object v) [
  | none ↦ none
  | some fs ↦ path_leaf (find_field fs l) ls
]

abbrev pub leaf_at : Fields → String → List String → Option Value
leaf_at fs k ls = path_leaf (find_field fs k) ls

-- Is there nothing in the way of a value at the path?
unfoldable pub path_free : Option Value → List String → Bool
unfolding as_object find_field
path_free none ls = true
path_free (some v) [] = false
path_free (some v) (l ∷ ls) = elim (as_object v) [
  | none ↦ false
  | some fs ↦ path_free (find_field fs l) ls
]

abbrev pub is_free : Fields → String → List String → Bool
is_free fs k ls = path_free (find_field fs k) ls

path_free-path_leaf :
    (o : Option Value) (ls : List String) → path_free o ls ≡ true → path_leaf o ls ≡ none
unfolding path_free path_leaf
path_free-path_leaf none ls h = refl
path_free-path_leaf (some v) [] h = absurd (cc h)
path_free-path_leaf (some v) (l ∷ ls) h = elim (Option-cases (as_object v)) [
  | inl e ↦ absurd (cc (rw (e, path_free) at h))
  | inr (fs, e) ↦
      rw (e, path_leaf) (path_free-path_leaf (find_field fs l) ls (rw (e, path_free) at h))
]

pub as_object-some : (v : Value) (fs : Fields) → as_object v ≡ some fs → v ≡ object fs
unfolding as_object
as_object-some v fs e = ground arith

merge_value-leaf : (v w : Value) → as_object v ≡ none → merge_value v w ≡ v
unfolding as_object merge_value
merge_value-leaf v w e = ground arith

pub merge_value-by_leaf : (v w : Value) → as_object w ≡ none → merge_value v w ≡ v
unfolding as_object merge_value
merge_value-by_leaf v w e = ground arith

IsMap-found :
    (fs : Fields) (k : String) (v : Value) → IsMap fs → find_field fs k ≡ some v → IsMapValue v
unfolding find_field
IsMap-found end k v m e = absurd (cc e)
IsMap-found (field key w fs) k v (once, nested, m) e = elim (Bool-cases (key == k)) [
  | inl q ↦ let same : w ≡ v = cc (rw q at e) in subst IsMapValue same nested
  | inr q ↦ IsMap-found fs k v m (rw q at e)
]

path_leaf-kept :
    (o : Option Value) (ls : List String)
    → path_leaf o ls ≡ (if path_free o ls then none else path_leaf o ls)
path_leaf-kept o ls = elim (Bool-cases (path_free o ls)) [
  | inl e ↦ rw e (path_free-path_leaf o ls e)
  | inr e ↦ rw e refl
]

path_free-by_leaf :
    (v : Value) (ls : List String) → as_object v ≡ none → path_free (some v) ls ≡ false
unfolding path_free
path_free-by_leaf v [] e = refl
path_free-by_leaf v (l ∷ ls) e = rw (e, path_free) refl

path_leaf-by_leaf :
    (v w : Value) (ls : List String)
    → as_object w ≡ none
    → path_leaf (some v) ls
      ≡ (if path_free (some v) ls then path_leaf (some w) ls else path_leaf (some v) ls)
unfolding path_leaf path_free
path_leaf-by_leaf v w [] e = refl
path_leaf-by_leaf v w (l ∷ ls) e =
    let nothing : path_leaf (some w) (l ∷ ls) ≡ none = rw (e, path_leaf) refl in
    rw nothing (path_leaf-kept (some v) (l ∷ ls))

-- What the merge of two values has at a path of keys below them.
path_leaf-merge_entry :
    (ls : List String) (o i : Option Value)
    → ((v : Value) → i ≡ some v → IsMapValue v)
    → path_leaf (merge_entry o i) ls ≡ (if path_free o ls then path_leaf i ls else path_leaf o ls)
unfolding merge_entry path_leaf path_free
path_leaf-merge_entry ls none i m = refl
path_leaf-merge_entry ls (some v) none m = path_leaf-kept (some v) ls
path_leaf-merge_entry [] (some v) (some w) m = elim (Option-cases (as_object v)) [
  | inl e ↦ rw (merge_value-leaf v w e) refl
  | inr (fs, e) ↦ elim (Option-cases (as_object w)) [
    | inl f ↦ rw (merge_value-by_leaf v w f) refl
    | inr (gs, f) ↦ rw (as_object-some v fs e, as_object-some w gs f) refl
  ]
]
path_leaf-merge_entry (l ∷ ls) (some v) (some w) m = elim (Option-cases (as_object v)) [
  | inl e ↦ rw (merge_value-leaf v w e) (rw (path_free-by_leaf v (l ∷ ls) e) refl)
  | inr (fs, e) ↦ elim (Option-cases (as_object w)) [
    | inl f ↦ rw (merge_value-by_leaf v w f) (path_leaf-by_leaf v w (l ∷ ls) f)
    | inr (gs, f) ↦
        let map : IsMap gs = subst IsMapValue (as_object-some w gs f) (m w refl) in
        rw (as_object-some v fs e, as_object-some w gs f)
          (rw (find_field-deep_merge_maps fs gs l map) (
            path_leaf-merge_entry ls (find_field fs l) (find_field gs l)
              (λ u q. IsMap-found gs l u map q)))
  ]
]

-- What deepMergeMaps has at a path of keys is what the incoming map has there, where the base has
-- nothing in the way, and what the base has there otherwise.
pub leaf_at-deep_merge_maps :
    (base incoming : Fields) (k : String) (ls : List String)
    → IsMap incoming
    → leaf_at (deep_merge_maps base incoming) k ls
      ≡ (if is_free base k ls then leaf_at incoming k ls else leaf_at base k ls)
leaf_at-deep_merge_maps base incoming k ls m = rw (find_field-deep_merge_maps base incoming k m) (
    path_leaf-merge_entry ls (find_field base k) (find_field incoming k)
      (λ v e. IsMap-found incoming k v m e))

-- The merge of two observations, the incoming one with no key of a map twice, never weakens what the
-- stored one has: at any path of keys, a value of the stored extensions that is no map stays; the
-- rank of the provenance is no lower than either; and an outcome or a category is unset only if both
-- are.
pub merge_operation_evidence_lem :
    (stored incoming : Operation) (k : String) (ls : List String)
    → IsMap incoming.provider_extensions
    → ((leaf_at stored.provider_extensions k ls ≡ none)
        ⊎ (leaf_at (merge_operation_evidence stored incoming).provider_extensions k ls
            ≡ leaf_at stored.provider_extensions k ls))
      × (provenance_rank stored.provenance
          ≤ provenance_rank (merge_operation_evidence stored incoming).provenance)
      × (provenance_rank incoming.provenance
          ≤ provenance_rank (merge_operation_evidence stored incoming).provenance)
      × (is_unset (merge_operation_evidence stored incoming).outcome
          ≡ (is_unset stored.outcome && is_unset incoming.outcome))
      × (is_unset (merge_operation_evidence stored incoming).category
          ≡ (is_unset stored.category && is_unset incoming.category))
unfolding merge_operation_evidence higher_provenance
merge_operation_evidence_lem stored incoming k ls m = (
  elim (Bool-cases (is_free stored.provider_extensions k ls)) [
    | inl f ↦ inl (path_free-path_leaf (find_field stored.provider_extensions k) ls f)
    | inr f ↦ inr (
        leaf_at-deep_merge_maps stored.provider_extensions incoming.provider_extensions k ls m
        ∙ rw f refl)
  ],
  ground arith,
  ground arith,
  ground arith,
  ground arith,
)
