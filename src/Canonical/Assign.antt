-- ===== src/Canonical/Assign.antt =====
-- Reading a map[string]any after a write, and the maps that Go has: no key is there twice.
use ai_engineering_productiv.Prelude.{
  String, ◌≡◌, refl, sym, ap, ◌∙◌, inl, inr, false, none, some, ◌==◌, Bool-cases, eq_iff, eq_refl,
}
use ai_engineering_productiv.Canonical.{Value, object, Fields, end, field, find_field, put_field}

pub find_field-put_field :
    (fs : Fields) (key : String) (v : Value) → find_field (put_field fs key v) key ≡ some v
unfolding find_field put_field
find_field-put_field end key v = rw (eq_refl key) refl
find_field-put_field (field k w fs) key v = elim (Bool-cases (k == key)) [
  | inl e ↦ rw e (rw e refl)
  | inr e ↦ rw e (rw e (find_field-put_field fs key v))
]

pub find_field-put_field_ne :
    (fs : Fields) (key other : String) (v : Value)
    → (key == other) ≡ false
    → find_field (put_field fs key v) other ≡ find_field fs other
unfolding find_field put_field
find_field-put_field_ne end key other v h = rw h refl
find_field-put_field_ne (field k w fs) key other v h = elim (Bool-cases (k == key)) [
  | inl e ↦
      let same : k ≡ key = (eq_iff k key).0 e in
      let apart : (k == other) ≡ false = ap (λ z. z == other) same ∙ h in rw e (rw apart refl)
  | inr e ↦ rw e (elim (Bool-cases (k == other)) [
    | inl o ↦ rw o refl
    | inr o ↦ rw o (find_field-put_field_ne fs key other v h)
  ])
]

pub put_field-same :
    (fs : Fields) (key : String) (v : Value) → find_field fs key ≡ some v → put_field fs key v ≡ fs
unfolding find_field put_field
put_field-same end key v h = absurd (cc h)
put_field-same (field k w fs) key v h = elim (Bool-cases (k == key)) [
  | inl e ↦ let same : w ≡ v = cc (rw e at h) in rw e (ap (λ z. field k z fs) (sym same))
  | inr e ↦ rw e (ap (field k w) (put_field-same fs key v (rw e at h)))
]

-- No key is there twice, in the map and in the maps it holds as values.
abbrev mutual
  pub IsMapValue : Value → Type 0
  IsMapValue (object fs) = IsMap fs
  IsMapValue _ = Unit

  pub IsMap : Fields → Type 0
  IsMap end = Unit
  IsMap (field k v fs) = (find_field fs k ≡ none) × IsMapValue v × IsMap fs
