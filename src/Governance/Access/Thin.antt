-- ===== src/Governance/Access/Thin.antt =====
-- A thin event holds exactly the access that it was built for.
use ai_engineering_productiv.Prelude.{
  ℕ, String, ◌≡◌, false, none, some, List, [], ◌∷◌, arith, ◌==◌, Option-cases, inl, inr, contains,
  trim_space, All, All-append,
}
use ai_engineering_productiv.Canonical.{
  Value, object, array, text, Values, nil, cons, Fields, end, field, Event,
}
use ai_engineering_productiv.Governance.Access.{
  AccessObservation, filesystem_read, shell_command, leaf_access, leaf_text, walk_accesses,
  walk_values, walk_fields, collect_accesses, thin_access_event, or_walk,
}

-- What is recorded is never blank.
abbrev pub IsObserved : AccessObservation → Type 0
IsObserved o = (trim_space o.value == "") ≡ false

leaf_text-IsObserved :
    (key s : String) (o : AccessObservation) → leaf_text key s ≡ some o → IsObserved o
unfolding leaf_text
leaf_text-IsObserved key s o e = ground arith

or_walk-IsObserved :
    (key : String) (v : Value) (walked : List AccessObservation)
    → All IsObserved walked
    → All IsObserved (or_walk (leaf_access key v) walked)
unfolding leaf_access
or_walk-IsObserved key (text s) walked h = elim (Option-cases (leaf_text key s)) [
  | inl e ↦ rw e h
  | inr (o, e) ↦ rw e (leaf_text-IsObserved key s o e, tt)
]
or_walk-IsObserved key _ walked h = h

mutual
  unfolding walk_accesses

  walk_accesses-IsObserved : (v : Value) → All IsObserved (walk_accesses v)
  walk_accesses-IsObserved (object fs) = walk_fields-IsObserved fs
  walk_accesses-IsObserved (array vs) = walk_values-IsObserved vs
  walk_accesses-IsObserved _ = tt

  walk_values-IsObserved : (vs : Values) → All IsObserved (walk_values vs)
  walk_values-IsObserved nil = tt
  walk_values-IsObserved (cons v vs) =
      All-append IsObserved (walk_accesses v) (walk_values vs) (walk_accesses-IsObserved v)
        (walk_values-IsObserved vs)

  walk_fields-IsObserved : (fs : Fields) → All IsObserved (walk_fields fs)
  walk_fields-IsObserved end = tt
  walk_fields-IsObserved (field key v fs) =
      All-append IsObserved (or_walk (leaf_access key v) (walk_accesses v)) (walk_fields fs)
        (or_walk-IsObserved key v (walk_accesses v) (walk_accesses-IsObserved v))
        (walk_fields-IsObserved fs)

pub collect_accesses-IsObserved : (event : Event) → All IsObserved (collect_accesses event)
unfolding collect_accesses
collect_accesses-IsObserved event =
    All-append IsObserved (walk_fields event.attributes) (walk_fields event.provider_extensions)
      (walk_fields-IsObserved event.attributes) (walk_fields-IsObserved event.provider_extensions)

source_id_no_access : (s : String) → leaf_text "source_event_id" s ≡ none
unfolding leaf_text contains
source_id_no_access s = ground arith

path_access :
    (s : String)
    → (trim_space s == "") ≡ false
    → leaf_text "file_path" s ≡ some (record { method = filesystem_read; value = s })
unfolding leaf_text contains
path_access s h = rw h

command_access :
    (s : String)
    → (trim_space s == "") ≡ false
    → leaf_text "command" s ≡ some (record { method = shell_command; value = s })
unfolding leaf_text contains
command_access s h = rw h

-- The thin event of a recorded access holds this access and no other.
pub collect_accesses-thin_access_event :
    (event : Event) (o : AccessObservation) (index : ℕ)
    → IsObserved o
    → collect_accesses (thin_access_event event o index) ≡ o ∷ []
unfolding collect_accesses thin_access_event walk_accesses leaf_access
collect_accesses-thin_access_event event o index h =
    elim o.method
      as (λ m.
        collect_accesses (thin_access_event event (record { method = m; value = o.value }) index)
        ≡ record { method = m; value = o.value } ∷ []) [
          | filesystem_read ↦ simp (source_id_no_access, path_access o.value h)
          | shell_command ↦ simp (source_id_no_access, command_access o.value h)
        ]
