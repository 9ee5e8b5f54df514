-- ===== src/Storage/Merge.antt =====
-- internal/storage/sqlite/sqlite.go: saveOperationTx and what it merges.
pub mod Laws
pub mod Again
use ai_engineering_productiv.Prelude.{
  ℕ, String, Bool, true, false, ◌||◌, ◌&&◌, Option, none, some, List, [], ◌∷◌, ◌==◌, if◌then◌else◌,
  ltb,
}
use ai_engineering_productiv.Canonical.{
  Value, object, Fields, end, field, find_field, put_field, Operation,
}

unfoldable pub provenance_rank : String → ℕ
provenance_rank p = if p == "observed" then 2 else if p == "inferred" then 1 else 0

unfoldable pub higher_provenance : String → String → String
unfolding provenance_rank
higher_provenance a b = if ltb (provenance_rank a) (provenance_rank b) then b else a

-- deepMergeMaps, and what becomes of a key that both maps have.
unfoldable mutual
  pub merge_value : Value → Value → Value
  merge_value (object base) (object incoming) = object (deep_merge_maps base incoming)
  merge_value existing value = existing

  pub deep_merge_maps : Fields → Fields → Fields
  deep_merge_maps base end = base
  deep_merge_maps base (field key value rest) =
      deep_merge_maps
        (put_field base key (elim (find_field base key) [
          | none ↦ value
          | some existing ↦ merge_value existing value
        ]))
        rest

unfoldable pub is_unset : String → Bool
is_unset s = s == "" || s == "unknown"

unfoldable pub merge_operation_evidence : Operation → Operation → Operation
unfolding is_unset higher_provenance deep_merge_maps
merge_operation_evidence stored incoming = record stored {
  outcome = if is_unset stored.outcome then incoming.outcome else stored.outcome;
  category = if is_unset stored.category then incoming.category else stored.category;
  provenance = higher_provenance stored.provenance incoming.provenance;
  provider_extensions = deep_merge_maps stored.provider_extensions incoming.provider_extensions;
}

abbrev pub same_row : Operation → Operation → Bool
same_row a b = a.session_id == b.session_id && a.operation_id == b.operation_id

-- saveOperationTx on the rows of the table; (session_id, operation_id) is its key.
unfoldable pub save_operation : List Operation → Operation → List Operation
unfolding merge_operation_evidence
save_operation [] o = o ∷ []
save_operation (row ∷ rows) o =
    let rest = save_operation rows o in
    if same_row row o then merge_operation_evidence row o ∷ rows else row ∷ rest

-- saveOperationsTx
unfoldable pub save_operations : List Operation → List Operation → List Operation
unfolding save_operation
save_operations rows [] = rows
save_operations rows (o ∷ os) = save_operations (save_operation rows o) os
