-- ===== src/Canonical.antt =====
-- internal/normalize/canonical/event.go and the dynamic values (`any`) that events carry.
pub mod Assign
use ai_engineering_productiv.Prelude.{
  ℕ, String, Bool, Option, none, some, List, ◌==◌, if◌then◌else◌,
}
use ai_engineering_productiv.Prelude.Int.{ℤ}

-- The values that an `any` of an event holds. A float64 is kept as what the code reads of it: the
-- int64 that it equals, if it equals one. `integer` is an int or an int64, `json_number` a
-- json.Number with the result of its Int64 method.
mutual
  pub data Value : Type 0 where
    null : Value
    boolean : Bool → Value
    integer : ℤ → Value
    float : Option ℤ → Value
    json_number : Option ℤ → Value
    text : String → Value
    texts : List String → Value
    array : Values → Value
    object : Fields → Value
    objects : Objects → Value

  pub data Values : Type 0 where
    nil : Values
    cons : Value → Values → Values

  -- A map[string]any: its entries, in the order of an iteration.
  pub data Fields : Type 0 where
    end : Fields
    field : String → Value → Fields → Fields

  pub data Objects : Type 0 where
    no_more : Objects
    one_more : Fields → Objects → Objects

-- `m[key]`, and whether the key is there. Reading a nil or a missing entry gives nil.
unfoldable pub find_field : Fields → String → Option Value
find_field end key = none
find_field (field k v fs) key = if k == key then some v else find_field fs key

unfoldable pub get_field : Fields → String → Value
unfolding find_field
get_field fs key = elim (find_field fs key) [ none ↦ null | some v ↦ v ]

-- `text, ok := v.(string)`
unfoldable pub as_text : Value → Option String
as_text (text s) = some s
as_text _ = none

-- `text, _ := v.(string)`
unfoldable pub text_or_empty : Value → String
text_or_empty (text s) = s
text_or_empty _ = ""

-- `m, ok := v.(map[string]any)`
unfoldable pub as_object : Value → Option Fields
as_object (object fs) = some fs
as_object _ = none

-- `m, _ := v.(map[string]any)`: a nil map reads as the empty one.
unfoldable pub object_or_empty : Value → Fields
object_or_empty (object fs) = fs
object_or_empty _ = end

-- `m[key] = v`
unfoldable pub put_field : Fields → String → Value → Fields
put_field end key v = field key v end
put_field (field k w fs) key v = if k == key then field k v fs else field k w (put_field fs key v)

-- The fields of canonical.Event that the modelled code reads. Instants count nanoseconds from Go's
-- zero time.
pub record Event : Type 0 where
  pub event_id : String
  pub event_type : String
  pub occurred_at : ℕ
  pub received_at : ℕ
  pub provider : String
  pub tool : String
  pub source_version : String
  pub session_id : String
  pub schema_version : String
  pub source_schema : String
  pub privacy_level : String
  pub attributes : Fields
  pub provider_extensions : Fields

-- records.go: the fields of canonical.AgentRelation that the modelled code reads.
pub record AgentRelation : Type 0 where
  pub relation_id : String
  pub session_id : String
  pub trace_id : String
  pub tool : String
  pub agent_id : String
  pub parent_agent_id : Option String
  pub provider_extensions : Fields

-- canonical.Operation
pub record Operation : Type 0 where
  pub schema_version : String
  pub operation_id : String
  pub session_id : String
  pub provider : String
  pub tool : String
  pub category : String
  pub outcome : String
  pub provenance : String
  pub provider_extensions : Fields

-- canonical.Session
pub record Session : Type 0 where
  pub schema_version : String
  pub session_id : String
  pub provider : String
  pub tool : String
  pub state : String
  pub started_at : ℕ
  pub completed_at : Option ℕ
  pub attributes : Fields
  pub provider_extensions : Fields
