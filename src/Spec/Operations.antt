-- ===== src/Spec/Operations.antt =====
-- Operations and their transports, framework/spec/operations.py, as data that pydantic has typed. A
-- validator gives the refusal that it raises, if any.
mod Transports
mod Tests
use Prim.Native.Char.{Char, code}
use Prim.Native.String
use Prim.Native.String.{◌++◌ as str_append}
use codegen_product_kit.Base.{
  ℕ, ◌≡◌, refl, String, Bool, true, false, ◌&&◌, ◌||◌, not, Option, none, some, List, [], ◌∷◌,
  if◌then◌else◌, ◌==◌, str_eq, is_some,
}
use codegen_product_kit.Base.Sorting.{any, select}

-- The text after a prefix, if it starts with it.
pub after_prefix : String → String → Option String
after_prefix String.[] s = some s
after_prefix (String.◌∷◌ c p) String.[] = none
after_prefix (String.◌∷◌ c p) (String.◌∷◌ d s) = if code c == code d then after_prefix p s else none

abbrev pub prepend : Char → Option String → Option String
prepend c none = none
prepend c (some s) = some (String.◌∷◌ c s)

-- The text before its last character, if that is a closing bracket.
pub before_bracket : String → Option String
before_bracket String.[] = none
before_bracket (String.◌∷◌ c String.[]) = if code c == b']' then some "" else none
before_bracket (String.◌∷◌ c (String.◌∷◌ d s)) = prepend c (before_bracket (String.◌∷◌ d s))

abbrev pub inside : Option String → Option String
inside none = none
inside (some s) = before_bracket s

abbrev pub unwrapped : String → Option String → Option String → Bool × String
unwrapped ref (some s) o = (true, s)
unwrapped ref none (some s) = (true, s)
unwrapped ref none none = (false, ref)

-- `unwrap_list`
pub unwrap_list : String → Bool × String
unfolding after_prefix before_bracket
unwrap_list ref =
    unwrapped ref (inside (after_prefix "list[" ref)) (inside (after_prefix "List[" ref))

pub data Source : Type 0 where
  path query : Source

pub record ParamSpec : Type 0 where
  pub name : String
  pub type : String
  pub required : Bool
  pub source : Source

pub data Method : Type 0 where
  get post put patch delete : Method

pub record RestConfig : Type 0 where
  pub method : Method
  pub path : String
  pub status : Option ℕ

abbrev default_status : Method → ℕ
default_status post = 201
default_status delete = 204
default_status _ = 200

abbrev status_or : Option ℕ → ℕ → ℕ
status_or none n = n
status_or (some s) n = s

-- `RestConfig.effective_status`
pub effective_status : RestConfig → ℕ
effective_status r = status_or r.status (default_status r.method)

pub record EventsConfig : Type 0 where
  pub subscribe : Option String
  pub publish_on_success : Option String
  pub publish_on_error : Option String

-- A text that is given and not empty.
abbrev pub is_set : Option String → Bool
is_set none = false
is_set (some s) = not (str_eq s "")

-- `EventsConfig.validate_at_least_one`
pub valid_events : EventsConfig → Bool
valid_events e = is_set e.subscribe || is_set e.publish_on_success

pub record OperationSpec : Type 0 where
  pub name : String
  pub input_model : Option String
  pub output_model : Option String
  pub params : List ParamSpec
  pub rest : Option RestConfig
  pub events : Option EventsConfig

pub data OperationRefusal : Type 0 where
  no_direction no_transport no_input no_output : OperationRefusal

abbrev pub events_refusal :
    Option String → Option String → Option EventsConfig → Option OperationRefusal
events_refusal input output none = none
events_refusal input output (some e) =
    if is_set e.subscribe && not (is_set input)
    then some no_input
    else if is_set e.publish_on_success && not (is_set output)
    then some no_output
    else none

abbrev pub direction_ok : Option EventsConfig → Bool
direction_ok none = true
direction_ok (some e) = valid_events e

-- The validator of `EventsConfig`, then `validate_has_transport` and `validate_events_models`.
pub validate_operation : OperationSpec → Option OperationRefusal
unfolding valid_events
validate_operation op =
    if not (direction_ok op.events)
    then some no_direction
    else if not (is_some op.rest) && not (is_some op.events)
    then some no_transport
    else events_refusal op.input_model op.output_model op.events

abbrev output_of : Option String → Bool × Option String
output_of none = (false, none)
output_of (some ref) =
    if str_eq ref "" then (false, none) else ((unwrap_list ref).0, some (unwrap_list ref).1)

-- `response_many` and `base_output_model`
pub response_many : OperationSpec → Bool
unfolding unwrap_list
response_many op = (output_of op.output_model).0

pub base_output_model : OperationSpec → Option String
unfolding unwrap_list
base_output_model op = (output_of op.output_model).1

pub record DomainSpec : Type 0 where
  pub name : String
  pub operations : List OperationSpec

-- `get_rest_operations`
pub get_rest_operations : DomainSpec → List OperationSpec
get_rest_operations d = select (λ (op : OperationSpec). is_some op.rest) d.operations

-- `get_events_operations`
pub get_events_operations : DomainSpec → List OperationSpec
get_events_operations d = select (λ (op : OperationSpec). is_some op.events) d.operations
