-- ===== src/Spec/Operations/Tests.antt =====
-- The theorems at a reference and at an operation on both transports.
use Prim.Native.String.{◌++◌ as str_append}
use codegen_product_kit.Base.{◌≡◌, ◌⊎◌, inl, refl, String, true, Option, none, some, [], ◌∷◌}
use codegen_product_kit.Spec.Operations.{
  unwrap_list, after_prefix, before_bracket, post, OperationSpec, DomainSpec, validate_operation,
  valid_events, get_rest_operations, get_events_operations, no_output, effective_status,
  base_output_model,
}
use codegen_product_kit.Spec.Operations.Transports.{
  Among, NeedsModels, unwrap_list_lem, operations_offered,
}

unwrap_list_lem_example :
    (unwrap_list (str_append "list[" (str_append "User" "]")) ≡ (true, "User"))
    × (unwrap_list (str_append "List[" (str_append "User" "]")) ≡ (true, "User"))
unwrap_list_lem_example = unwrap_list_lem "User"

abbrev create : Option String → OperationSpec
create output = record {
  name = "create_user";
  input_model = some "UserCreate";
  output_model = output;
  params = [];
  rest = some (record { method = post; path = ""; status = none });
  events = some (record {
    subscribe = none;
    publish_on_success = some "user.created";
    publish_on_error = none;
  });
}

-- The answer of a POST is 201, and a list of users has the model User.
create_answers :
    (effective_status (record { method = post; path = ""; status = none }) ≡ 201)
    × (base_output_model (create (some "list[User]")) ≡ some "User")
unfolding effective_status base_output_model unwrap_list after_prefix before_bracket
create_answers = (refl, refl)

create_valid : validate_operation (create (some "User")) ≡ none
unfolding validate_operation valid_events
create_valid = refl

create_refused : validate_operation (create none) ≡ some no_output
unfolding validate_operation valid_events
create_refused = refl

abbrev users : DomainSpec
users = record { name = "users"; operations = create (some "User") ∷ [] }

operations_offered_example :
    (Among (create (some "User")) (get_rest_operations users)
      ⊎ Among (create (some "User")) (get_events_operations users))
    × NeedsModels (create (some "User")) (create (some "User")).events
operations_offered_example = operations_offered users (create (some "User")) (inl refl) create_valid
