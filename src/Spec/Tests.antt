-- ===== src/Spec/Tests.antt =====
-- Runs of the specification of models at small inputs.
use codegen_product_kit.Base.{ℕ, ◌≡◌, refl, true, false, ◌&&◌, not, none, some, [], ◌∷◌, is_some}
use codegen_product_kit.Base.Dict.{lookup}
use codegen_product_kit.Spec.Types.{
  primitive, list, optional, int, uuid, type_spec_to_typescript, fold_type_spec,
}
use codegen_product_kit.Spec.Models.{
  FieldSpec, VariantSpec, ModelSpec, holds, is_required, get_variant_fields, model_to_schema,
  to_json_schema, has_key,
}
use codegen_product_kit.Spec.Models.Variants.{KeysUnique, model_to_schema_lem}
use codegen_product_kit.Spec.Models.Nullable.{has_null_branch, nullable_iff}

abbrev id_field : FieldSpec ℕ
id_field = record {
  type_spec = primitive uuid;
  ge = none;
  gt = none;
  le = none;
  lt = none;
  min_length = none;
  max_length = none;
  readonly = true;
  optional = false;
  default = none;
}

abbrev age_field : FieldSpec ℕ
age_field = record id_field {
  type_spec = optional (primitive int);
  ge = some 0;
  readonly = false;
  optional = true;
}

abbrev create : VariantSpec
create = record { exclude = []; optional = "age" ∷ [] }

abbrev person : ModelSpec ℕ
person = record {
  fields = ("id", id_field) ∷ ("age", age_field) ∷ [];
  variants = ("Create", create) ∷ [];
}

person-KeysUnique : KeysUnique person.fields
unfolding lookup
person-KeysUnique = (refl, (refl, tt))

model_to_schema_example :
    let base = model_to_schema "Person" person none in
    let schema = model_to_schema "Person" person (some ("Create", create)) in
    (is_some (lookup "age" base.properties) ≡ is_some (lookup "age" person.fields))
    × (holds base.required "age"
        ≡ elim (lookup "age" person.fields) [ none ↦ false | some f ↦ is_required f ])
    × (is_some (lookup "age" schema.properties)
        ≡ is_some (lookup "age" (get_variant_fields "Create" person)))
    × (holds schema.required "age" ≡ elim (lookup "age" (get_variant_fields "Create" person)) [
      | none ↦ false
      | some f ↦ not (holds create.optional "age") && is_required f
    ])
model_to_schema_example =
    model_to_schema_lem "Person" "Create" "age" person create person-KeysUnique refl

nullable_iff_example :
    (has_null_branch (to_json_schema age_field) ≡ true)
    × (has_key "anyOf" (to_json_schema age_field) ≡ true)
nullable_iff_example = nullable_iff age_field

-- The postfix of a list binds closer than the union of an optional element.
list_of_optional : type_spec_to_typescript (list (optional (primitive int))) ≡ "number | null[]"
unfolding type_spec_to_typescript fold_type_spec
list_of_optional = refl
