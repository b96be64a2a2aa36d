-- ===== src/Spec/Models.antt =====
-- Fields, variants and models, framework/spec/models.py, once they are read from YAML.
pub mod Variants
pub mod Nullable
use Prim.Native.String.{◌++◌ as str_append}
use codegen_product_kit.Base.{
  ℕ, ◌≡◌, String, Bool, true, false, ◌&&◌, ◌||◌, not, Option, none, some, List, [], ◌∷◌, ◌++◌,
  if◌then◌else◌, str_eq, is_some,
}
use codegen_product_kit.Base.Dict.{Dict, lookup, insert}
use codegen_product_kit.Base.Sorting.{any}
use codegen_product_kit.Spec.Types.{
  TypeSpec, Json, Fields, text, flag, count, value, any_of, empty, field, put, nullable,
  type_spec_to_json_schema,
}

pub record FieldSpec (V : Type 0) : Type 0 where
  pub type_spec : TypeSpec
  pub ge : Option V
  pub gt : Option V
  pub le : Option V
  pub lt : Option V
  pub min_length : Option ℕ
  pub max_length : Option ℕ
  pub readonly : Bool
  pub optional : Bool
  pub default : Option V

pub record VariantSpec : Type 0 where
  pub exclude : List String
  pub optional : List String

pub record ModelSpec (V : Type 0) : Type 0 where
  pub fields : Dict (FieldSpec V)
  pub variants : Dict VariantSpec

abbrev pub holds : List String → String → Bool
holds names name = any (λ n. str_eq n name) names

module _ {V : Type 0} where
  pub has_key : String → Fields V → Bool
  has_key k empty = false
  has_key k (field l j s) = str_eq l k || has_key k s

  -- `schema.pop(k, None)`
  pub pop_key : String → Fields V → Fields V
  pop_key k empty = empty
  pop_key k (field l j s) = if str_eq l k then s else field l j (pop_key k s)

  abbrev put_value : String → Option V → Fields V → Fields V
  put_value k none s = s
  put_value k (some v) s = put k (value v) s

  abbrev put_count : String → Option ℕ → Fields V → Fields V
  put_count k none s = s
  put_count k (some n) s = put k (count n) s

  -- The assignments to `typed`.
  pub constrain : FieldSpec V → Fields V → Fields V
  constrain f s = put_count "maxLength" f.max_length (
      put_count "minLength" f.min_length (
        put_value "exclusiveMaximum" f.lt (
          put_value "maximum" f.le
            (put_value "exclusiveMinimum" f.gt (put_value "minimum" f.ge s)))))

  -- `typed` is the first branch of a schema that has `anyOf`, and the schema itself if it has not.
  pub on_typed : (Fields V → Fields V) → Fields V → Fields V
  on_typed g (field k (any_of inner null) s) = field k (any_of (g inner) null) s
  on_typed g s = g s

  abbrev annotated : FieldSpec V → Fields V → Fields V
  annotated f s =
      let s' = put_value "default" f.default s in
      if f.readonly then put "readOnly" (flag true) s' else s'

  abbrev with_null : FieldSpec V → Fields V → Fields V
  with_null f s =
      if f.optional && not (is_some f.default) && not (has_key "anyOf" s) then nullable s else s

  -- `FieldSpec.to_json_schema`
  pub to_json_schema : FieldSpec V → Fields V
  unfolding on_typed constrain has_key
  to_json_schema f =
      annotated f (with_null f (on_typed (constrain f) (type_spec_to_json_schema f.type_spec)))

  abbrev pub is_required : FieldSpec V → Bool
  is_required f = not f.optional && not (is_some f.default)

  abbrev has_field : Dict (FieldSpec V) → String → Bool
  has_field fields name = any (λ e. str_eq e.0 name) fields

  -- `ModelSpec.validate_variant_references`
  pub validate_variant_references : ModelSpec V → Bool
  validate_variant_references m = not (
      any
        (λ e.
          any (λ n. not (has_field m.fields n)) e.1.exclude
          || any (λ n. not (has_field m.fields n)) e.1.optional)
        m.variants)

  abbrev pub is_dropped : VariantSpec → String → String → FieldSpec V → Bool
  is_dropped variant variant_name name f =
      holds variant.exclude name
      || (f.readonly && (str_eq variant_name "Create" || str_eq variant_name "Update"))

  pub kept_fields : VariantSpec → String → Dict (FieldSpec V) → Dict (FieldSpec V)
  kept_fields variant variant_name [] = []
  kept_fields variant variant_name ((name, f) ∷ fields) =
      let rest = kept_fields variant variant_name fields in
      if is_dropped variant variant_name name f then rest else (name, f) ∷ rest

  abbrev fields_for : String → Dict (FieldSpec V) → Option VariantSpec → Dict (FieldSpec V)
  fields_for variant_name fields none = fields
  fields_for variant_name fields (some variant) = kept_fields variant variant_name fields

  -- `ModelSpec.get_variant_fields`
  pub get_variant_fields : String → ModelSpec V → Dict (FieldSpec V)
  unfolding lookup kept_fields
  get_variant_fields variant_name m =
      fields_for variant_name m.fields (lookup variant_name m.variants)

-- What `_model_to_schema` returns; its `type` and `additionalProperties` are constant.
pub record ModelSchema (V : Type 0) : Type 0 where
  pub title : String
  pub properties : Dict (Fields V)
  pub required : List String

module _ {V : Type 0} where
  abbrev property : List String → String → FieldSpec V → Fields V
  property optional_fields name f =
      if holds optional_fields name then pop_key "default" (to_json_schema f) else to_json_schema f

  pub properties_of : List String → Dict (FieldSpec V) → Dict (Fields V)
  unfolding to_json_schema pop_key
  properties_of optional_fields [] = []
  properties_of optional_fields ((name, f) ∷ fields) =
      (name, property optional_fields name f) ∷ properties_of optional_fields fields

  pub required_of : List String → Dict (FieldSpec V) → List String
  required_of optional_fields [] = []
  required_of optional_fields ((name, f) ∷ fields) =
      let rest = required_of optional_fields fields in
      if not (holds optional_fields name) && is_required f then name ∷ rest else rest

  abbrev pub schema_with : String → List String → Dict (FieldSpec V) → ModelSchema V
  schema_with title optional_fields fields = record {
    title = title;
    properties = properties_of optional_fields fields;
    required = required_of optional_fields fields;
  }

  -- `_model_to_schema` of a variant that the model has; without one, `none`, it is of the model.
  pub model_to_schema : String → ModelSpec V → Option (String × VariantSpec) → ModelSchema V
  unfolding properties_of required_of get_variant_fields
  model_to_schema model_name m none = schema_with model_name [] m.fields
  model_to_schema model_name m (some (variant_name, variant)) =
      if str_eq variant_name ""
      then schema_with model_name [] m.fields
      else schema_with (str_append model_name variant_name) variant.optional
          (get_variant_fields variant_name m)

  pub variant_definitions :
      String → ModelSpec V → Dict VariantSpec → Dict (ModelSchema V) → Dict (ModelSchema V)
  unfolding model_to_schema insert
  variant_definitions model_name m [] d = d
  variant_definitions model_name m (v ∷ vs) d =
      variant_definitions model_name m vs
        (insert (str_append model_name v.0) (model_to_schema model_name m (some v)) d)

  -- `ModelsSpec.to_json_schema`
  pub definitions : Dict (ModelSpec V) → Dict (ModelSchema V) → Dict (ModelSchema V)
  unfolding variant_definitions
  definitions [] d = d
  definitions ((model_name, m) ∷ models) d = definitions models (
      variant_definitions model_name m m.variants
        (insert model_name (model_to_schema model_name m none) d))
