-- ===== src/Spec/Types.antt =====
-- The types of fields, framework/spec/types.py. Values of Python that a specification carries, such as a
-- default, are of a type `V`, a parameter.
use Prim.Native.String.{◌++◌ as str_append}
use codegen_product_kit.Base.{
  if◌then◌else◌, ℕ, String, Bool, true, false, ◌&&◌, not, Option, none, some, List, [], ◌∷◌, leb,
  str_eq, length,
}
use codegen_product_kit.Base.Sorting.{any}

pub data Primitive : Type 0 where
  int string bool float datetime uuid json : Primitive

pub data TypeSpec : Type 0 where
  primitive : Primitive → TypeSpec
  list : TypeSpec → TypeSpec
  dict : TypeSpec → TypeSpec → TypeSpec
  optional : TypeSpec → TypeSpec
  enum : List String → Option String → TypeSpec

abbrev is_primitive : TypeSpec → Bool
is_primitive (primitive p) = true
is_primitive _ = false

abbrev no_repeats : List String → Bool
no_repeats [] = true
no_repeats (v ∷ vs) = not (any (λ w. str_eq w v) vs) && no_repeats vs

abbrev default_in : List String → Option String → Bool
default_in values none = true
default_in values (some d) = any (λ v. str_eq v d) values

-- The validators of `DictType` and `EnumType`, at every level. `is_name` is Python's test of an
-- identifier that starts with no underscore.
pub is_valid : (String → Bool) → TypeSpec → Bool
is_valid is_name (primitive p) = true
is_valid is_name (list t) = is_valid is_name t
is_valid is_name (dict k v) = is_primitive k && is_valid is_name k && is_valid is_name v
is_valid is_name (optional t) = is_valid is_name t
is_valid is_name (enum values default) =
    leb 2 (length values)
    && no_repeats values
    && not (any (λ v. not (is_name v)) values)
    && default_in values default

pub record TypeRenderer (T : Type 0) : Type 0 where
  pub primitive_of : Primitive → T
  pub list_of : T → T
  pub dict_of : T → T → T
  pub optional_of : T → T
  pub enum_of : List String → Option String → T

unfoldable pub fold_type_spec : {T : Type 0} → TypeSpec → TypeRenderer T → T
fold_type_spec (primitive p) r = r.primitive_of p
fold_type_spec (list t) r = r.list_of (fold_type_spec t r)
fold_type_spec (dict k v) r = r.dict_of (fold_type_spec k r) (fold_type_spec v r)
fold_type_spec (optional t) r = r.optional_of (fold_type_spec t r)
fold_type_spec (enum values default) r = r.enum_of values default

abbrev python_primitive : Primitive → String
python_primitive int = "int"
python_primitive string = "str"
python_primitive bool = "bool"
python_primitive float = "float"
python_primitive datetime = "AwareDatetime"
python_primitive uuid = "UUID"
python_primitive json = "Any"

abbrev pub python_renderer : TypeRenderer String
python_renderer = record {
  primitive_of = python_primitive;
  list_of = λ item. str_append "list[" (str_append item "]");
  dict_of =
      λ key value. str_append "dict[" (str_append key (str_append ", " (str_append value "]")));
  optional_of = λ inner. str_append inner " | None";
  enum_of = λ values default. "str";
}

pub type_spec_to_python : TypeSpec → String
unfolding fold_type_spec
type_spec_to_python t = fold_type_spec t python_renderer

abbrev typescript_primitive : Primitive → String
typescript_primitive int = "number"
typescript_primitive string = "string"
typescript_primitive bool = "boolean"
typescript_primitive float = "number"
typescript_primitive datetime = "string"
typescript_primitive uuid = "string"
typescript_primitive json = "unknown"

abbrev quoted : String → String
quoted v = str_append "\"" (str_append v "\"")

-- `" | ".join(...)`
abbrev joined : List String → String
joined [] = ""
joined (v ∷ []) = quoted v
joined (v ∷ w ∷ vs) = str_append (quoted v) (str_append " | " (joined (w ∷ vs)))

abbrev pub typescript_renderer : TypeRenderer String
typescript_renderer = record {
  primitive_of = typescript_primitive;
  list_of = λ item. str_append item "[]";
  dict_of =
      λ key value. str_append "Record<" (str_append key (str_append ", " (str_append value ">")));
  optional_of = λ inner. str_append inner " | null";
  enum_of = λ values default. joined values;
}

unfoldable pub type_spec_to_typescript : TypeSpec → String
unfolding fold_type_spec
type_spec_to_typescript t = fold_type_spec t typescript_renderer

-- A JSON Schema: a dict in insertion order. The values of the keys of constraints and of `default` are
-- Python's.
mutual
  pub data Json (V : Type 0) : Type 0 where
    text : String → Json V
    texts : List String → Json V
    flag : Bool → Json V
    count : ℕ → Json V
    value : V → Json V
    any_of : Fields V → Fields V → Json V
    object : Fields V → Json V

  pub data Fields (V : Type 0) : Type 0 where
    empty : Fields V
    field : String → Json V → Fields V → Fields V

-- `schema[k] = j`
unfoldable pub put : {V : Type 0} → String → Json V → Fields V → Fields V
put k j empty = field k j empty
put k j (field l i d) = if str_eq l k then field l j d else field l i (put k j d)

abbrev pub one : {V : Type 0} → String → String → Fields V
one k t = field k (text t) empty

abbrev schema_primitive : {V : Type 0} → Primitive → Fields V
schema_primitive int = one "type" "integer"
schema_primitive string = one "type" "string"
schema_primitive bool = one "type" "boolean"
schema_primitive float = one "type" "number"
schema_primitive datetime = field "type" (text "string") (one "format" "date-time")
schema_primitive uuid = field "type" (text "string") (one "format" "uuid")
schema_primitive json = empty

abbrev enum_schema : {V : Type 0} → List String → Option String → Fields V
enum_schema values none = field "type" (text "string") (field "enum" (texts values) empty)
enum_schema values (some d) =
    field "type" (text "string") (field "enum" (texts values) (one "default" d))

abbrev pub nullable : {V : Type 0} → Fields V → Fields V
nullable inner = field "anyOf" (any_of inner (one "type" "null")) empty

abbrev pub json_schema_renderer : {V : Type 0} → TypeRenderer (Fields V)
json_schema_renderer = record {
  primitive_of = schema_primitive;
  list_of = λ item. field "type" (text "array") (field "items" (object item) empty);
  dict_of =
      λ key value. field "type" (text "object") (field "additionalProperties" (object value) empty);
  optional_of = nullable;
  enum_of = enum_schema;
}

unfoldable pub type_spec_to_json_schema : {V : Type 0} → TypeSpec → Fields V
unfolding fold_type_spec
type_spec_to_json_schema t = fold_type_spec t json_schema_renderer
